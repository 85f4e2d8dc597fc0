-- ===== src/Std/Map.antt =====
-- `std::map`: its entries in the order of iteration, which is that of the keys.
use cpp_done.Prelude.{
  ◌+◌, ◌≡◌, refl, true, Option, none, some, List, [], ◌∷◌, arith, if◌then◌else◌, length,
}
use cpp_done.Std.Order.{Less, ◌~◌, ~_symm, ~_congr, less_trans}

abbrev pub Map {ℓ κ} : Type ℓ → Type κ → Type (ℓ ⊔ κ)
Map K V = List (K × V)

module _ {ℓ κ} {K : Type ℓ} {V : Type κ} ⦃o : Less K⦄ where
  -- `find(key)->second`; `none` is `end()`
  unfoldable pub find : K → Map K V → Option V
  find k [] = none
  find k ((j, v) ∷ m) = if k ~ j then some v else find k m

  -- `insert({key, value})`, which keeps an entry that is there
  unfoldable pub insert : K → V → Map K V → Map K V
  insert k v [] = (k, v) ∷ []
  insert k v ((j, w) ∷ m) =
      if o.less k j
      then (k, v) ∷ (j, w) ∷ m
      else if o.less j k
      then (j, w) ∷ insert k v m
      else (j, w) ∷ m

  -- `erase(find(key))`
  unfoldable pub erase : K → Map K V → Map K V
  erase k [] = []
  erase k ((j, w) ∷ m) = if k ~ j then m else (j, w) ∷ erase k m

  -- the key stands before every key of the map
  abbrev pub Below : K → Map K V → Type 0
  Below k [] = Unit
  Below k ((j, w) ∷ m) = (o.less k j ≡ true) × Below k m

  abbrev pub IsSorted : Map K V → Type 0
  IsSorted [] = Unit
  IsSorted ((j, w) ∷ m) = Below j m × IsSorted m

  pub Below-trans : (j k : K) (m : Map K V) → o.less j k ≡ true → Below k m → Below j m
  Below-trans j k [] h b = tt
  Below-trans j k ((i, w) ∷ m) h b = (less_trans j k i h b.0, Below-trans j k m h b.1)

  pub Below-insert :
      (j k : K) (v : V) (m : Map K V) → o.less j k ≡ true → Below j m → Below j (insert k v m)
  unfolding insert
  Below-insert j k v [] h b = (h, tt)
  Below-insert j k v ((i, w) ∷ m) h b = ground (arith, Below-insert j k v m h)

  pub Below-erase : (j k : K) (m : Map K V) → Below j m → Below j (erase k m)
  unfolding erase
  Below-erase j k [] b = tt
  Below-erase j k ((i, w) ∷ m) b = ground (arith, Below-erase j k m)

  pub insert-Below : (k : K) (v : V) (m : Map K V) → Below k m → insert k v m ≡ (k, v) ∷ m
  unfolding insert
  insert-Below k v [] b = refl
  insert-Below k v ((j, w) ∷ m) b = rw b.0

  pub insert-IsSorted : (k : K) (v : V) (m : Map K V) → IsSorted m → IsSorted (insert k v m)
  unfolding insert
  insert-IsSorted k v [] s = (tt, tt)
  insert-IsSorted k v ((j, w) ∷ m) s =
      ground (arith, insert-IsSorted k v m, Below-insert j k v m, Below-trans k j m)

  pub erase-IsSorted : (k : K) (m : Map K V) → IsSorted m → IsSorted (erase k m)
  unfolding erase
  erase-IsSorted k [] s = tt
  erase-IsSorted k ((j, w) ∷ m) s = ground (arith, erase-IsSorted k m, Below-erase j k m)

  -- a key below the whole map, or equivalent to one that is, is not in it
  pub find-Below : (q j : K) (m : Map K V) → (q ~ j) ≡ true → Below j m → find q m ≡ none
  unfolding find
  find-Below q j [] e b = refl
  find-Below q j ((i, w) ∷ m) e b = ground (arith, find-Below q j m e, ~_congr q j i e)

  pub find_congr : (q k : K) (m : Map K V) → (q ~ k) ≡ true → find q m ≡ find k m
  unfolding find
  find_congr q k [] e = refl
  find_congr q k ((i, w) ∷ m) e = ground (arith, find_congr q k m e, ~_congr q k i e)

  pub find-insert :
      (q k : K) (v : V) (m : Map K V)
      → find k m ≡ none
      → find q (insert k v m) ≡ (if q ~ k then some v else find q m)
  unfolding find insert
  find-insert q k v [] h = refl
  find-insert q k v ((j, w) ∷ m) h = ground (arith, find-insert q k v m, ~_congr q k j)

  pub find-erase :
      (q k : K) (m : Map K V) → IsSorted m → find q (erase k m) ≡ (if q ~ k then none else find q m)
  unfolding find erase
  find-erase q k [] s = ground arith
  find-erase q k ((j, w) ∷ m) s = ground (
    arith,
    find-erase q k m s.1,
    ~_congr q k j,
    find-Below q j m,
    ~_congr q j k,
    ~_symm k j,
    ~_congr k j q,
    ~_symm q k,
  )

  pub length-insert :
      (k : K) (v : V) (m : Map K V) → find k m ≡ none → length (insert k v m) ≡ length m + 1
  unfolding find insert
  length-insert k v [] h = refl
  length-insert k v ((j, w) ∷ m) h = ground (arith, length-insert k v m)

  pub length-erase :
      (k : K) (v : V) (m : Map K V) → find k m ≡ some v → length (erase k m) + 1 ≡ length m
  unfolding find erase
  length-erase k v [] h = ground arith
  length-erase k v ((j, w) ∷ m) h = ground (arith, length-erase k v m)

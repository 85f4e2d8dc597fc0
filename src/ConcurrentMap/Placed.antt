-- ===== src/ConcurrentMap/Placed.antt =====
-- The invariant of `ConcurrentMap` (concurrent_map/concurrent_map.h), the map that the buckets stand
-- for, and what each method that works on one key does to it.
use cpp_done.ConcurrentMap.Bucket.Effects.{
  Acts, offer, renew, offered, renewed, insert-Acts, update-Acts, remove-Acts, insert-offered,
  update-renewed,
}
use cpp_done.ConcurrentMap.Bucket
use cpp_done.ConcurrentMap.{
  ConcurrentMap, new, bucket_index, bucket, change, lookup, contain, delete, insert, update,
}
use cpp_done.Prelude.{
  ℕ, ◌%◌, ◌<◌, ◌≡◌, ap, sym, ◌∙◌, ◌≢◌, inl, inr, Bool, true, false, Option, none, some, List, [],
  arith, ◌==◌, if◌then◌else◌, ◌>>=◌, length, get_or, modify, length-modify, get_or-modify_self,
  get_or-modify_ne, get_or-replicate, length-replicate, Bool-cases, ==_iff,
}
use cpp_done.Std.Map
use cpp_done.Std.Map.{Map, IsSorted}
use cpp_done.Std.Order.{Less, ◌~◌}

get_or-modify {ℓ} :
    {A : Type ℓ} (xs : List A) (i j : ℕ) (f : A → A) (d : A)
    → i < length xs
    → get_or (modify xs i f) j d ≡ (if i == j then f (get_or xs i d) else get_or xs j d)
get_or-modify xs i j f d h = elim (Bool-cases (i == j)) [
  | inl e ↦ rw e (
      ap (λ k. get_or (modify xs i f) k d) (sym ((==_iff i j).0 e)) ∙ get_or-modify_self xs i f d h)
  | inr e ↦ rw e (get_or-modify_ne xs i j f d (λ p. ground (arith, ==_iff i j)))
]

abbrev pub home {ℓ} : {K V : Type ℓ} → ConcurrentMap K V → K → ℕ
home m k = m.hasher k % length m.buckets

module _ {ℓ} {K V : Type ℓ} where
  pub bucket_index_lem :
      (m : ConcurrentMap K V) (k : K) → 0 < length m.buckets → bucket_index m k ≡ some (home m k)
  unfolding bucket_index
  bucket_index_lem m k h = ground arith

  pub home-lt : (m : ConcurrentMap K V) (k : K) → 0 < length m.buckets → home m k < length m.buckets
  home-lt m k h = omega arith

module _ {ℓ} {K V : Type ℓ} ⦃o : Less K⦄ where
  -- `steady` is what `Hash` has to promise: equivalent keys have one hash.
  pub record IsValid (m : ConcurrentMap K V) : Type ℓ where
    pub pos : 0 < length m.buckets
    pub steady : (a b : K) → (a ~ b) ≡ true → m.hasher a ≡ m.hasher b
    pub sorted : (i : ℕ) → IsSorted (bucket m i)
    pub placed : (q : K) (i : ℕ) → home m q ≢ i → Map.find q (bucket m i) ≡ none

  -- the map that the buckets stand for
  unfoldable pub view : ConcurrentMap K V → K → Option V
  view m q = Map.find q (bucket m (home m q))

  -- what a method returned: a valid map that stands for the old one with `g` applied at `k`
  pub record Writes (m : ConcurrentMap K V) (k : K) (g : Option V → Option V)
      (m' : ConcurrentMap K V) : Type ℓ where
    pub valid : IsValid m'
    pub reads : (q : K) → view m' q ≡ (if q ~ k then g (view m k) else view m q)

  module _ {m : ConcurrentMap K V} (v : IsValid m) (k : K) {g : Option V → Option V}
      {f : Map K V → Map K V} (a : Acts k g f) where
    abbrev changed : ConcurrentMap K V
    changed = change m (home m k) f

    changed-bucket :
        (i : ℕ) → bucket changed i ≡ (if home m k == i then f (bucket m (home m k)) else bucket m i)
    changed-bucket i = get_or-modify m.buckets (home m k) i f [] (home-lt m k v.pos)

    changed-IsSorted : (i : ℕ) → IsSorted (bucket changed i)
    changed-IsSorted i = rw (changed-bucket i) (elim (Bool-cases (home m k == i)) [
      | inl e ↦ rw e (a.sorted _ (v.sorted (home m k)))
      | inr e ↦ rw e (v.sorted i)
    ])

    changed-placed : (q : K) (i : ℕ) → home m q ≢ i → Map.find q (bucket changed i) ≡ none
    changed-placed q i n = rw (changed-bucket i) (
        ground (
          arith,
          a.reads q (bucket m (home m k)) (v.sorted _),
          v.placed q i n,
          v.steady q k,
          ==_iff (home m k) i,
        ))

    changed-home : (q : K) → home changed q ≡ home m q
    changed-home q = rw (length-modify m.buckets (home m k) f)

    pub change-Writes : Writes m k g changed
    unfolding view
    change-Writes = record {
      valid = record {
        pos = rw (length-modify m.buckets (home m k) f) v.pos;
        steady = v.steady;
        sorted = changed-IsSorted;
        placed = λ q i n. changed-placed q i (λ e. n (changed-home q ∙ e));
      };
      reads = λ q.
          rw (changed-home q, changed-bucket (home m q))
            (ground (
              arith,
              a.reads q (bucket m (home m k)) (v.sorted _),
              v.steady q k,
              ==_iff (home m k) (home m q),
            ));
    }

module _ {ℓ} {K V : Type ℓ} ⦃o : Less K⦄ where
  pub new-IsValid :
      (bucket_nums : ℕ) (hasher : K → ℕ)
      → 0 < bucket_nums
      → ((a b : K) → (a ~ b) ≡ true → hasher a ≡ hasher b)
      → let m : ConcurrentMap K V = new bucket_nums hasher in
        IsValid m × ((q : K) → view m q ≡ none)
  unfolding new view Map.find
  new-IsValid n hasher h steady = (
    record {
      pos = rw (length-replicate {A = Map K V} n []) h;
      steady = steady;
      sorted = λ i. rw (get_or-replicate {A = Map K V} n i []) tt;
      placed = λ q i d. rw (get_or-replicate {A = Map K V} n i []);
    },
    λ q. rw (get_or-replicate {A = Map K V} n _ []),
  )

  -- On a valid map, LookUp returns true and the value that the map holds for the key, or false and
  -- the untouched output if it holds none.
  pub lookup-view :
      {m : ConcurrentMap K V} (k : K) (value : V)
      → IsValid m
      → lookup k value m ≡ some (elim (view m k) [ none ↦ (false, value) | some v ↦ (true, v) ])
  unfolding lookup view Bucket.lookup
  lookup-view {m} k value v = rw (bucket_index_lem m k v.pos)

  pub contain-view :
      {m : ConcurrentMap K V} (k : K)
      → IsValid m
      → contain k m ≡ some (elim (view m k) [ none ↦ false | some _ ↦ true ])
  unfolding contain view Bucket.contain
  contain-view {m} k v = rw (bucket_index_lem m k v.pos)

  -- On a valid map, Delete returns true and a valid map in which every key equivalent to the
  -- deleted one is absent and every other key reads as before.
  pub delete-Writes :
      {m : ConcurrentMap K V} (k : K)
      → IsValid m
      → (m' : ConcurrentMap K V) × (delete k m ≡ some (m', true)) × Writes m k (λ _. none) m'
  unfolding delete
  delete-Writes {m} k v = (_, rw (bucket_index_lem m k v.pos), change-Writes v k (remove-Acts k))

module _ {ℓ} {K V : Type ℓ} ⦃o : Less K⦄ (compare : V → V → Bool) where
  -- On a valid map, Insert returns a valid map and the flag that says whether the value was
  -- stored: always for a new key, and for a present key exactly when Compare(value, old) holds.
  -- Every key equivalent to the inserted one then reads as the stored winner, and every other key
  -- reads as before.
  pub insert-Writes :
      {m : ConcurrentMap K V} (k : K) (value : V)
      → IsValid m
      → (m' : ConcurrentMap K V) × (insert compare k value m
          ≡ some (m', offered compare value (view m k)))
        × Writes m k (offer compare value) m'
  unfolding insert view
  insert-Writes {m} k value v = (
    _,
    rw (bucket_index_lem m k v.pos, ◌>>=◌, insert-offered compare k value (bucket m (home m k))),
    change-Writes v k (insert-Acts compare k value),
  )

  -- On a valid map, Update returns a valid map and the flag that says whether the value was
  -- stored: never for an absent key, and for a present key exactly when Compare(value, old) holds.
  -- An equivalent key then reads as the winner if it was present and as absent if not, and every
  -- other key reads as before.
  pub update-Writes :
      {m : ConcurrentMap K V} (k : K) (value : V)
      → IsValid m
      → (m' : ConcurrentMap K V) × (update compare k value m
          ≡ some (m', renewed compare value (view m k)))
        × Writes m k (renew compare value) m'
  unfolding update view
  update-Writes {m} k value v = (
    _,
    rw (bucket_index_lem m k v.pos, ◌>>=◌, update-renewed compare k value (bucket m (home m k))),
    change-Writes v k (update-Acts compare k value),
  )

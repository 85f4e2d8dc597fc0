-- ===== src/ConcurrentMap/Bucket/Effects.antt =====
-- What the methods of `ConcurrentBucket` (concurrent_map/concurrent_map.h) do to a sorted map.
use cpp_done.Prelude.{
  ◌≡◌, Bool, true, false, Option, none, some, List, [], ◌∷◌, ◌++◌, arith, if◌then◌else◌,
  append_assoc, append-nil,
}
use cpp_done.ConcurrentMap.Bucket.{insert, update, remove, get_all_key}
use cpp_done.Std.Map
use cpp_done.Std.Map.{
  Map, IsSorted, insert-IsSorted, erase-IsSorted, find-insert, find-erase, find_congr,
}
use cpp_done.Std.Order.{Less, ◌~◌, ~_refl}

-- What a write at one key does to a sorted map: `g` is applied to what the key had.
pub record Acts {ℓ} {K V : Type ℓ} ⦃o : Less K⦄ (k : K) (g : Option V → Option V)
    (f : Map K V → Map K V) : Type ℓ where
  pub sorted : (m : Map K V) → IsSorted m → IsSorted (f m)
  pub reads :
      (q : K) (m : Map K V)
      → IsSorted m
      → Map.find q (f m) ≡ (if q ~ k then g (Map.find k m) else Map.find q m)

module _ {ℓ} {V : Type ℓ} (compare : V → V → Bool) where
  -- the value that wins under `Compare`
  abbrev pub winner : V → V → V
  winner new old = if compare new old then new else old

  abbrev pub offer : V → Option V → Option V
  offer v none = some v
  offer v (some old) = some (winner v old)

  abbrev pub renew : V → Option V → Option V
  renew v none = none
  renew v (some old) = some (winner v old)

  -- did the write take place
  abbrev pub offered : V → Option V → Bool
  offered v none = true
  offered v (some old) = compare v old

  abbrev pub renewed : V → Option V → Bool
  renewed v none = false
  renewed v (some old) = compare v old

module _ {ℓ} {K V : Type ℓ} ⦃o : Less K⦄ (compare : V → V → Bool) where
  replace_reads :
      (q k : K) (v : V) (m : Map K V)
      → IsSorted m
      → Map.find q (Map.insert k v (Map.erase k m)) ≡ (if q ~ k then some v else Map.find q m)
  replace_reads q k v m s =
      ground
        (arith, find-insert q k v (Map.erase k m), find-erase q k m s, find-erase k k m s, ~_refl k)

  pub insert-Acts : (k : K) (v : V) → Acts k (offer compare v) (λ m. (insert compare k v m).0)
  unfolding insert
  insert-Acts k v = record {
    sorted = λ m s.
        ground (
          arith,
          insert-IsSorted k v m s,
          erase-IsSorted k m s,
          insert-IsSorted k v (Map.erase k m),
        );
    reads = λ q m s. ground (arith, find-insert q k v m, replace_reads q k v m s, find_congr q k m);
  }

  pub update-Acts : (k : K) (v : V) → Acts k (renew compare v) (λ m. (update compare k v m).0)
  unfolding update
  update-Acts k v = record {
    sorted = λ m s. ground (arith, erase-IsSorted k m s, insert-IsSorted k v (Map.erase k m));
    reads = λ q m s. ground (arith, replace_reads q k v m s, find_congr q k m);
  }

  pub insert-offered :
      (k : K) (v : V) (m : Map K V) → (insert compare k v m).1 ≡ offered compare v (Map.find k m)
  unfolding insert
  insert-offered k v m = ground arith

  pub update-renewed :
      (k : K) (v : V) (m : Map K V) → (update compare k v m).1 ≡ renewed compare v (Map.find k m)
  unfolding update
  update-renewed k v m = ground arith

module _ {ℓ} {K V : Type ℓ} ⦃o : Less K⦄ where
  pub remove-Acts : (k : K) → Acts {V = V} k (λ _. none) (remove k)
  unfolding remove
  remove-Acts k = record {
    sorted = λ m s. ground (arith, erase-IsSorted k m s);
    reads = λ q m s. ground (arith, find-erase q k m s, find_congr q k m);
  }

  pub get_all_key_lem : (m : Map K V) (list : List (K × V)) → get_all_key m list ≡ list ++ m
  unfolding get_all_key
  get_all_key_lem [] list = rw append-nil
  get_all_key_lem (e ∷ m) list =
      rw (get_all_key_lem m (list ++ e ∷ [])) (append_assoc list (e ∷ []) m)

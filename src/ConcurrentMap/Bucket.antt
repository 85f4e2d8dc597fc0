-- ===== src/ConcurrentMap/Bucket.antt =====
-- `ConcurrentBucket` of concurrent_map/concurrent_map.h. A method holds the bucket's lock from its
-- first access of `map_` to its last, so that it is one step on the map; `Compare` is a parameter.
pub mod Effects
use cpp_done.Prelude.{
  ℕ, ◌+◌, ◌≡◌, refl, Bool, true, false, Option, none, some, List, [], ◌∷◌, ◌++◌, arith,
  if◌then◌else◌, length, fold, append_assoc, append-nil,
}
use cpp_done.Std.Map
use cpp_done.Std.Map.{Map}
use cpp_done.Std.Order.{Less}

module _ {ℓ} {K V : Type ℓ} ⦃o : Less K⦄ where
  -- the result, and what stands in `value` afterwards
  unfoldable pub lookup : K → V → Map K V → Bool × V
  lookup key value m = elim (Map.find key m) [ none ↦ (false, value) | some v ↦ (true, v) ]

  unfoldable pub size : Map K V → ℕ
  size m = length m

  unfoldable pub clear : Map K V → Map K V
  clear m = []

  unfoldable pub contain : K → Map K V → Bool
  contain key m = elim (Map.find key m) [ none ↦ false | some _ ↦ true ]

  unfoldable pub remove_without_lock : K → Map K V → Map K V
  remove_without_lock key m = elim (Map.find key m) [ none ↦ m | some _ ↦ Map.erase key m ]

  unfoldable pub remove : K → Map K V → Map K V
  unfolding remove_without_lock
  remove key m = remove_without_lock key m

  -- each entry is pushed to the back of the caller's list
  unfoldable pub get_all_key : Map K V → List (K × V) → List (K × V)
  get_all_key m list = fold (λ l e. l ++ (e.0, e.1) ∷ []) list m

  unfoldable pub remove_key_batch : List K → Map K V → Map K V
  unfolding remove_without_lock
  remove_key_batch list m = fold (λ b k. remove_without_lock k b) m list

module _ {ℓ} {K V : Type ℓ} ⦃o : Less K⦄ (compare : V → V → Bool) where
  unfoldable pub insert_without_lock : K → V → Map K V → Map K V × Bool
  insert_without_lock key value m = elim (Map.find key m) [
    | none ↦ (Map.insert key value m, true)
    | some old ↦
        if compare value old then (Map.insert key value (Map.erase key m), true) else (m, false)
  ]

  unfoldable pub update_without_lock : K → V → Map K V → Map K V × Bool
  update_without_lock key value m = elim (Map.find key m) [
    | none ↦ (m, false)
    | some old ↦
        if compare value old then (Map.insert key value (Map.erase key m), true) else (m, false)
  ]

  unfoldable pub insert : K → V → Map K V → Map K V × Bool
  unfolding insert_without_lock
  insert key value m = insert_without_lock key value m

  unfoldable pub update : K → V → Map K V → Map K V × Bool
  unfolding update_without_lock
  update key value m = update_without_lock key value m

  unfoldable pub update_key_batch : List (K × V) → Map K V → Map K V
  unfolding update_without_lock
  update_key_batch list m = fold (λ b e. (update_without_lock e.0 e.1 b).0) m list

  unfoldable pub insert_key_batch : List (K × V) → Map K V → Map K V
  unfolding insert_without_lock
  insert_key_batch list m = fold (λ b e. (insert_without_lock e.0 e.1 b).0) m list

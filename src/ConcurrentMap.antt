-- ===== src/ConcurrentMap.antt =====
-- `ConcurrentMap` of concurrent_map/concurrent_map.h. Each visit of a bucket happens under that
-- bucket's lock; a method that visits several takes their locks one after the other. `none` is the
-- undefined behaviour of `% 0`, in a map that was made with no bucket.
pub mod Bucket
pub mod Placed
pub mod Batches
pub mod Contents
pub mod Threads
mod Tests
use cpp_done.Prelude.{
  ℕ, ◌+◌, ◌%◌, ◌^◌, Bool, true, Option, none, some, List, [], ◌∷◌, ◌++◌, ◌==◌, if◌then◌else◌, ◌>>=◌,
  length, get_or, modify, replicate, fold, map,
}
use cpp_done.Std.Map.{Map}
use cpp_done.Std.Order.{Less}
use Bucket

pub record ConcurrentMap {ℓ} (K V : Type ℓ) : Type ℓ where
  pub buckets : List (Map K V)
  pub hasher : K → ℕ

unfoldable pub new {ℓ} : {K V : Type ℓ} → ℕ → (K → ℕ) → ConcurrentMap K V
new bucket_nums hasher = record { buckets = replicate bucket_nums []; hasher = hasher }

module _ {ℓ} {K V : Type ℓ} where
  -- `hasher_(key) % buckets_.size()`
  unfoldable pub bucket_index : ConcurrentMap K V → K → Option ℕ
  bucket_index m key = let n = length m.buckets in if n == 0 then none else some (m.hasher key % n)

  -- `*buckets_[bucket_index]` is read and changed through its place in the vector
  abbrev bucket : ConcurrentMap K V → ℕ → Map K V
  bucket m i = get_or m.buckets i []

  abbrev change : ConcurrentMap K V → ℕ → (Map K V → Map K V) → ConcurrentMap K V
  change m i f = record m { buckets = modify m.buckets i f }

  -- sorting a batch into one list for each bucket
  unfoldable pub scatter {κ} :
      {X : Type κ} → (X → K) → ConcurrentMap K V → List X → List (List X) → Option (List (List X))
  unfolding bucket_index
  scatter key_of m [] lists = some lists
  scatter key_of m (x ∷ xs) lists = do
    i ← bucket_index m (key_of x)
    scatter key_of m xs (modify lists i (λ l. l ++ x ∷ []))

  -- `buckets_[i]->batch(lists[i])` for each `i`
  unfoldable pub gather {κ} :
      {X : Type κ} → (List X → Map K V → Map K V) → List (Map K V) → List (List X) → List (Map K V)
  gather batch [] lists = []
  gather batch (b ∷ bs) [] = b ∷ bs
  gather batch (b ∷ bs) (l ∷ ls) = batch l b ∷ gather batch bs ls

module _ {ℓ} {K V : Type ℓ} ⦃o : Less K⦄ where
  unfoldable pub lookup : K → V → ConcurrentMap K V → Option (Bool × V)
  unfolding bucket_index
  lookup key value m = do i ← bucket_index m key; some (Bucket.lookup key value (bucket m i))

  unfoldable pub contain : K → ConcurrentMap K V → Option Bool
  unfolding bucket_index
  contain key m = do i ← bucket_index m key; some (Bucket.contain key (bucket m i))

  unfoldable pub delete : K → ConcurrentMap K V → Option (ConcurrentMap K V × Bool)
  unfolding bucket_index
  delete key m = do i ← bucket_index m key; some (change m i (Bucket.remove key), true)

  -- the caller's list is cleared first
  unfoldable pub get_all_key : ConcurrentMap K V → List (K × V) → List (K × V)
  get_all_key m list = fold (λ l b. Bucket.get_all_key b l) [] m.buckets

  unfoldable pub remove_key_batch : List K → ConcurrentMap K V → Option (ConcurrentMap K V)
  unfolding scatter gather
  remove_key_batch list m = do
    remove_lists ← scatter (λ k. k) m list (replicate (length m.buckets) [])
    some (record m { buckets = gather Bucket.remove_key_batch m.buckets remove_lists })

  -- `total_size` is a `uint64_t`
  unfoldable pub size : ConcurrentMap K V → ℕ
  size m = fold (λ total b. (total + Bucket.size b) % 2 ^ 64) 0 m.buckets

  unfoldable pub clear : ConcurrentMap K V → ConcurrentMap K V
  clear m = record m { buckets = map Bucket.clear m.buckets }

module _ {ℓ} {K V : Type ℓ} ⦃o : Less K⦄ (compare : V → V → Bool) where
  unfoldable pub insert : K → V → ConcurrentMap K V → Option (ConcurrentMap K V × Bool)
  unfolding bucket_index
  insert key value m = do
    i ← bucket_index m key
    some (
      change m i (λ b. (Bucket.insert compare key value b).0),
      (Bucket.insert compare key value (bucket m i)).1,
    )

  unfoldable pub update : K → V → ConcurrentMap K V → Option (ConcurrentMap K V × Bool)
  unfolding bucket_index
  update key value m = do
    i ← bucket_index m key
    some (
      change m i (λ b. (Bucket.update compare key value b).0),
      (Bucket.update compare key value (bucket m i)).1,
    )

  unfoldable pub update_key_batch : List (K × V) → ConcurrentMap K V → Option (ConcurrentMap K V)
  unfolding scatter gather
  update_key_batch list m = do
    update_lists ← scatter (λ e. e.0) m list (replicate (length m.buckets) [])
    some (record m { buckets = gather (Bucket.update_key_batch compare) m.buckets update_lists })

  unfoldable pub insert_key_batch : List (K × V) → ConcurrentMap K V → Option (ConcurrentMap K V)
  unfolding scatter gather
  insert_key_batch list m = do
    insert_lists ← scatter (λ e. e.0) m list (replicate (length m.buckets) [])
    some (record m { buckets = gather (Bucket.insert_key_batch compare) m.buckets insert_lists })

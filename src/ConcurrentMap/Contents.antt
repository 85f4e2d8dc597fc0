-- ===== src/ConcurrentMap/Contents.antt =====
-- The methods of `ConcurrentMap` (concurrent_map/concurrent_map.h) that visit every bucket to list,
-- count or drop the entries.
use cpp_done.ConcurrentMap.Bucket
use cpp_done.ConcurrentMap.Bucket.Effects.{get_all_key_lem}
use cpp_done.ConcurrentMap.Placed.{IsValid, view, home}
use cpp_done.ConcurrentMap.{ConcurrentMap, get_all_key, size, clear}
use cpp_done.Prelude.{
  ℕ, zero, suc, ◌+◌, ◌%◌, ◌^◌, ◌≡◌, refl, ap, ◌∙◌, ◌≢◌, none, List, [], ◌∷◌, ◌++◌, arith, length,
  get_or, fold, concat, map, append_assoc, append-nil, length-append,
}
use cpp_done.Std.Map
use cpp_done.Std.Map.{Map, IsSorted}
use cpp_done.Std.Order.{Less}

module _ {ℓ} {K V : Type ℓ} ⦃o : Less K⦄ where
  find-append_absent :
      (q : K) (a b : Map K V) → Map.find q a ≡ none → Map.find q (a ++ b) ≡ Map.find q b
  unfolding Map.find
  find-append_absent q [] b h = refl
  find-append_absent q (e ∷ a) b h = ground (arith, find-append_absent q a b)

  find-append_rest :
      (q : K) (a b : Map K V) → Map.find q b ≡ none → Map.find q (a ++ b) ≡ Map.find q a
  unfolding Map.find
  find-append_rest q [] b h = h
  find-append_rest q (e ∷ a) b h = ground (arith, find-append_rest q a b)

  find-concat_absent :
      (q : K) (bs : List (Map K V))
      → ((i : ℕ) → Map.find q (get_or bs i []) ≡ none)
      → Map.find q (concat bs) ≡ none
  unfolding Map.find
  find-concat_absent q [] h = refl
  find-concat_absent q (b ∷ bs) h =
      find-append_absent q b (concat bs) (h 0) ∙ find-concat_absent q bs (λ i. h (suc i))

  -- a key that stands in one bucket only is found there
  pub find-concat :
      (q : K) (bs : List (Map K V)) (j : ℕ)
      → ((i : ℕ) → j ≢ i → Map.find q (get_or bs i []) ≡ none)
      → Map.find q (concat bs) ≡ Map.find q (get_or bs j [])
  unfolding Map.find
  find-concat q [] j h = refl
  find-concat q (b ∷ bs) zero h =
      find-append_rest q b (concat bs) (find-concat_absent q bs (λ i. h (suc i) (omega arith)))
  find-concat q (b ∷ bs) (suc j) h =
      find-append_absent q b (concat bs) (h 0 (omega arith))
      ∙ find-concat q bs j (λ i n. h (suc i) (omega arith))

  list-concat :
      (bs : List (Map K V)) (l : List (K × V))
      → fold (λ l b. Bucket.get_all_key b l) l bs ≡ l ++ concat bs
  list-concat [] l = rw append-nil
  list-concat (b ∷ bs) l =
      rw (get_all_key_lem b l) (list-concat bs (l ++ b) ∙ append_assoc l b (concat bs))

  size-concat :
      (bs : List (Map K V)) (t : ℕ)
      → fold (λ total b. (total + Bucket.size b) % 2 ^ 64) (t % 2 ^ 64) bs
        ≡ (t + length (concat bs)) % 2 ^ 64
  unfolding Bucket.size
  size-concat [] t = omega arith
  size-concat (b ∷ bs) t =
      ap (λ s. fold (λ total c. (total + Bucket.size c) % 2 ^ 64) s bs) (omega arith)
      ∙ size-concat bs (t + length b)
      ∙ omega (arith, length-append b (concat bs))

  -- On a valid map, the list that GetAllKey leaves, whatever it held before, looks up every key as
  -- the map does, and Size is the length of that list, modulo 2 ^ 64.
  pub get_all_key-view :
      {m : ConcurrentMap K V} (list : List (K × V))
      → IsValid m
      → ((q : K) → Map.find q (get_all_key m list) ≡ view m q)
        × (size m ≡ length (get_all_key m list) % 2 ^ 64)
  unfolding get_all_key size view
  get_all_key-view {m} list v = rw (list-concat m.buckets []) (
    (λ q. find-concat q m.buckets (home m q) (λ i n. v.placed q i n)),
    size-concat m.buckets 0 ∙ omega arith,
  )

  length-clear : (bs : List (Map K V)) → length (map Bucket.clear bs) ≡ length bs
  length-clear [] = refl
  length-clear (b ∷ bs) = ap suc (length-clear bs)

  get_or-clear : (bs : List (Map K V)) (i : ℕ) → get_or (map Bucket.clear bs) i [] ≡ []
  unfolding Bucket.clear
  get_or-clear [] i = refl
  get_or-clear (b ∷ bs) zero = refl
  get_or-clear (b ∷ bs) (suc i) = get_or-clear bs i

  concat-clear : (bs : List (Map K V)) → concat (map Bucket.clear bs) ≡ []
  unfolding Bucket.clear
  concat-clear [] = refl
  concat-clear (b ∷ bs) = concat-clear bs

  -- Clear leaves a valid map valid, with no key and with size 0.
  pub clear-view :
      {m : ConcurrentMap K V}
      → IsValid m
      → IsValid (clear m) × ((q : K) → view (clear m) q ≡ none) × (size (clear m) ≡ 0)
  unfolding clear view size Map.find
  clear-view {m} v = (
    record {
      pos = rw (length-clear m.buckets) v.pos;
      steady = v.steady;
      sorted = λ i. rw (get_or-clear m.buckets i) tt;
      placed = λ q i n. rw (get_or-clear m.buckets i);
    },
    λ q. rw (get_or-clear m.buckets),
    size-concat (map Bucket.clear m.buckets) 0 ∙ rw (concat-clear m.buckets),
  )

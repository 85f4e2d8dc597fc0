-- ===== src/ConcurrentMap/Threads/Snapshot.antt =====
-- `GetAllKey` of a `ConcurrentMap` (concurrent_map/concurrent_map.h) while other threads write: it visits each
-- bucket at a time of its own.
use cpp_done.ConcurrentMap.Bucket.Effects.{get_all_key_lem}
use cpp_done.ConcurrentMap.Contents.{find-concat}
use cpp_done.ConcurrentMap.Placed.{IsValid, view, home}
use cpp_done.ConcurrentMap.Threads.{get_all_key_visits}
use cpp_done.ConcurrentMap.{ConcurrentMap, bucket}
use cpp_done.Prelude.{
  ℕ, zero, suc, ◌+◌, ◌%◌, ◌≡◌, ◌≢◌, refl, ap, sym, ◌∙◌, none, some, List, [], ◌∷◌, ◌++◌, arith,
  length, get_or, get_elem?, concat, append-nil, append_assoc, All, Option-cases, inl, inr,
}
use cpp_done.Std.Map
use cpp_done.Std.Map.{Map}
use cpp_done.Std.Order.{Less}

module _ {ℓ} {K V : Type ℓ} ⦃o : Less K⦄ where
  -- the buckets as the visits found them
  abbrev seen : ℕ → List (ConcurrentMap K V) → List (Map K V)
  seen i [] = []
  seen i (m ∷ ms) = bucket m i ∷ seen (suc i) ms

  visits-concat :
      (i : ℕ) (ms : List (ConcurrentMap K V)) (list : List (K × V))
      → get_all_key_visits i ms list ≡ list ++ concat (seen i ms)
  unfolding get_all_key_visits
  visits-concat i [] list = sym (append-nil list)
  visits-concat i (m ∷ ms) list = rw (get_all_key_lem (bucket m i) list) (
      visits-concat (suc i) ms (list ++ bucket m i)
      ∙ append_assoc list (bucket m i) (concat (seen (suc i) ms)))

  seen-at :
      (i j : ℕ) (ms : List (ConcurrentMap K V)) (m : ConcurrentMap K V)
      → get_elem? ms j ≡ some m
      → get_or (seen i ms) j [] ≡ bucket m (i + j)
  seen-at i j [] m e = absurd cc
  seen-at i zero (l ∷ ms) m e = ground arith
  seen-at i (suc j) (l ∷ ms) m e = seen-at (suc i) j ms m e ∙ ap (bucket m) (omega arith)

  seen-past :
      (i j : ℕ) (ms : List (ConcurrentMap K V))
      → get_elem? ms j ≡ none
      → get_or (seen i ms) j [] ≡ []
  seen-past i j [] e = refl
  seen-past i zero (m ∷ ms) e = absurd cc
  seen-past i (suc j) (m ∷ ms) e = seen-past (suc i) j ms e

  module _ (hasher : K → ℕ) (n : ℕ) where
    -- one hash and one number of buckets, which no method changes
    pub record IsState (m : ConcurrentMap K V) : Type ℓ where
      pub valid : IsValid m
      pub hash : m.hasher ≡ hasher
      pub size : length m.buckets ≡ n

    home-place : {m : ConcurrentMap K V} (q : K) → IsState m → home m q ≡ hasher q % n
    home-place q s = rw (s.hash, s.size)

    AllStates-at :
        (ms : List (ConcurrentMap K V)) (j : ℕ) (m : ConcurrentMap K V)
        → All IsState ms
        → get_elem? ms j ≡ some m
        → IsState m
    AllStates-at [] j m a e = absurd cc
    AllStates-at (l ∷ ms) zero m a e = ground (arith, a.0)
    AllStates-at (l ∷ ms) (suc j) m a e = AllStates-at ms j m a.1 e

    -- a key is absent from what the visit of another bucket found
    seen-absent :
        (ms : List (ConcurrentMap K V)) (q : K) (i : ℕ)
        → All IsState ms
        → hasher q % n ≢ i
        → Map.find q (get_or (seen 0 ms) i []) ≡ none
    unfolding Map.find
    seen-absent ms q i a ne = elim (Option-cases (get_elem? ms i)) [
      | inl e ↦ rw (seen-past 0 i ms e) refl
      | inr (m, e) ↦
          let s = AllStates-at ms i m a e in
          rw (seen-at 0 i ms m e)
            (s.valid.placed q (0 + i) (λ h. ne (sym (home-place q s) ∙ h ∙ omega arith)))
    ]

    -- If GetAllKey finds the map in a valid state at each of its visits, with one hash and one
    -- number of buckets, then the list that it leaves looks up a key as the map did at the visit
    -- of the bucket of that key, whatever was written before and after that visit.
    pub get_all_key_visits-view :
        (ms : List (ConcurrentMap K V)) (q : K) (m : ConcurrentMap K V)
        → All IsState ms
        → get_elem? ms (hasher q % n) ≡ some m
        → Map.find q (get_all_key_visits 0 ms []) ≡ view m q
    unfolding view
    get_all_key_visits-view ms q m a e =
        ap (Map.find q) (visits-concat 0 ms [])
        ∙ find-concat q (seen 0 ms) (hasher q % n) (λ i ne. seen-absent ms q i a ne)
        ∙ ap (Map.find q) (seen-at 0 (hasher q % n) ms m e)
        ∙ ap (λ i. Map.find q (bucket m i))
            (omega arith ∙ sym (home-place q (AllStates-at ms (hasher q % n) m a e)))

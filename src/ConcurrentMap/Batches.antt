-- ===== src/ConcurrentMap/Batches.antt =====
-- The batch methods of `ConcurrentMap` (concurrent_map/concurrent_map.h), which sort their list into
-- one list for each bucket, against the single operations made one after the other.
use cpp_done.ConcurrentMap.Bucket
use cpp_done.ConcurrentMap.Placed.{home, bucket_index_lem}
use cpp_done.ConcurrentMap.{
  ConcurrentMap, change, scatter, gather, delete, insert, update, remove_key_batch,
  update_key_batch, insert_key_batch,
}
use cpp_done.Prelude.{
  ℕ, zero, suc, ◌%◌, ◌<◌, ◌≡◌, refl, ap, sym, ◌∙◌, Bool, Option, some, List, [], ◌∷◌, ◌++◌, arith,
  ◌>>=◌, length, modify, replicate, length-modify, fold, fold-append, length-replicate,
}
use cpp_done.Std.Map.{Map}
use cpp_done.Std.Order.{Less}

module _ {ℓ κ} {K V : Type ℓ} {X : Type κ} (f : X → Map K V → Map K V) where
  -- a bucket's share of a batch
  abbrev share : List X → Map K V → Map K V
  share l b = fold (λ c x. f x c) b l

  gather-length :
      (bs : List (Map K V)) (ls : List (List X)) → length (gather share bs ls) ≡ length bs
  unfolding gather
  gather-length [] ls = refl
  gather-length (b ∷ bs) [] = refl
  gather-length (b ∷ bs) (l ∷ ls) = ap suc (gather-length bs ls)

  gather-empty : (bs : List (Map K V)) (n : ℕ) → gather share bs (replicate n []) ≡ bs
  unfolding gather
  gather-empty [] n = refl
  gather-empty (b ∷ bs) zero = refl
  gather-empty (b ∷ bs) (suc n) = ap (◌∷◌ b) (gather-empty bs n)

  gather-push :
      (bs : List (Map K V)) (ls : List (List X)) (i : ℕ) (x : X)
      → length ls ≡ length bs
      → gather share bs (modify ls i (λ l. l ++ x ∷ [])) ≡ modify (gather share bs ls) i (f x)
  unfolding gather
  gather-push [] [] i x h = refl
  gather-push [] (l ∷ ls) i x h = absurd (omega arith)
  gather-push (b ∷ bs) [] i x h = absurd (omega arith)
  gather-push (b ∷ bs) (l ∷ ls) zero x h =
      ap (λ c. c ∷ gather share bs ls) (fold-append (λ c y. f y c) b l (x ∷ []))
  gather-push (b ∷ bs) (l ∷ ls) (suc i) x h =
      ap (◌∷◌ (share l b)) (gather-push bs ls i x (omega arith))

  -- one operation of the batch, made by itself in a table of `n` buckets
  abbrev single : (X → K) → (K → ℕ) → ℕ → List (Map K V) → X → List (Map K V)
  single key_of hasher n bs x = modify bs (hasher (key_of x) % n) (f x)

  module _ (key_of : X → K) (m : ConcurrentMap K V) (pos : 0 < length m.buckets) where
    abbrev step : List (Map K V) → X → List (Map K V)
    step = single key_of m.hasher (length m.buckets)

    gather-scatter :
        (xs : List X) (ls : List (List X))
        → length ls ≡ length m.buckets
        → (ls' : List (List X)) × (scatter key_of m xs ls ≡ some ls')
          × (gather share m.buckets ls' ≡ fold step (gather share m.buckets ls) xs)
    unfolding scatter
    gather-scatter [] ls h = (ls, refl, refl)
    gather-scatter (x ∷ xs) ls h =
        let i = m.hasher (key_of x) % length m.buckets in
        let (ls', run, e) =
          gather-scatter xs (modify ls i (λ l. l ++ x ∷ [])) (length-modify ls i _ ∙ h) in
        (
          ls',
          rw (bucket_index_lem m (key_of x) pos) run,
          e ∙ ap (λ s. fold step s xs) (gather-push m.buckets ls i x h),
        )

    pub scatter-gather :
        (xs : List X)
        → (ls : List (List X)) × (scatter key_of m xs (replicate (length m.buckets) []) ≡ some ls)
          × (gather share m.buckets ls ≡ fold step m.buckets xs)
    scatter-gather xs =
        let (ls, run, e) =
          gather-scatter xs (replicate (length m.buckets) []) (length-replicate _ []) in
        (ls, run, e ∙ ap (λ bs. fold step bs xs) (gather-empty m.buckets (length m.buckets)))

-- One operation after the other, each on the map that the one before it left.
abbrev pub each {ℓ κ} : {M : Type ℓ} {X : Type κ} → (X → M → Option M) → List X → M → Option M
each op [] m = some m
each op (x ∷ xs) m = op x m >>= each op xs

module _ {ℓ κ} {K V : Type ℓ} {X : Type κ} (f : X → Map K V → Map K V) (key_of : X → K)
    (op : X → ConcurrentMap K V → Option (ConcurrentMap K V))
    (op_lem : (x : X) (m : ConcurrentMap K V)
      → 0 < length m.buckets
      → op x m ≡ some (change m (home m (key_of x)) (f x))) where
  pub each-fold :
      (xs : List X) (m : ConcurrentMap K V)
      → 0 < length m.buckets
      → each op xs m
        ≡ some
            (record m { buckets = fold (single f key_of m.hasher (length m.buckets)) m.buckets xs })
  each-fold [] m pos = refl
  each-fold (x ∷ xs) m pos =
      let i = home m (key_of x) in
      let same = length-modify m.buckets i (f x) in
      rw (op_lem x m pos) (
        each-fold xs (change m i (f x)) (rw same pos)
        ∙ ap
            (λ n. some (record m {
              buckets = fold (single f key_of m.hasher n) (modify m.buckets i (f x)) xs;
            }))
            same)

module _ {ℓ} {K V : Type ℓ} ⦃o : Less K⦄ (compare : V → V → Bool) where
  abbrev pub insert_one : K × V → ConcurrentMap K V → Option (ConcurrentMap K V)
  insert_one e m = insert compare e.0 e.1 m >>= λ r. some r.0

  abbrev pub update_one : K × V → ConcurrentMap K V → Option (ConcurrentMap K V)
  update_one e m = update compare e.0 e.1 m >>= λ r. some r.0

  -- On a map with a bucket, InsertKeyBatch ends in exactly the state that single calls of Insert
  -- reach, made one after the other in the order of the list, although it sorts the list by bucket
  -- first.
  pub insert_key_batch-each :
      (list : List (K × V)) (m : ConcurrentMap K V)
      → 0 < length m.buckets
      → insert_key_batch compare list m ≡ each insert_one list m
  unfolding insert_key_batch insert Bucket.insert_key_batch Bucket.insert
  insert_key_batch-each list m pos =
      let f : K × V → Map K V → Map K V = λ e b. (Bucket.insert_without_lock compare e.0 e.1 b).0 in
      let (ls, run, e) = scatter-gather f (λ x. x.0) m pos list in
      rw run (
        ap (λ bs. some (record m { buckets = bs })) e
        ∙ sym
            (each-fold f (λ x. x.0) insert_one (λ x n h. rw (bucket_index_lem n x.0 h)) list m pos))

  -- On a map with a bucket, UpdateKeyBatch ends in exactly the state that single calls of Update
  -- reach, made one after the other in the order of the list.
  pub update_key_batch-each :
      (list : List (K × V)) (m : ConcurrentMap K V)
      → 0 < length m.buckets
      → update_key_batch compare list m ≡ each update_one list m
  unfolding update_key_batch update Bucket.update_key_batch Bucket.update
  update_key_batch-each list m pos =
      let f : K × V → Map K V → Map K V = λ e b. (Bucket.update_without_lock compare e.0 e.1 b).0 in
      let (ls, run, e) = scatter-gather f (λ x. x.0) m pos list in
      rw run (
        ap (λ bs. some (record m { buckets = bs })) e
        ∙ sym
            (each-fold f (λ x. x.0) update_one (λ x n h. rw (bucket_index_lem n x.0 h)) list m pos))

module _ {ℓ} {K V : Type ℓ} ⦃o : Less K⦄ where
  abbrev pub delete_one : K → ConcurrentMap K V → Option (ConcurrentMap K V)
  delete_one k m = delete k m >>= λ r. some r.0

  -- On a map with a bucket, RemoveKeyBatch ends in exactly the state that single calls of Delete
  -- reach, made one after the other in the order of the list.
  pub remove_key_batch-each :
      (list : List K) (m : ConcurrentMap K V)
      → 0 < length m.buckets
      → remove_key_batch list m ≡ each delete_one list m
  unfolding remove_key_batch delete Bucket.remove_key_batch Bucket.remove
  remove_key_batch-each list m pos =
      let f : K → Map K V → Map K V = λ k b. Bucket.remove_without_lock k b in
      let (ls, run, e) = scatter-gather f (λ k. k) m pos list in
      rw run (
        ap (λ bs. some (record m { buckets = bs })) e
        ∙ sym (each-fold f (λ k. k) delete_one (λ k n h. rw (bucket_index_lem n k h)) list m pos))

  -- On a map with a bucket, InsertKeyBatch, UpdateKeyBatch and RemoveKeyBatch each end in exactly
  -- the state that single calls of Insert, Update and Delete reach, made one after the other in
  -- the order of the list, although they sort the list by bucket first.
  pub batches-each :
      (compare : V → V → Bool) (list : List (K × V)) (keys : List K) (m : ConcurrentMap K V)
      → 0 < length m.buckets
      → (insert_key_batch compare list m ≡ each (insert_one compare) list m)
        × (update_key_batch compare list m ≡ each (update_one compare) list m)
        × (remove_key_batch keys m ≡ each delete_one keys m)
  batches-each compare list keys m pos = (
    insert_key_batch-each compare list m pos,
    update_key_batch-each compare list m pos,
    remove_key_batch-each keys m pos,
  )

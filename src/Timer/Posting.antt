-- ===== src/Timer/Posting.antt =====
-- Where `PostDelayedEvent` of timer/timer.cpp puts a function in the table, and when it is due.
use cpp_done.Prelude.{
  ℕ, ◌+◌, ◌*◌, ◌≤◌, ◌<◌, ◌≡◌, refl, ap, sym, ◌∙◌, true, false, List, [], ◌∷◌, ◌++◌, arith, leb, ltb,
  if◌then◌else◌, append_assoc, Bool-cases, Option-cases, inl, inr,
}
use cpp_done.Std.Map
use cpp_done.Std.Map.{
  Map, Below, IsSorted, Below-trans, find-Below, insert-Below, insert-IsSorted, erase-IsSorted,
}
use cpp_done.Std.Order.{nat_less}
use cpp_done.Timer.{TimerTaskQueue, second, push_back_at, post_delayed_event}
use cpp_done.Timer.Delayed.{due_tasks}

module _ {ℓ} {T : Type ℓ} where
  -- where a function goes in a sorted table
  pub push_back_at_cons :
      (k t : ℕ) (f : T) (fs : List T) (m : Map ℕ (List T))
      → IsSorted ((t, fs) ∷ m)
      → push_back_at k f ((t, fs) ∷ m) ≡ (
          if ltb k t
          then (k, f ∷ []) ∷ (t, fs) ∷ m
          else if ltb t k
          then (t, fs) ∷ push_back_at k f m
          else (k, fs ++ f ∷ []) ∷ m)
  unfolding push_back_at Map.find Map.insert Map.erase
  push_back_at_cons k t f fs m s = ground (
    arith,
    Below-trans k t m,
    find-Below k k m,
    insert-Below k (fs ++ f ∷ []) m,
    insert-Below t (fs ++ f ∷ []) m,
  )

  pub push_back_at-IsSorted :
      (k : ℕ) (f : T) (m : Map ℕ (List T)) → IsSorted m → IsSorted (push_back_at k f m)
  unfolding push_back_at
  push_back_at-IsSorted k f m s = elim (Option-cases (Map.find k m)) [
    | inl e ↦ rw (e, push_back_at) (insert-IsSorted k (f ∷ []) m s)
    | inr (l, e) ↦
        rw (e, push_back_at)
          (insert-IsSorted k (l ++ f ∷ []) (Map.erase k m) (erase-IsSorted k m s))
  ]

  -- `xs` with one more element somewhere
  abbrev pub Inserted : T → List T → List T → Type ℓ
  Inserted f xs zs =
      (before : List T) × (after : List T) × (xs ≡ before ++ after) × (zs ≡ before ++ f ∷ after)

  pub push_back_at_nil : (k : ℕ) (f : T) → push_back_at k f [] ≡ (k, f ∷ []) ∷ []
  unfolding push_back_at Map.find Map.insert
  push_back_at_nil k f = refl

  -- the three places of the new function: in front, with the first time point, or behind it
  Inserted-front : (f : T) (xs : List T) → Inserted f xs (f ∷ xs)
  Inserted-front f xs = ([], xs, refl, refl)

  Inserted-middle : (f : T) (xs ys : List T) → Inserted f (xs ++ ys) ((xs ++ f ∷ []) ++ ys)
  Inserted-middle f xs ys = (xs, ys, refl, append_assoc xs (f ∷ []) ys)

  Inserted-append :
      (f : T) (ws xs zs : List T) → Inserted f xs zs → Inserted f (ws ++ xs) (ws ++ zs)
  Inserted-append f ws xs zs (before, after, e, d) = (
    ws ++ before,
    after,
    ap (◌++◌ ws) e ∙ sym (append_assoc ws before after),
    ap (◌++◌ ws) d ∙ sym (append_assoc ws before (f ∷ after)),
  )

  due-push_back_at :
      (now k : ℕ) (f : T) (m : Map ℕ (List T))
      → IsSorted m
      → k ≤ now
      → Inserted f (due_tasks now m) (due_tasks now (push_back_at k f m))
  unfolding due_tasks
  due-push_back_at now k f [] s h =
      let due : leb k now ≡ true = ground arith in
      rw (push_back_at_nil k f, due) (Inserted-front f [])
  due-push_back_at now k f ((t, fs) ∷ m) s h =
      let due : leb k now ≡ true = ground arith in
      rw (push_back_at_cons k t f fs m s) (elim (Bool-cases (ltb k t)) [
        | inl e ↦ rw (e, due) (Inserted-front f _)
        | inr e ↦ elim (Bool-cases (ltb t k)) [
          | inl e' ↦
              let first : leb t now ≡ true = ground arith in
              rw (e, e', first) (Inserted-append f fs _ _ (due-push_back_at now k f m s.1 h))
          | inr e' ↦
              let first : leb t now ≡ true = ground arith in
              rw (e, e', due, first) (Inserted-middle f fs (due_tasks now m))
        ]
      ])

  not_due-push_back_at :
      (now k : ℕ) (f : T) (m : Map ℕ (List T))
      → IsSorted m
      → now < k
      → due_tasks now (push_back_at k f m) ≡ due_tasks now m
  unfolding due_tasks
  not_due-push_back_at now k f [] s h =
      let late : leb k now ≡ false = ground arith in rw (push_back_at_nil k f, late)
  not_due-push_back_at now k f ((t, fs) ∷ m) s h =
      let late : leb k now ≡ false = ground arith in
      rw (push_back_at_cons k t f fs m s) (elim (Bool-cases (ltb k t)) [
        | inl e ↦ rw (e, late)
        | inr e ↦ elim (Bool-cases (ltb t k)) [
          | inl e' ↦ rw (e, e', not_due-push_back_at now k f m s.1 h)
          | inr e' ↦ let first : leb t now ≡ false = ground arith in rw (e, e', late, first)
        ]
      ])

  -- On a started queue with a sorted table, PostDelayedEvent leaves a sorted table in which the
  -- tasks due at a later check are the former ones with the new task inserted once if its delay
  -- has passed by then, and exactly the former ones if not.
  pub post_delayed_event-due :
      (q : TimerTaskQueue T) (delayed_second posted_at checked_at : ℕ) (f : T)
      → q.stoped ≡ false
      → IsSorted q.delay_eventtab
      → let m = (post_delayed_event q delayed_second f posted_at).delay_eventtab in
        IsSorted m
        × (posted_at + delayed_second * second ≤ checked_at
            → Inserted f (due_tasks checked_at q.delay_eventtab) (due_tasks checked_at m))
        × (checked_at < posted_at + delayed_second * second
            → due_tasks checked_at m ≡ due_tasks checked_at q.delay_eventtab)
  unfolding post_delayed_event
  post_delayed_event-due q d now c f e s =
      let timeout = now + d * second in
      rw e (
        push_back_at-IsSorted timeout f q.delay_eventtab s,
        due-push_back_at c timeout f q.delay_eventtab s,
        not_due-push_back_at c timeout f q.delay_eventtab s,
      )

-- ===== src/Timer/Timely/Entries.antt =====
-- What the entries of the table of timer/timer.cpp keep while they move on: the time at which each
-- function is due, and how often it is there.
use cpp_done.Prelude.{
  ℕ, ◌+◌, ◌≤◌, ◌≡◌, refl, List, [], ◌∷◌, arith, leb, ltb, All, All-append, Bool-cases, inl, inr,
}
use cpp_done.Std.Map.{Map, IsSorted}
use cpp_done.Std.Order.{nat_less}
use cpp_done.Timer.{push_back_at}
use cpp_done.Timer.Delayed.{due_tasks, later}
use cpp_done.Timer.Posting.{push_back_at_cons, push_back_at_nil}

module _ {A : Type 0} where
  -- the function may run, or go to the workers, at this time
  abbrev pub InTime : ℕ → ℕ → ℕ × A → Type 0
  InTime late time (due, f) = (due ≤ time) × (time ≤ due + late)

  abbrev pub IsDueAt : ℕ → ℕ × A → Type 0
  IsDueAt t (due, f) = due ≡ t

  -- a check at this time is not too late for the entry, whose functions are due at its key
  abbrev pub Entry : ℕ → ℕ → ℕ × List (ℕ × A) → Type 0
  Entry late check (t, fs) = (check ≤ t + late) × All (IsDueAt t) fs

  pub push_back_at-Entry :
      (late check k : ℕ) (f : A) (m : Map ℕ (List (ℕ × A)))
      → IsSorted m
      → check ≤ k + late
      → All (Entry late check) m
      → All (Entry late check) (push_back_at k (k, f) m)
  push_back_at-Entry late check k f [] s h a =
      rw (push_back_at_nil {T = ℕ × A} k (k, f)) (((h, (refl, tt)), tt))
  push_back_at-Entry late check k f ((t, fs) ∷ m) s h a =
      rw (push_back_at_cons {T = ℕ × A} k t (k, f) fs m s) (elim (Bool-cases (ltb k t)) [
        | inl e ↦ rw e ((h, (refl, tt)), a)
        | inr e ↦ elim (Bool-cases (ltb t k)) [
          | inl e' ↦ rw (e, e') (a.0, push_back_at-Entry late check k f m s.1 h a.1)
          | inr e' ↦
              let same : k ≡ t = ground arith in
              rw (e, e')
                ((h, All-append (IsDueAt k) fs ((k, f) ∷ []) (rw same a.0.1) (refl, tt)), a.1)
        ]
      ])

  due-InTime :
      (late now t : ℕ) (fs : List (ℕ × A))
      → t ≤ now
      → now ≤ t + late
      → All (IsDueAt t) fs
      → All (InTime late now) fs
  due-InTime late now t [] h g a = tt
  due-InTime late now t (f ∷ fs) h g a = (omega (arith, a.0), due-InTime late now t fs h g a.1)

  pub due_tasks-InTime :
      (late more check now : ℕ) (m : Map ℕ (List (ℕ × A)))
      → now ≤ check + more
      → All (Entry late check) m
      → All (InTime (late + more) now) (due_tasks now m)
  unfolding due_tasks
  due_tasks-InTime late more check now [] h a = tt
  due_tasks-InTime late more check now ((t, fs) ∷ m) h a = elim (Bool-cases (leb t now)) [
    | inl e ↦ rw e (
        All-append (InTime (late + more) now) fs (due_tasks now m)
          (due-InTime (late + more) now t fs (ground arith) (omega (arith, a.0.0)) a.0.1)
          (due_tasks-InTime late more check now m h a.1))
    | inr e ↦ rw e (due_tasks-InTime late more check now m h a.1)
  ]

  -- what a check at `now` leaves is in time for the next one
  pub later-Entry :
      (late check now after : ℕ) (m : Map ℕ (List (ℕ × A)))
      → All (Entry late check) m
      → after ≤ now + late
      → All (Entry late after) (later now m)
  unfolding later
  later-Entry late check now after [] a h = tt
  later-Entry late check now after ((t, fs) ∷ m) a h = elim (Bool-cases (leb t now)) [
    | inl e ↦ rw e (later-Entry late check now after m a.1 h)
    | inr e ↦ rw e ((ground arith, a.0.1), later-Entry late check now after m a.1 h)
  ]

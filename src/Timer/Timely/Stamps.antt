-- ===== src/Timer/Timely/Stamps.antt =====
-- The handlers in the queue of timer/timer.cpp, each with the time at which it came into it.
use cpp_done.Prelude.{ℕ, ◌+◌, ◌≤◌, ◌≡◌, true, false, List, [], ◌∷◌, ◌++◌, arith, All}
use cpp_done.Timer.{Handler, task, check_delayed}
use cpp_done.Timer.Chain.{checks}
use cpp_done.Timer.Delayed.{posted}
use cpp_done.Timer.Timely.{Due, mark, behind}
use cpp_done.Timer.Timely.Entries.{InTime}

module _ {A : Type 0} where
  abbrev pub Stamped : (ℕ → Handler (Due A) → Type 0) → List ℕ → List (Handler (Due A)) → Type 0
  Stamped P [] [] = Unit
  Stamped P [] (h ∷ hs) = ⊥
  Stamped P (x ∷ xs) [] = ⊥
  Stamped P (x ∷ xs) (h ∷ hs) = P x h × Stamped P xs hs

  -- how a handler may stand in the queue: a function is in time, a check is there before `check`
  abbrev pub Stands : ℕ → ℕ → ℕ → Handler (Due A) → Type 0
  Stands late check x (task f) = InTime late x f
  Stands late check x (check_delayed result) = x ≤ check

  abbrev pub Waiting : ℕ → ℕ → ℕ → ℕ → ℕ → Handler (Due A) → Type 0
  Waiting lag late check now x h = (x ≤ now) × (now ≤ x + lag) × Stands late check x h

  Stamped-new :
      (P : ℕ → Handler (Due A) → Type 0) (now : ℕ) (hs : List (Handler (Due A)))
      → All (P now) hs
      → Stamped P (mark now [] hs) hs
  Stamped-new P now [] a = tt
  Stamped-new P now (h ∷ hs) a = (a.0, Stamped-new P now hs a.1)

  pub Stamped-append :
      (P : ℕ → Handler (Due A) → Type 0) (now : ℕ) (xs : List ℕ) (hs new : List (Handler (Due A)))
      → Stamped P xs hs
      → All (P now) new
      → Stamped P (mark now xs (hs ++ new)) (hs ++ new)
  Stamped-append P now [] [] new s a = Stamped-new P now new a
  Stamped-append P now [] (h ∷ hs) new s a = absurd s
  Stamped-append P now (x ∷ xs) [] new s a = absurd s
  Stamped-append P now (x ∷ xs) (h ∷ hs) new s a = (s.0, Stamped-append P now xs hs new s.1 a)

  -- nothing new
  pub Stamped-same :
      (P : ℕ → Handler (Due A) → Type 0) (now : ℕ) (xs : List ℕ) (hs : List (Handler (Due A)))
      → Stamped P xs hs
      → Stamped P (mark now xs hs) hs
  Stamped-same P now [] [] s = tt
  Stamped-same P now [] (h ∷ hs) s = absurd s
  Stamped-same P now (x ∷ xs) [] s = absurd s
  Stamped-same P now (x ∷ xs) (h ∷ hs) s = (s.0, Stamped-same P now xs hs s.1)

  pub Stamped-empty :
      (P : ℕ → Handler (Due A) → Type 0) (xs : List ℕ) → Stamped P xs [] → Stamped P (behind xs) []
  Stamped-empty P [] s = tt
  Stamped-empty P (x ∷ xs) s = absurd s

  pub Stamped-behind :
      (P : ℕ → Handler (Due A) → Type 0) (xs : List ℕ) (h : Handler (Due A))
      (hs : List (Handler (Due A)))
      → Stamped P xs (h ∷ hs)
      → ((x : ℕ) × P x h) × Stamped P (behind xs) hs
  Stamped-behind P [] h hs s = absurd s
  Stamped-behind P (x ∷ xs) h hs s = ((x, s.0), s.1)

  Stands-later :
      (late check after x : ℕ) (h : Handler (Due A))
      → check ≤ after
      → Stands late check x h
      → Stands late after x h
  Stands-later late check after x (task f) h s = s
  Stands-later late check after x (check_delayed result) h s = omega (arith, s)

  -- time passes, or the next check is known to be later
  pub Waiting-later :
      (lag late check after now time : ℕ) (xs : List ℕ) (hs : List (Handler (Due A)))
      → check ≤ after
      → now ≤ time
      → All (λ x. time ≤ x + lag) xs
      → Stamped (Waiting lag late check now) xs hs
      → Stamped (Waiting lag late after time) xs hs
  Waiting-later lag late check after now time [] [] c t a s = tt
  Waiting-later lag late check after now time [] (h ∷ hs) c t a s = absurd s
  Waiting-later lag late check after now time (x ∷ xs) [] c t a s = absurd s
  Waiting-later lag late check after now time (x ∷ xs) (h ∷ hs) c t a s = (
    (omega (arith, s.0.0), a.0, Stands-later late check after x h c s.0.2),
    Waiting-later lag late check after now time xs hs c t a.1 s.1,
  )

  Waiting-since :
      (lag late check now : ℕ) (xs : List ℕ) (hs : List (Handler (Due A)))
      → Stamped (Waiting lag late check now) xs hs
      → All (λ x. now ≤ x + lag) xs
  Waiting-since lag late check now [] hs s = tt
  Waiting-since lag late check now (x ∷ xs) [] s = absurd s
  Waiting-since lag late check now (x ∷ xs) (h ∷ hs) s =
      (s.0.1, Waiting-since lag late check now xs hs s.1)

  pub Waiting-check :
      (lag late check after now : ℕ) (xs : List ℕ) (hs : List (Handler (Due A)))
      → check ≤ after
      → Stamped (Waiting lag late check now) xs hs
      → Stamped (Waiting lag late after now) xs hs
  Waiting-check lag late check after now xs hs c s =
      Waiting-later lag late check after now now xs hs c (omega arith)
        (Waiting-since lag late check now xs hs s) s

  pub posted-Waiting :
      (lag late check now : ℕ) (fs : List (Due A))
      → All (InTime late now) fs
      → All (Waiting lag late check now now) (posted false fs)
  posted-Waiting lag late check now [] a = tt
  posted-Waiting lag late check now (f ∷ fs) a =
      ((omega arith, omega arith, a.0), posted-Waiting lag late check now fs a.1)

  -- a check that is in the queue bounds the time
  pub checks-Waiting :
      (lag late check now : ℕ) (xs : List ℕ) (hs : List (Handler (Due A)))
      → checks false hs ≡ 1
      → Stamped (Waiting lag late check now) xs hs
      → now ≤ check + lag
  checks-Waiting lag late check now xs [] e s = absurd (omega arith)
  checks-Waiting lag late check now [] (h ∷ hs) e s = absurd s
  checks-Waiting lag late check now (x ∷ xs) (task f ∷ hs) e s =
      checks-Waiting lag late check now xs hs e s.1
  checks-Waiting lag late check now (x ∷ xs) (check_delayed true ∷ hs) e s =
      checks-Waiting lag late check now xs hs e s.1
  checks-Waiting lag late check now (x ∷ xs) (check_delayed false ∷ hs) e s = omega (arith, s.0)

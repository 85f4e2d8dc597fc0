-- ===== src/Timer/Timely/Counts.antt =====
-- How many functions that pass a test stand in the queue and in the table of timer/timer.cpp.
use cpp_done.Prelude.{
  ℕ, ◌+◌, ◌*◌, ◌≡◌, ◌≤◌, ◌<◌, refl, Bool, true, false, List, [], ◌∷◌, ◌++◌, arith, leb, ltb,
  if◌then◌else◌, All, Bool-cases, inl, inr,
}
use cpp_done.Std.Map.{Map, IsSorted}
use cpp_done.Std.Order.{nat_less}
use cpp_done.Timer.{Handler, task, check_delayed, second, push_back_at}
use cpp_done.Timer.Delayed.{due_tasks, later, posted}
use cpp_done.Timer.Posting.{push_back_at_cons, push_back_at_nil}
use cpp_done.Timer.Timely.Entries.{Entry, IsDueAt}
use cpp_done.Timer.Timely.Stamps.{Stamped, Waiting}
use cpp_done.Timer.Timely.Limits.{to_queue}

module _ {T : Type 0} (p : T → Bool) where
  abbrev pub one_if : T → ℕ
  one_if f = if p f then 1 else 0

  abbrev pub count : List T → ℕ
  count [] = 0
  count (f ∷ fs) = one_if f + count fs

  abbrev pub queued : List (Handler T) → ℕ
  queued [] = 0
  queued (task f ∷ hs) = one_if f + queued hs
  queued (check_delayed result ∷ hs) = queued hs

  abbrev pub tabled : Map ℕ (List T) → ℕ
  tabled [] = 0
  tabled ((t, fs) ∷ m) = count fs + tabled m

  count-append : (xs ys : List T) → count (xs ++ ys) ≡ count xs + count ys
  count-append [] ys = omega arith
  count-append (x ∷ xs) ys = omega (arith, count-append xs ys)

  pub queued-append : (xs ys : List (Handler T)) → queued (xs ++ ys) ≡ queued xs + queued ys
  queued-append [] ys = omega arith
  queued-append (task f ∷ xs) ys = omega (arith, queued-append xs ys)
  queued-append (check_delayed result ∷ xs) ys = queued-append xs ys

  pub queued-posted : (fs : List T) → queued (posted false fs) ≡ count fs
  queued-posted [] = refl
  queued-posted (f ∷ fs) = omega (arith, queued-posted fs)

  pub tabled-push_back_at :
      (k : ℕ) (f : T) (m : Map ℕ (List T))
      → IsSorted m
      → tabled (push_back_at k f m) ≡ one_if f + tabled m
  tabled-push_back_at k f [] s = rw (push_back_at_nil k f) (omega arith)
  tabled-push_back_at k f ((t, fs) ∷ m) s =
      rw (push_back_at_cons k t f fs m s) (elim (Bool-cases (ltb k t)) [
        | inl e ↦ rw e (omega arith)
        | inr e ↦ elim (Bool-cases (ltb t k)) [
          | inl e' ↦ rw (e, e') (omega (arith, tabled-push_back_at k f m s.1))
          | inr e' ↦ rw (e, e') (omega (arith, count-append fs (f ∷ [])))
        ]
      ])

  -- each function of the table is due or waits for a later check
  pub tabled-later :
      (now : ℕ) (m : Map ℕ (List T)) → count (due_tasks now m) + tabled (later now m) ≡ tabled m
  unfolding due_tasks later
  tabled-later now [] = omega arith
  tabled-later now ((t, fs) ∷ m) = elim (Bool-cases (leb t now)) [
    | inl e ↦ rw e (omega (arith, count-append fs (due_tasks now m), tabled-later now m))
    | inr e ↦ rw e (omega (arith, tabled-later now m))
  ]

module _ {A : Type 0} (p : ℕ × A → Bool) (lag now : ℕ) where
  -- the test passes only what is due more than a second and five times `lag` back
  abbrev pub IsOverdue : Type 0
  IsOverdue = (due : ℕ) (f : A) → p (due, f) ≡ true → due + (second + 5 * lag) < now

  not_counted :
      (due : ℕ) (f : A) → now ≤ due + (second + 5 * lag) → IsOverdue → one_if p (due, f) ≡ 0
  not_counted due f h o = elim (Bool-cases (p (due, f))) [
    | inl e ↦ absurd (omega (arith, o due f e))
    | inr e ↦ rw e
  ]

  pub queued-Waiting :
      (check : ℕ) (xs : List ℕ) (hs : List (Handler (ℕ × A)))
      → Stamped (Waiting lag (to_queue lag) check now) xs hs
      → IsOverdue
      → queued p hs ≡ 0
  queued-Waiting check [] [] s o = refl
  queued-Waiting check [] (h ∷ hs) s o = absurd s
  queued-Waiting check (x ∷ xs) [] s o = absurd s
  queued-Waiting check (x ∷ xs) (task (due, f) ∷ hs) s o =
      omega (arith, not_counted due f (omega (arith, s.0)) o, queued-Waiting check xs hs s.1 o)
  queued-Waiting check (x ∷ xs) (check_delayed result ∷ hs) s o = queued-Waiting check xs hs s.1 o

  count-IsDueAt :
      (t : ℕ) (fs : List (ℕ × A))
      → now ≤ t + (second + 5 * lag)
      → All (IsDueAt t) fs
      → IsOverdue
      → count p fs ≡ 0
  count-IsDueAt t [] h a o = refl
  count-IsDueAt t ((due, f) ∷ fs) h a o =
      omega (arith, not_counted due f (omega (arith, a.0)) o, count-IsDueAt t fs h a.1 o)

  pub tabled-Entry :
      (check : ℕ) (m : Map ℕ (List (ℕ × A)))
      → now ≤ check + lag
      → All (Entry (second + 3 * lag) check) m
      → IsOverdue
      → tabled p m ≡ 0
  tabled-Entry check [] h a o = refl
  tabled-Entry check ((t, fs) ∷ m) h a o =
      omega (arith, count-IsDueAt t fs (omega (arith, a.0.0)) a.0.1 o, tabled-Entry check m h a.1 o)

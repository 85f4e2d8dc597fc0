-- ===== src/WorkPool/Worker/Once.antt =====
-- A worker of thread_pool/thread_pool.cpp takes its works in order, and calls each at most once.
use cpp_done.Prelude.{
  ℕ, suc, ◌+◌, ◌≤◌, ◌≡◌, ◌≢◌, ◌⊎◌, refl, ap, ◌∙◌, Bool, List, [], ◌∷◌, ◌++◌, ◌==◌, if◌then◌else◌,
  arith, append_assoc,
}
use cpp_done.WorkPool.Worker.{
  Place, testing, unfulfilled, waiting, holding, cleared, calling, returned, Worker, start_work,
  wake_place, stop_work, push_work, Step, asks, pushes, deletes, stops, finds_nothing, waits, wakes,
  returns, takes, skips_null, skips, clears, does_nothing, calls, ends, Reach, here, next,
}
use cpp_done.WorkPool.{WorkStatusType, invalid}

abbrev pub times : ℕ → List ℕ → ℕ
times r [] = 0
times r (x ∷ xs) = if x == r then suc (times r xs) else times r xs

times-append : (r : ℕ) (xs ys : List ℕ) → times r (xs ++ ys) ≡ times r xs + times r ys
times-append r [] ys = omega arith
times-append r (x ∷ xs) ys = ground (arith, times-append r xs ys)

-- for one object: it was called at most once, and once it was called, it is in its callback or its
-- status is `kInvalid`
pub record IsOnce (r : ℕ) (w : Worker) : Type 0 where
  pub once : times r w.called ≤ 1
  pub behind : (times r w.called ≡ 0) ⊎ ((w.place ≡ calling r) ⊎ (w.status r ≡ invalid))
  pub fresh : w.place ≡ cleared r → times r w.called ≡ 0

wake_place-cleared : (q : Place) (r : ℕ) → wake_place q ≡ cleared r → q ≡ cleared r
wake_place-cleared testing r e = e
wake_place-cleared unfulfilled r e = e
wake_place-cleared waiting r e = absurd cc
wake_place-cleared (holding ptr) r e = e
wake_place-cleared (cleared work) r e = e
wake_place-cleared (calling work) r e = e
wake_place-cleared returned r e = e

Step-IsOnce :
    {callback : ℕ → Bool} {v w : Worker} (r : ℕ) → Step callback v w → IsOnce r v → IsOnce r w
unfolding push_work stop_work
Step-IsOnce r (asks ptr) o = ground arith
Step-IsOnce r (pushes before after ptr e l) o = ground arith
Step-IsOnce r (deletes work) o = ground arith
Step-IsOnce {v = v} r stops o = ground (arith, wake_place-cleared v.place r, ap wake_place)
Step-IsOnce r (finds_nothing e s n) o = ground arith
Step-IsOnce r (waits e) o = ground arith
Step-IsOnce r (wakes e) o = ground arith
Step-IsOnce r (returns e s) o = ground arith
Step-IsOnce r (takes ptr rest e s n) o = ground arith
Step-IsOnce r (skips_null e) o = ground arith
Step-IsOnce r (skips work e s) o = ground arith
Step-IsOnce r (clears work e s) o = ground arith
Step-IsOnce r (does_nothing work e c) o = ground arith
Step-IsOnce {v = v} r (calls work e c) o = ground (arith, times-append r v.called (work ∷ []))
Step-IsOnce r (ends work e) o = ground arith

Reach-IsOnce :
    {callback : ℕ → Bool} {v w : Worker} (r : ℕ) → Reach callback v w → IsOnce r v → IsOnce r w
Reach-IsOnce r here o = o
Reach-IsOnce r (next s t) o = Step-IsOnce r t (Reach-IsOnce r s o)

-- what is taken stands at the front of what was pushed
Step-fifo :
    {callback : ℕ → Bool} {v w : Worker}
    → Step callback v w
    → v.taken ++ v.works ≡ v.pushed
    → w.taken ++ w.works ≡ w.pushed
unfolding push_work stop_work
Step-fifo (asks ptr) o = ground arith
Step-fifo {v = v} (pushes before after ptr e l) o =
    ground (arith, append_assoc v.taken v.works (ptr ∷ []))
Step-fifo (deletes work) o = o
Step-fifo stops o = o
Step-fifo (finds_nothing e s n) o = o
Step-fifo (waits e) o = o
Step-fifo (wakes e) o = o
Step-fifo (returns e s) o = o
Step-fifo {v = v} (takes ptr rest e s n) o = ground (arith, append_assoc v.taken (ptr ∷ []) rest)
Step-fifo (skips_null e) o = o
Step-fifo (skips work e s) o = o
Step-fifo (clears work e s) o = o
Step-fifo (does_nothing work e c) o = o
Step-fifo (calls work e c) o = o
Step-fifo (ends work e) o = o

Reach-fifo :
    {callback : ℕ → Bool} {v w : Worker}
    → Reach callback v w
    → v.taken ++ v.works ≡ v.pushed
    → w.taken ++ w.works ≡ w.pushed
Reach-fifo here o = o
Reach-fifo (next s t) o = Step-fifo t (Reach-fifo s o)

-- After any steps of the thread of a started WorkThread and of those who push, delete and stop,
-- the works were taken in the order in which they were pushed, each object was called at most once
-- however often it was pushed, and an object that was called is in its callback or has the status
-- kInvalid.
pub start_work-Reach :
    (callback : ℕ → Bool) (status : ℕ → WorkStatusType) {w : Worker}
    → Reach callback (start_work status) w
    → (w.taken ++ w.works ≡ w.pushed)
      × ((r : ℕ) → times r w.called ≤ 1)
      × ((r : ℕ) → times r w.called ≡ 1 → (w.place ≡ calling r) ⊎ (w.status r ≡ invalid))
unfolding start_work
start_work-Reach callback status {w} s =
    let o = λ (r : ℕ). Reach-IsOnce r s (ground arith) in
    (Reach-fifo s refl, λ r. (o r).once, λ r e. ground (arith, o r))

-- an object that is invalid and not about to be called
abbrev pub IsDeleted : ℕ → Worker → Type 0
IsDeleted r w = (w.status r ≡ invalid) × (w.place ≢ cleared r)

Step-IsDeleted :
    {callback : ℕ → Bool} {v w : Worker} (r : ℕ)
    → Step callback v w
    → IsDeleted r v
    → IsDeleted r w × (times r w.called ≡ times r v.called)
unfolding push_work stop_work
Step-IsDeleted r (asks ptr) o = ground arith
Step-IsDeleted r (pushes before after ptr e l) o = ground arith
Step-IsDeleted r (deletes work) o = ground arith
Step-IsDeleted {v = v} r stops o = ground (arith, wake_place-cleared v.place r)
Step-IsDeleted r (finds_nothing e s n) o = ground arith
Step-IsDeleted r (waits e) o = ground arith
Step-IsDeleted r (wakes e) o = ground arith
Step-IsDeleted r (returns e s) o = ground arith
Step-IsDeleted r (takes ptr rest e s n) o = ground arith
Step-IsDeleted r (skips_null e) o = ground arith
Step-IsDeleted r (skips work e s) o = ground arith
Step-IsDeleted r (clears work e s) o = ground arith
Step-IsDeleted r (does_nothing work e c) o = ground arith
Step-IsDeleted {v = v} r (calls work e c) o = ground (arith, times-append r v.called (work ∷ []))
Step-IsDeleted r (ends work e) o = ground arith

-- Once an object is kInvalid while the thread does not stand between the test of its status and
-- its call, it stays so and is not called again, whatever steps follow.
pub Reach-IsDeleted :
    {callback : ℕ → Bool} {v w : Worker} (r : ℕ)
    → Reach callback v w
    → IsDeleted r v
    → IsDeleted r w × (times r w.called ≡ times r v.called)
Reach-IsDeleted r here o = (o, refl)
Reach-IsDeleted r (next s t) o =
    let (still, same) = Reach-IsDeleted r s o in
    let (deleted, last) = Step-IsDeleted r t still in (deleted, last ∙ same)

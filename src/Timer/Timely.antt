-- ===== src/Timer/Timely.antt =====
-- The clock of timer/timer.cpp: when the workers of a started queue run the functions of `PostEvent`
-- and `PostDelayedEvent`. From the reading of the clock before which a handler comes into the queue it
-- waits no longer than `lag` for a worker, and the timer is no later than that: time does not pass
-- beyond it. Nor do a post and a check take longer from one reading of the clock to the next, or to the
-- insertion into the table.
pub mod Started
pub mod Stamps
pub mod Entries
pub mod Limits
pub mod Bounds
pub mod Counts
pub mod Served
use cpp_done.Prelude.{
  ℕ, ◌+◌, ◌*◌, ◌≤◌, ◌<◌, ◌≡◌, refl, Bool, Option, none, some, List, [], ◌∷◌, arith, All, inl, inr,
}
use cpp_done.Std.Order.{nat_less}
use cpp_done.Timer.{
  TimerTaskQueue, Handler, task, check_delayed, second, new, post_event, start, post_delayed_event,
  expire, run_one,
}

-- A function with the time at which it is due.
abbrev pub Due : Type 0 → Type 0
Due A = ℕ × A

pub record Timed (A : Type 0) : Type 0 where
  pub queue : TimerTaskQueue (Due A)
  pub now : ℕ
  -- when the handlers of the queue came into it
  pub since : List ℕ
  -- what was posted, and what was run, with the time of each run
  pub given : List (Due A)
  pub ran : List (ℕ × Due A)

-- `since` after handlers are added behind: what has no time yet has come now
abbrev pub mark {ℓ} : {H : Type ℓ} → ℕ → List ℕ → List H → List ℕ
mark now xs [] = []
mark now [] (h ∷ hs) = now ∷ mark now [] hs
mark now (x ∷ xs) (h ∷ hs) = x ∷ mark now xs hs

abbrev pub behind {ℓ} : {X : Type ℓ} → List X → List X
behind [] = []
behind (x ∷ xs) = xs

module _ {A : Type 0} where
  abbrev pub with_queue : TimerTaskQueue (Due A) → Timed A → Timed A
  with_queue q s = record s { queue = q; since = mark s.now s.since q.handlers }

  unfoldable pub begin : ℕ → ℕ → Timed A
  begin thread_num now = record {
    queue = start new thread_num now;
    now = now;
    since = [];
    given = [];
    ran = [];
  }

  -- `PostEvent`: the function is due at once
  unfoldable pub post : A → Timed A → Timed A
  post f s = record (with_queue (post_event s.queue (s.now, f)) s) { given = (s.now, f) ∷ s.given }

  -- the clock was read at `read`, before the lock
  unfoldable pub post_delayed : ℕ → ℕ → A → Timed A → Timed A
  post_delayed read delayed_second f s =
      let func_task : Due A = (read + delayed_second * second, f) in
      record (with_queue (post_delayed_event s.queue delayed_second func_task read) s) {
        given = func_task ∷ s.given;
      }

  abbrev pub noted : ℕ → Option (Due A) → List (ℕ × Due A) → List (ℕ × Due A)
  noted now none ran = ran
  noted now (some f) ran = (now, f) ∷ ran

  -- a check reads the clock again at `later`, when it arms the timer
  unfoldable pub work : ℕ → Timed A → Timed A
  work later s =
      let (done, queue) = run_one s.queue s.now later in
      record (with_queue queue (record s { since = behind s.since })) {
        ran = noted s.now done s.ran;
      }

module _ {A : Type 0} (lag : ℕ) where
  pub data Step (s : Timed A) : Timed A → Type 0 where
    posts : (f : A) → Step s (post f s)
    delays :
        (read delayed_second : ℕ) (f : A)
        → read ≤ s.now
        → s.now ≤ read + lag
        → Step s (post_delayed read delayed_second f s)
    expires :
        {expiry : ℕ}
        → s.queue.pending ≡ some expiry
        → expiry ≤ s.now
        → Step s (with_queue (expire s.queue) s)
    works : (later : ℕ) → s.now ≤ later → later ≤ s.now + lag → Step s (work later s)
    passes :
        (time : ℕ)
        → s.now ≤ time
        → All (λ x. time ≤ x + lag) s.since
        → ((expiry : ℕ) → s.queue.pending ≡ some expiry → time ≤ expiry + lag)
        → Step s (record s { now = time })

  pub data Reach (s : Timed A) : Timed A → Type 0 where
    here : Reach s s
    next : {r t : Timed A} → Reach s r → Step r t → Reach s t

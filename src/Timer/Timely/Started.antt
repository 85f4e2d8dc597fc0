-- ===== src/Timer/Timely/Started.antt =====
-- What each operation of timer/timer.cpp makes of a started queue.
use cpp_done.Prelude.{ℕ, ◌+◌, ◌*◌, ◌≡◌, Bool, false, none, some, List, [], ◌∷◌, ◌++◌, arith}
use cpp_done.Std.Order.{nat_less}
use cpp_done.Timer.{
  TimerTaskQueue, Handler, task, check_delayed, second, post_event, push_back_at,
  post_delayed_event, check_delayed_event_callback, expire, run_one,
}
use cpp_done.Timer.Timely.{Due}

module _ {A : Type 0} where
  pub post_started :
      (q : TimerTaskQueue (Due A)) (f : Due A)
      → q.stoped ≡ false
      → post_event q f ≡ record q { handlers = q.handlers ++ task f ∷ [] }
  unfolding post_event
  post_started q f up = ground arith

  pub delay_started :
      (q : TimerTaskQueue (Due A)) (d : ℕ) (f : Due A) (now : ℕ)
      → q.stoped ≡ false
      → post_delayed_event q d f now
        ≡ record q { delay_eventtab = push_back_at (now + d * second) f q.delay_eventtab }
  unfolding post_delayed_event
  delay_started q d f now up = ground arith

  pub expire_pending :
      (q : TimerTaskQueue (Due A)) {expiry : ℕ}
      → q.pending ≡ some expiry
      → expire q ≡ record q { handlers = q.handlers ++ check_delayed false ∷ []; pending = none }
  unfolding expire
  expire_pending q e = ground arith

  pub run_nothing :
      (q : TimerTaskQueue (Due A)) (now later : ℕ)
      → q.handlers ≡ []
      → run_one q now later ≡ (none, q)
  unfolding run_one
  run_nothing q now later e = ground arith

  pub run_task :
      (q : TimerTaskQueue (Due A)) (now later : ℕ) {f : Due A} {hs : List (Handler (Due A))}
      → q.handlers ≡ task f ∷ hs
      → run_one q now later ≡ (some f, record q { handlers = hs })
  unfolding run_one
  run_task q now later e = ground arith

  pub run_check :
      (q : TimerTaskQueue (Due A)) (now later : ℕ) {b : Bool} {hs : List (Handler (Due A))}
      → q.handlers ≡ check_delayed b ∷ hs
      → run_one q now later
        ≡ (none, check_delayed_event_callback (record q { handlers = hs }) b now later)
  unfolding run_one
  run_check q now later e = rw (e, run_one)

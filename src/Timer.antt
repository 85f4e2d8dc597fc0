-- ===== src/Timer.antt =====
-- timer/timer.cpp and timer/timer.h. The queue of the `io_context` holds the handlers that wait for a
-- worker; a time point is a number of nanoseconds, and `steady_clock::now()` an argument.
pub mod Delayed
pub mod Posting
pub mod Chain
pub mod Timely
pub mod Workers
mod Tests
use cpp_done.Prelude.{
  ℕ, ◌+◌, ◌*◌, ◌^◌, Bool, true, false, Option, none, some, List, [], ◌∷◌, ◌++◌, leb, if◌then◌else◌,
  fold,
}
use cpp_done.Std.Map
use cpp_done.Std.Map.{Map}
use cpp_done.Std.Order.{nat_less}

-- A handler in the queue: a posted function, or `CheckDelayedEventCallback` with its error code.
pub data Handler {ℓ} (T : Type ℓ) : Type ℓ where
  task : T → Handler T
  check_delayed : Bool → Handler T

pub record TimerTaskQueue {ℓ} (T : Type ℓ) : Type ℓ where
  pub stoped : Bool
  pub io_stopped : Bool
  pub handlers : List (Handler T)
  pub delay_eventtab : Map ℕ (List T)
  -- the expiry time of `check_delayed_event_timer_`, while a wait is pending
  pub pending : Option ℕ
  pub worker_threads : ℕ

abbrev pub second : ℕ
second = 10 ^ 9

unfoldable pub new {ℓ} : {T : Type ℓ} → TimerTaskQueue T
new = record {
  stoped = true;
  io_stopped = false;
  handlers = [];
  delay_eventtab = [];
  pending = none;
  worker_threads = 0;
}

module _ {ℓ} {T : Type ℓ} where
  unfoldable pub post_event : TimerTaskQueue T → T → TimerTaskQueue T
  post_event q func_task =
      if q.stoped then q else record q { handlers = q.handlers ++ task func_task ∷ [] }

  -- a pending wait completes with `operation_aborted`
  unfoldable pub cancel : TimerTaskQueue T → TimerTaskQueue T
  cancel q = elim q.pending [
    | none ↦ q
    | some _ ↦ record q { handlers = q.handlers ++ check_delayed true ∷ []; pending = none }
  ]

  -- `expires_from_now`, which cancels a pending wait, and `async_wait`
  unfoldable pub async_wait : TimerTaskQueue T → ℕ → TimerTaskQueue T
  async_wait q now = record (cancel q) { pending = some (now + second) }

  unfoldable pub start : TimerTaskQueue T → ℕ → ℕ → TimerTaskQueue T
  start q thread_num now =
      if q.stoped
      then record (async_wait
          (record q { io_stopped = false; worker_threads = q.worker_threads + thread_num }) now) {
            stoped = false;
          }
      else q

  -- `Stop` up to `io_context_.stop()`, between which and this workers may run handlers, and from there;
  -- the workers are joined before the call returns
  unfoldable pub stop_timer : TimerTaskQueue T → TimerTaskQueue T
  stop_timer q = if q.stoped then q else cancel (record q { stoped = true })

  unfoldable pub stop_context : TimerTaskQueue T → TimerTaskQueue T
  stop_context q = record q { io_stopped = true; worker_threads = 0 }

  -- `delay_eventtab_[timeout].push_back(funcTask)`
  unfoldable pub push_back_at : ℕ → T → Map ℕ (List T) → Map ℕ (List T)
  push_back_at timeout func_task m = elim (Map.find timeout m) [
    | none ↦ Map.insert timeout (func_task ∷ []) m
    | some l ↦ Map.insert timeout (l ++ func_task ∷ []) (Map.erase timeout m)
  ]

  unfoldable pub post_delayed_event : TimerTaskQueue T → ℕ → T → ℕ → TimerTaskQueue T
  post_delayed_event q delayed_second func_task now = if q.stoped then q else record q {
    delay_eventtab = push_back_at (now + delayed_second * second) func_task q.delay_eventtab;
  }

  unfoldable pub clear_delayed_event : TimerTaskQueue T → TimerTaskQueue T
  clear_delayed_event q = record q { delay_eventtab = [] }

  -- the loop over the table: `it++` on what is due, `break` at the first that is not
  unfoldable pub post_due : ℕ → Map ℕ (List T) → TimerTaskQueue T → TimerTaskQueue T
  post_due curr_time [] q = record q { delay_eventtab = [] }
  post_due curr_time ((timeout, events) ∷ m) q =
      if leb timeout curr_time
      then post_due curr_time m (fold post_event q events)
      else record q { delay_eventtab = (timeout, events) ∷ m }

  -- `now` is the clock before the loop, `later` that of `expires_from_now`
  unfoldable pub check_delayed_event_callback : TimerTaskQueue T → Bool → ℕ → ℕ → TimerTaskQueue T
  check_delayed_event_callback q result now later =
      if result
      then record q { delay_eventtab = [] }
      else async_wait (post_due now q.delay_eventtab q) later

  -- the timer expires: the wait completes with no error
  unfoldable pub expire : TimerTaskQueue T → TimerTaskQueue T
  expire q = elim q.pending [
    | none ↦ q
    | some _ ↦ record q { handlers = q.handlers ++ check_delayed false ∷ []; pending = none }
  ]

  -- A worker takes the first handler, and runs it; the result is the task that was run.
  unfoldable pub run_one : TimerTaskQueue T → ℕ → ℕ → Option T × TimerTaskQueue T
  run_one q now later = elim q.handlers [
    | [] ↦ (none, q)
    | task f ∷ rest ↦ (some f, record q { handlers = rest })
    | check_delayed result ∷ rest ↦
        (none, check_delayed_event_callback (record q { handlers = rest }) result now later)
  ]

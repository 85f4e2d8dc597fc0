-- ===== src/Timer/Timely/Bounds.antt =====
-- At what times the queue of timer/timer.cpp runs its functions.
use cpp_done.Prelude.{ℕ, ◌+◌, ◌*◌, ◌≤◌, ◌≡◌, refl, Option, none, some, arith, All}
use cpp_done.Std.Order.{nat_less}
use cpp_done.Timer.{second, new, cancel, async_wait, start}
use cpp_done.Timer.Chain.{start-IsArmed}
use cpp_done.Timer.Timely.{
  Timed, begin, post, post_delayed, work, Step, posts, delays, expires, works, passes, Reach, here,
  next,
}
use cpp_done.Timer.Timely.Stamps.{Waiting-later}
use cpp_done.Timer.Timely.Limits.{
  Awaits, to_queue, QueueInTime, RanInTime, post-InTime, delay-InTime, expire-InTime,
  run_one-InTime,
}

kept_waiting :
    (lag check now time : ℕ) (pending : Option ℕ)
    → ((expiry : ℕ) → pending ≡ some expiry → time ≤ expiry + lag)
    → Awaits lag check now pending
    → Awaits lag check time pending
kept_waiting lag check now time none h w = tt
kept_waiting lag check now time (some expiry) h w = omega (arith, w, h expiry refl)

module _ {A : Type 0} (lag : ℕ) where
  pub record IsTimely (s : Timed A) : Type 0 where
    pub in_time : QueueInTime lag s.now s.since s.queue
    pub run_times : All (RanInTime lag) s.ran

  begin-IsTimely : (n now : ℕ) → IsTimely (begin n now)
  unfolding begin new start async_wait cancel
  begin-IsTimely n now = record {
    in_time = record {
      armed = start-IsArmed n now;
      check = now + (second + 2 * lag);
      soon = omega arith;
      wait = omega arith;
      queued = tt;
      table = tt;
    };
    run_times = tt;
  }

  Step-IsTimely : {s t : Timed A} → Step lag s t → IsTimely s → IsTimely t
  unfolding post post_delayed work
  Step-IsTimely {s} (posts f) i = record {
    in_time = post-InTime lag s.now s.since f s.queue i.in_time;
    run_times = i.run_times;
  }
  Step-IsTimely {s} (delays read d f g h) i = record {
    in_time = delay-InTime lag s.now read d s.since f s.queue h i.in_time;
    run_times = i.run_times;
  }
  Step-IsTimely {s} (expires e h) i = record {
    in_time = expire-InTime lag s.now s.since s.queue e i.in_time;
    run_times = i.run_times;
  }
  Step-IsTimely {s} (works again g l) i =
      let (q, r) =
        run_one-InTime lag s.queue.handlers s.now again s.since s.queue s.ran refl g l i.in_time
          i.run_times in
      record { in_time = q; run_times = r }
  Step-IsTimely {s} (passes time h a w) i =
      let v = i.in_time in
      record {
        in_time = record {
          armed = v.armed;
          check = v.check;
          soon = omega (arith, v.soon);
          wait = kept_waiting lag v.check s.now time s.queue.pending w v.wait;
          queued =
              Waiting-later lag (to_queue lag) v.check v.check s.now time s.since s.queue.handlers
                (omega arith) h a v.queued;
          table = v.table;
        };
        run_times = i.run_times;
      }

  pub Reach-IsTimely : (n now : ℕ) {s : Timed A} → Reach lag (begin n now) s → IsTimely s
  Reach-IsTimely n now here = begin-IsTimely n now
  Reach-IsTimely n now (next r s) = Step-IsTimely s (Reach-IsTimely n now r)

-- ===== src/Timer/Tests.antt =====
-- The program of timer/test.cpp, and the theorems at its queue.
use cpp_done.Timer.Workers
use cpp_done.Timer.Workers.{
  Workers, testing, running, registering, starting, renewing, move, see, spawns, locks, registers,
  enters, runs_for, IsEntered, Reach-IsEntered,
}
use cpp_done.Prelude.{
  ℕ, ◌+◌, ◌*◌, ◌≤◌, ◌<◌, ◌≡◌, refl, true, false, none, some, [], ◌∷◌, ◌++◌, Bool, ◌==◌,
}
use cpp_done.Std.Map
use cpp_done.Std.Map.{IsSorted}
use cpp_done.Std.Order.{nat_less}
use cpp_done.Timer.Chain.{IsArmed, here, next, expires, runs, Reach-IsArmed}
use cpp_done.Timer.Delayed.{due_tasks, later, posted, aborted, check_delayed_event_callback_lem}
use cpp_done.Timer.Posting.{Inserted, post_delayed_event-due}
use cpp_done.Timer.Timely
use cpp_done.Timer.Timely.{Timed, Due, begin, post_delayed, work, with_queue}
use cpp_done.Timer.{
  TimerTaskQueue, task, check_delayed, second, new, post_event, cancel, async_wait, start,
  stop_timer, stop_context, push_back_at, post_delayed_event, post_due, clear_delayed_event,
  check_delayed_event_callback, expire, run_one,
}

program : Unit {0}
unfolding Map.find Map.insert Map.erase new post_event cancel async_wait start stop_timer
    stop_context push_back_at post_delayed_event post_due clear_delayed_event
    check_delayed_event_callback expire run_one due_tasks later
program = tt

abbrev started : TimerTaskQueue ℕ
started = start new 1 0

abbrev delayed : TimerTaskQueue ℕ
delayed = post_delayed_event (post_delayed_event started 5 1 0) 2 7 0

-- at three seconds only the second event is due
checks_at_3 :
    (check_delayed_event_callback delayed false (3 * second) (3 * second)).handlers
    ≡ task 7 ∷ check_delayed true ∷ []
unfolding program
checks_at_3 = refl

cleared : (stop_context (stop_timer (clear_delayed_event delayed))).delay_eventtab ≡ []
unfolding program
cleared = refl

check_delayed_event_callback_lem_example :
    (check_delayed_event_callback started false 9 10 ≡ record started {
      handlers =
          (started.handlers ++ posted started.stoped (due_tasks 9 started.delay_eventtab))
          ++ aborted started.pending;
      delay_eventtab = later 9 started.delay_eventtab;
      pending = some (10 + second);
    })
    × IsSorted (later 9 started.delay_eventtab)
unfolding program
check_delayed_event_callback_lem_example = check_delayed_event_callback_lem started 9 10 tt

post_delayed_event-due_example :
    let m = (post_delayed_event started 5 1 0).delay_eventtab in
    IsSorted m
    × (0 + 5 * second ≤ 6 * second
        → Inserted 1 (due_tasks (6 * second) started.delay_eventtab) (due_tasks (6 * second) m))
    × (6 * second < 0 + 5 * second
        → due_tasks (6 * second) m ≡ due_tasks (6 * second) started.delay_eventtab)
unfolding program
post_delayed_event-due_example = post_delayed_event-due started 5 0 (6 * second) 1 refl tt

Reach-IsArmed_example : IsArmed (run_one (expire started) second second).1
Reach-IsArmed_example = Reach-IsArmed 1 0 (next (next here expires) (runs second second))

-- `Stop` leaves the aborted check in the queue, `Start` comes before a worker takes it, and it clears
-- what was posted in between.
restarted_clears :
    (run_one
      (post_delayed_event (start (stop_context (stop_timer started)) 1 5) 3 8 6)
      7
      7).1.delay_eventtab
    ≡ []
unfolding program
restarted_clears = refl

abbrev one_entered : Workers
one_entered = record (see 1 5 (move 1 testing (move 1 registering (move 1 starting Workers.new)))) {
  holder = none;
}

reached_entered : Workers.Reach one_entered
unfolding move see Workers.new
reached_entered =
    Workers.next (Workers.next (Workers.next Workers.first (spawns 1 refl)) (locks 1 refl refl))
      (registers 1 5 refl)

Reach-IsEntered_example : IsEntered one_entered
Reach-IsEntered_example = Reach-IsEntered reached_entered

-- The first thread may write to the table without the lock while the second one adds to it under the
-- lock.
race : (w : Workers) × Workers.Reach w × (w.place 1 ≡ renewing) × (w.place 2 ≡ registering)
unfolding move see Workers.new
race = (
  record (move 2 registering (move 2 starting (move 1 renewing (move 1 running one_entered)))) {
    holder = some 2;
  },
  Workers.next
      (Workers.next
        (Workers.next (Workers.next reached_entered (enters 1 refl refl)) (runs_for 1 refl))
        (spawns 2 refl))
      (locks 2 refl refl),
  refl,
  refl,
)

-- A function with a delay of one second: the first check is at two seconds, because of a lag of one.
abbrev posted_once : Timed ℕ
posted_once = post_delayed 0 1 7 (begin 1 0)

abbrev expired : Timed ℕ
expired = let s = record posted_once { now = 2 * second } in with_queue (expire s.queue) s

abbrev served : Timed ℕ
served = work (2 * second) (work (2 * second) expired)

served_runs : served.ran ≡ (2 * second, (second, 7)) ∷ []
unfolding program begin post_delayed work
served_runs = refl

-- two more checks, each two seconds after the one before, and another wait
abbrev checked_at : ℕ → Timed ℕ → Timed ℕ
checked_at time before =
    let s = record before { now = time } in work time (with_queue (expire s.queue) s)

abbrev checked_twice : Timed ℕ
checked_twice = record (checked_at (6 * second) (checked_at (4 * second) served)) {
  now = 8 * second;
}

abbrev is_first : Due ℕ → Bool
is_first (due, f) = due == second

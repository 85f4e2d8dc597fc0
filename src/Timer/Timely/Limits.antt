-- ===== src/Timer/Timely/Limits.antt =====
-- How late the queue of timer/timer.cpp runs its functions.
use cpp_done.Prelude.{
  ℕ, ◌+◌, ◌*◌, ◌≤◌, ◌≡◌, ap, sym, true, false, Option, none, some, List, [], ◌∷◌, arith, All,
  append-nil,
}
use mathlib.Core.Path.{subst}
use cpp_done.Std.Map.{IsSorted}
use cpp_done.Std.Order.{nat_less}
use cpp_done.Timer.{
  TimerTaskQueue, Handler, task, check_delayed, second, post_event, post_delayed_event,
  check_delayed_event_callback, expire, run_one,
}
use cpp_done.Timer.Chain
use cpp_done.Timer.Chain.{IsArmed, start-IsArmed, Step-IsArmed, checks, waits-none}
use cpp_done.Timer.Delayed.{check_delayed_event_callback_lem}
use cpp_done.Timer.Timely.{Due, noted, mark, behind}
use cpp_done.Timer.Timely.Started.{
  post_started, delay_started, expire_pending, run_nothing, run_task, run_check,
}
use cpp_done.Timer.Timely.Entries.{InTime, Entry, push_back_at-Entry, due_tasks-InTime, later-Entry}
use cpp_done.Timer.Timely.Stamps.{
  Stamped, Waiting, Stamped-append, Stamped-same, Stamped-empty, Stamped-behind, Waiting-check,
  posted-Waiting,
}

-- the timer is no later than `lag`, and the next check no later than `check`
abbrev pub Awaits : ℕ → ℕ → ℕ → Option ℕ → Type 0
Awaits lag check now none = Unit
Awaits lag check now (some expiry) = (now ≤ expiry + lag) × (expiry + lag ≤ check)

-- what a function can lose until it is in the queue: to its next check, and until that check runs
abbrev pub to_queue : ℕ → ℕ
to_queue lag = (second + 3 * lag) + lag

module _ {A : Type 0} (lag : ℕ) where
  pub record QueueInTime (now : ℕ) (since : List ℕ) (q : TimerTaskQueue (Due A)) : Type 0 where
    pub armed : IsArmed q
    -- the time at which the next check is in the queue, at the latest
    pub check : ℕ
    pub soon : check ≤ now + (second + 2 * lag)
    pub wait : Awaits lag check now q.pending
    pub queued : Stamped (Waiting lag (to_queue lag) check now) since q.handlers
    pub table : All (Entry (second + 3 * lag) check) q.delay_eventtab

  pub post-InTime :
      (now : ℕ) (since : List ℕ) (f : A) (q : TimerTaskQueue (Due A))
      → QueueInTime now since q
      → let r = post_event q (now, f) in QueueInTime now (mark now since r.handlers) r
  post-InTime now since f q v =
      let run = post_started q (now, f) v.armed.started in
      record {
        armed = Step-IsArmed (Chain.posts (now, f)) v.armed;
        check = v.check;
        soon = v.soon;
        wait = rw run v.wait;
        queued =
            rw run (
              Stamped-append _ now since q.handlers (task (now, f) ∷ []) v.queued
                (omega arith, tt));
        table = rw run v.table;
      }

  pub delay-InTime :
      (now read d : ℕ) (since : List ℕ) (f : A) (q : TimerTaskQueue (Due A))
      → now ≤ read + lag
      → QueueInTime now since q
      → let r = post_delayed_event q d (read + d * second, f) read in
        QueueInTime now (mark now since r.handlers) r
  delay-InTime now read d since f q h v =
      let timeout : ℕ = read + d * second in
      let run = delay_started q d (timeout, f) read v.armed.started in
      record {
        armed = Step-IsArmed (Chain.delays d (timeout, f) read) v.armed;
        check = v.check;
        soon = v.soon;
        wait = rw run v.wait;
        queued = rw run (Stamped-same _ now since q.handlers v.queued);
        table = rw run (
            push_back_at-Entry (second + 3 * lag) v.check timeout f q.delay_eventtab v.armed.sorted
              (omega (arith, v.soon)) v.table);
      }

  pub expire-InTime :
      (now : ℕ) (since : List ℕ) (q : TimerTaskQueue (Due A)) {expiry : ℕ}
      → q.pending ≡ some expiry
      → QueueInTime now since q
      → QueueInTime now (mark now since (expire q).handlers) (expire q)
  expire-InTime now since q {expiry} e v =
      let run = expire_pending q e in
      let w : Awaits lag v.check now (some expiry) = subst (Awaits lag v.check now) e v.wait in
      record {
        armed = Step-IsArmed Chain.expires v.armed;
        check = v.check;
        soon = v.soon;
        wait = rw run tt;
        queued = rw run (
            Stamped-append _ now since q.handlers (check_delayed false ∷ []) v.queued
              ((omega arith, omega arith, omega (arith, w)), tt));
        table = rw run v.table;
      }

  check-InTime :
      (now again check : ℕ) (since : List ℕ) (q : TimerTaskQueue (Due A))
      → q.stoped ≡ false
      → IsSorted q.delay_eventtab
      → q.pending ≡ none
      → now ≤ again
      → again ≤ now + lag
      → check ≤ now + (second + 2 * lag)
      → now ≤ check + lag
      → Stamped (Waiting lag (to_queue lag) check now) since q.handlers
      → All (Entry (second + 3 * lag) check) q.delay_eventtab
      → let r = check_delayed_event_callback q false now again in
        IsArmed r → QueueInTime now (mark now since r.handlers) r
  check-InTime now again check since q up s idle first soon c h hs m a =
      let (run, sorted) = check_delayed_event_callback_lem q now again s in
      let after : ℕ = now + (second + 2 * lag) in
      record {
        armed = a;
        check = after;
        soon = omega arith;
        wait = rw run (omega arith);
        queued =
            rw (run, idle, append-nil, up)
              (Stamped-append _ now since q.handlers _
                (Waiting-check lag (to_queue lag) check after now since q.handlers c hs)
                (posted-Waiting lag (to_queue lag) after now _
                  (due_tasks-InTime (second + 3 * lag) lag check now q.delay_eventtab h m)));
        table =
            rw run
              (later-Entry (second + 3 * lag) check now after q.delay_eventtab m (omega arith));
      }

  abbrev pub RanInTime : ℕ × Due A → Type 0
  RanInTime (time, f) = InTime (second + 5 * lag) time f

  -- a worker takes the first handler
  abbrev pub Worked :
      ℕ → List ℕ → List (ℕ × Due A) → Option (Due A) × TimerTaskQueue (Due A) → Type 0
  Worked now since ran (done, r) =
      QueueInTime now (mark now (behind since) r.handlers) r × All RanInTime (noted now done ran)

  pub run_one-InTime :
      (hs : List (Handler (Due A))) (now again : ℕ) (since : List ℕ) (q : TimerTaskQueue (Due A))
      (ran : List (ℕ × Due A))
      → q.handlers ≡ hs
      → now ≤ again
      → again ≤ now + lag
      → QueueInTime now since q
      → All RanInTime ran
      → Worked now since ran (run_one q now again)
  run_one-InTime [] now again since q ran e g l v r =
      let rest = Stamped-empty _ since (subst (Stamped _ since) e v.queued) in
      rw (run_nothing q now again e) (
        record {
          armed = v.armed;
          check = v.check;
          soon = v.soon;
          wait = v.wait;
          queued =
              Stamped-same _ now (behind since) q.handlers
                (subst (Stamped _ (behind since)) (sym e) rest);
          table = v.table;
        },
        r,
      )
  run_one-InTime (task (due, f) ∷ hs) now again since q ran e g l v r =
      let run = run_task q now again e in
      let ((x, first), rest) =
        Stamped-behind _ since (task (due, f)) hs (subst (Stamped _ since) e v.queued) in
      (
        record {
          armed = Step-IsArmed (Chain.runs now again) v.armed;
          check = v.check;
          soon = v.soon;
          wait = rw run v.wait;
          queued = rw run (Stamped-same _ now (behind since) hs rest);
          table = rw run v.table;
        },
        rw run (omega (arith, first), r),
      )
  run_one-InTime (check_delayed true ∷ hs) now again since q ran e g l v r =
      absurd (omega (arith, v.armed.none_aborted, ap (checks true) e))
  run_one-InTime (check_delayed false ∷ hs) now again since q ran e g l v r =
      let idle = waits-none q.pending (omega (arith, v.armed.one, ap (checks false) e)) in
      let run = run_check q now again e in
      let ((x, first), rest) =
        Stamped-behind _ since (check_delayed false) hs (subst (Stamped _ since) e v.queued) in
      subst (Worked now since ran) (sym run) (
        check-InTime now again v.check (behind since) (record q { handlers = hs }) v.armed.started
            v.armed.sorted idle g l v.soon (omega (arith, first)) rest v.table
            (subst IsArmed (ap (λ (p : Option (Due A) × TimerTaskQueue (Due A)). p.1) run)
              (Step-IsArmed (Chain.runs now again) v.armed)),
        r,
      )

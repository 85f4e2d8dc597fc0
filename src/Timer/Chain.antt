-- ===== src/Timer/Chain.antt =====
-- The chain of waits of timer/timer.cpp: `CheckDelayedEventCallback` arms the timer again, so that
-- one check is always on its way.
use cpp_done.Prelude.{
  ℕ, suc, ◌+◌, ◌*◌, ◌≡◌, refl, ap, sym, ◌∙◌, Bool, true, false, Option, none, some, List, [], ◌∷◌,
  ◌++◌, append-nil, arith,
}
use cpp_done.Std.Map.{IsSorted}
use cpp_done.Std.Order.{nat_less}
use cpp_done.Timer.Delayed.{posted, due_tasks, check_delayed_event_callback_lem}
use cpp_done.Timer.Posting.{push_back_at-IsSorted}
use cpp_done.Timer.{
  TimerTaskQueue, Handler, task, check_delayed, second, new, post_event, cancel, async_wait, start,
  post_delayed_event, clear_delayed_event, check_delayed_event_callback, expire, run_one,
}

-- Is a wait pending?
abbrev pub waits : Option ℕ → ℕ
waits none = 0
waits (some t) = 1

pub waits-none : (p : Option ℕ) → waits p ≡ 0 → p ≡ none
waits-none none h = refl
waits-none (some t) h = absurd (omega arith)

module _ {ℓ} {T : Type ℓ} where
  -- how many checks wait in the queue, with or without an error
  abbrev pub checks : Bool → List (Handler T) → ℕ
  checks b [] = 0
  checks b (task f ∷ hs) = checks b hs
  checks true (check_delayed true ∷ hs) = suc (checks true hs)
  checks true (check_delayed false ∷ hs) = checks true hs
  checks false (check_delayed true ∷ hs) = checks false hs
  checks false (check_delayed false ∷ hs) = suc (checks false hs)

  checks-append :
      (b : Bool) (xs ys : List (Handler T)) → checks b (xs ++ ys) ≡ checks b xs + checks b ys
  checks-append b [] ys = omega arith
  checks-append b (task f ∷ xs) ys = checks-append b xs ys
  checks-append true (check_delayed true ∷ xs) ys = omega (arith, checks-append true xs ys)
  checks-append true (check_delayed false ∷ xs) ys = checks-append true xs ys
  checks-append false (check_delayed true ∷ xs) ys = checks-append false xs ys
  checks-append false (check_delayed false ∷ xs) ys = omega (arith, checks-append false xs ys)

  checks-posted : (b c : Bool) (fs : List T) → checks b (posted c fs) ≡ 0
  checks-posted b true fs = refl
  checks-posted b false [] = refl
  checks-posted b false (f ∷ fs) = checks-posted b false fs

  -- what runs while the queue is started: callers, the clock and the workers
  pub data Step (q : TimerTaskQueue T) : TimerTaskQueue T → Type ℓ where
    posts : (f : T) → Step q (post_event q f)
    delays : (d : ℕ) (f : T) (now : ℕ) → Step q (post_delayed_event q d f now)
    clears : Step q (clear_delayed_event q)
    expires : Step q (expire q)
    runs : (now later : ℕ) → Step q (run_one q now later).1

  pub data Reach (q : TimerTaskQueue T) : TimerTaskQueue T → Type ℓ where
    here : Reach q q
    next : {r s : TimerTaskQueue T} → Reach q r → Step r s → Reach q s

  -- exactly one check is on its way: the timer waits, or its handler is in the queue
  pub record IsArmed (q : TimerTaskQueue T) : Type 0 where
    pub started : q.stoped ≡ false
    pub sorted : IsSorted q.delay_eventtab
    pub one : waits q.pending + checks false q.handlers ≡ 1
    pub none_aborted : checks true q.handlers ≡ 0

  pub start-IsArmed : (n now : ℕ) → IsArmed (start new n now)
  unfolding start new async_wait cancel
  start-IsArmed n now = ground arith

  -- a check without error arms the timer that no wait is pending on
  check-IsArmed :
      (q : TimerTaskQueue T) (now later : ℕ)
      → q.stoped ≡ false
      → IsSorted q.delay_eventtab
      → q.pending ≡ none
      → checks false q.handlers ≡ 0
      → checks true q.handlers ≡ 0
      → IsArmed (check_delayed_event_callback q false now later)
  check-IsArmed q now later up s idle no_check no_abort =
      let (run, sorted) = check_delayed_event_callback_lem q now later s in
      let fs = due_tasks now q.delay_eventtab in
      rw run (record {
        started = up;
        sorted = sorted;
        one =
            rw (idle, append-nil)
              (omega (
                arith,
                checks-append false q.handlers (posted q.stoped fs),
                checks-posted false q.stoped fs,
              ));
        none_aborted =
            rw (idle, append-nil)
              (omega (
                arith,
                checks-append true q.handlers (posted q.stoped fs),
                checks-posted true q.stoped fs,
              ));
      })

  run_one-IsArmed :
      (hs : List (Handler T)) (q : TimerTaskQueue T) (now later : ℕ)
      → q.handlers ≡ hs
      → IsArmed q
      → IsArmed (run_one q now later).1
  unfolding run_one
  run_one-IsArmed [] q now later e a = ground arith
  run_one-IsArmed (task f ∷ hs) q now later e a = ground arith
  run_one-IsArmed (check_delayed true ∷ hs) q now later e a =
      absurd (omega (arith, a.none_aborted, ap (checks true) e))
  run_one-IsArmed (check_delayed false ∷ hs) q now later e a =
      let count = ap (checks false) e in
      rw (e, run_one)
        (check-IsArmed (record q { handlers = hs }) now later a.started a.sorted
          (waits-none q.pending (omega arith)) (omega arith)
          (sym (ap (checks true) e) ∙ a.none_aborted))

  pub Step-IsArmed : {q r : TimerTaskQueue T} → Step q r → IsArmed q → IsArmed r
  unfolding post_event post_delayed_event clear_delayed_event expire
  Step-IsArmed {q} (posts f) a = grind (
    arith,
    checks-append false q.handlers (task f ∷ []),
    checks-append true q.handlers (task f ∷ []),
  )
  Step-IsArmed {q} (delays d f now) a =
      ground (arith, push_back_at-IsSorted (now + d * second) f q.delay_eventtab a.sorted)
  Step-IsArmed clears a = ground arith
  Step-IsArmed {q} expires a = ground (
    arith,
    checks-append false q.handlers (check_delayed false ∷ []),
    checks-append true q.handlers (check_delayed false ∷ []),
  )
  Step-IsArmed {q} (runs now later) a = run_one-IsArmed q.handlers q now later refl a

  -- From the first Start of a new queue, after any posts, delayed posts, clears, expiries of the
  -- timer and handlers run, the queue is started, the table of delayed events is sorted, no
  -- aborted check waits in the queue, and exactly one check is on its way: the timer waits or its
  -- handler is queued.
  pub Reach-IsArmed : (n now : ℕ) {q : TimerTaskQueue T} → Reach (start new n now) q → IsArmed q
  Reach-IsArmed n now here = start-IsArmed n now
  Reach-IsArmed n now (next r s) = Step-IsArmed s (Reach-IsArmed n now r)

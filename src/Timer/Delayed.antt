-- ===== src/Timer/Delayed.antt =====
-- Delayed events of timer/timer.cpp: the table of `PostDelayedEvent` and the loop of
-- `CheckDelayedEventCallback` that leaves it at the first entry that is not due.
use cpp_done.Prelude.{
  ℕ, ◌+◌, ◌<◌, ◌≡◌, refl, ap, sym, ◌∙◌, Bool, true, false, Option, none, some, List, [], ◌∷◌, ◌++◌,
  map, arith, leb, if◌then◌else◌, fold, append_assoc, append-nil, Bool-cases, inl, inr,
}
use cpp_done.Std.Map.{Map, Below, IsSorted}
use cpp_done.Std.Order.{nat_less}
use cpp_done.Timer.{
  TimerTaskQueue, Handler, task, check_delayed, second, post_event, cancel, async_wait, post_due,
  check_delayed_event_callback,
}

module _ {ℓ} {T : Type ℓ} where
  -- what is due by the clock, in the order of the time points, and what is not
  unfoldable pub due_tasks : ℕ → Map ℕ (List T) → List T
  due_tasks now [] = []
  due_tasks now ((t, fs) ∷ m) = if leb t now then fs ++ due_tasks now m else due_tasks now m

  unfoldable pub later : ℕ → Map ℕ (List T) → Map ℕ (List T)
  later now [] = []
  later now ((t, fs) ∷ m) = if leb t now then later now m else (t, fs) ∷ later now m

  above-later :
      (now t : ℕ) (m : Map ℕ (List T))
      → now < t
      → Below t m
      → (due_tasks now m ≡ []) × (later now m ≡ m)
  unfolding due_tasks later
  above-later now t [] h b = (refl, refl)
  above-later now t ((u, fs) ∷ m) h b = ground (arith, above-later now t m h)

  later-IsSorted : (now : ℕ) (m : Map ℕ (List T)) → IsSorted m → IsSorted (later now m)
  unfolding later
  later-IsSorted now [] s = tt
  later-IsSorted now ((t, fs) ∷ m) s = ground (arith, later-IsSorted now m, above-later now t m)

  -- the handlers that posting a list of functions adds
  abbrev pub posted : Bool → List T → List (Handler T)
  posted true fs = []
  posted false fs = map task fs

  posted-append : (b : Bool) (xs ys : List T) → posted b (xs ++ ys) ≡ posted b xs ++ posted b ys
  posted-append true xs ys = refl
  posted-append false [] ys = refl
  posted-append false (x ∷ xs) ys = ap (◌∷◌ (task x)) (posted-append false xs ys)

  abbrev with_handlers : TimerTaskQueue T → List (Handler T) → TimerTaskQueue T
  with_handlers q hs = record q { handlers = hs }

  post_event_lem :
      (q : TimerTaskQueue T) (f : T)
      → post_event q f ≡ with_handlers q (q.handlers ++ posted q.stoped (f ∷ []))
  unfolding post_event
  post_event_lem q f = ground (arith, append-nil q.handlers)

  post_all :
      (q : TimerTaskQueue T) (fs : List T)
      → fold post_event q fs ≡ with_handlers q (q.handlers ++ posted q.stoped fs)
  post_all q [] = ground (arith, append-nil q.handlers)
  post_all q (f ∷ fs) = rw (post_event_lem q f) (
      post_all (with_handlers q (q.handlers ++ posted q.stoped (f ∷ []))) fs
      ∙ ap (with_handlers q) (
          append_assoc q.handlers (posted q.stoped (f ∷ [])) (posted q.stoped fs)
          ∙ ap (◌++◌ q.handlers) (sym (posted-append q.stoped (f ∷ []) fs))))

  -- the loop, as two filters of the whole table
  abbrev settled : ℕ → Map ℕ (List T) → TimerTaskQueue T → TimerTaskQueue T
  settled now m q = record q {
    handlers = q.handlers ++ posted q.stoped (due_tasks now m);
    delay_eventtab = later now m;
  }

  post_due_lem :
      (now : ℕ) (m : Map ℕ (List T)) (q : TimerTaskQueue T)
      → IsSorted m
      → post_due now m q ≡ settled now m q
  unfolding post_due due_tasks later
  post_due_lem now [] q s = ground (arith, append-nil q.handlers)
  post_due_lem now ((t, fs) ∷ m) q s = elim (Bool-cases (leb t now)) [
    | inl e ↦
        rw (e, post_all q fs)
          (post_due_lem now m (with_handlers q (q.handlers ++ posted q.stoped fs)) s.1
            ∙ ap (λ hs. record q { handlers = hs; delay_eventtab = later now m })
                (append_assoc q.handlers (posted q.stoped fs) (posted q.stoped (due_tasks now m))
                  ∙ ap (◌++◌ q.handlers) (sym (posted-append q.stoped fs (due_tasks now m)))))
    | inr e ↦
        let (no_task, rest) = above-later now t m (ground arith) s.0 in
        rw (e, no_task, rest) (ground (arith, append-nil q.handlers))
  ]

  -- what a pending wait leaves in the queue when a new one replaces it
  abbrev pub aborted : Option ℕ → List (Handler T)
  aborted none = []
  aborted (some t) = check_delayed true ∷ []

  async_wait_lem :
      (q : TimerTaskQueue T) (now : ℕ)
      → async_wait q now
        ≡ record q { handlers = q.handlers ++ aborted q.pending; pending = some (now + second) }
  unfolding async_wait cancel
  async_wait_lem q now = ground (arith, append-nil q.handlers)

  -- On a sorted table, a check without error appends the due tasks to the queue of handlers in the
  -- order of their time points (none if the queue is stopped), then the aborted handler of a wait
  -- that was pending, keeps exactly the entries that are not due in a sorted table, and arms the
  -- timer for one second after the second reading of the clock.
  pub check_delayed_event_callback_lem :
      (q : TimerTaskQueue T) (now again : ℕ)
      → IsSorted q.delay_eventtab
      → (check_delayed_event_callback q false now again ≡ record q {
        handlers =
            (q.handlers ++ posted q.stoped (due_tasks now q.delay_eventtab)) ++ aborted q.pending;
        delay_eventtab = later now q.delay_eventtab;
        pending = some (again + second);
      })
        × IsSorted (later now q.delay_eventtab)
  unfolding check_delayed_event_callback
  check_delayed_event_callback_lem q now again s = (
    rw (post_due_lem now q.delay_eventtab q s)
        (async_wait_lem (settled now q.delay_eventtab q) again),
    later-IsSorted now q.delay_eventtab s,
  )

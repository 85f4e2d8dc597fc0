-- ===== src/Netlink/Events/Shutdown.antt =====
-- How the dispatching thread of netlink/netlink_proc_mon.cpp ends: `Stop` sets `StopThreads_`, joins the
-- producer, and notifies under the lock, so that no `wait` misses it.
use cpp_done.Netlink.Events.{
  Dispatcher, locking, waiting, notified, dispatching, finished, notify_all, Pump, Step, receive,
  request_stop, notify_stop, leave, swap, sleep, resume, wake, deliver, again, Reach, here, next,
}
use cpp_done.Netlink.Events.Order.{start_pump}
use cpp_done.Std.Ends.{Ends, falling-Ends}
use cpp_done.Prelude.{
  ℕ, ◌+◌, ◌<◌, ◌≡◌, ◌≢◌, refl, ap, ◌⊎◌, inl, inr, Bool, true, false, List, [], ◌∷◌, arith, length,
  if◌then◌else◌, Bool-cases,
}

-- the steps that the dispatching thread has left
measure : {E : Type 0} → Dispatcher E → List E → ℕ
measure locking queue = 1
measure waiting queue = length queue + 4
measure notified queue = length queue + 3
measure (dispatching evs) queue = length evs + 2
measure finished queue = 0

module _ {E : Type 0} where
  -- a step of the dispatching thread that is no end of a wait without a notification, or the
  -- notification of `Stop`
  abbrev pub is_stopping : {p q : Pump E} → Step p q → Bool
  is_stopping (receive ev) = false
  is_stopping request_stop = false
  is_stopping (notify_stop s n) = true
  is_stopping (leave e s) = true
  is_stopping (swap e s n) = true
  is_stopping (sleep e s n) = true
  is_stopping (resume e) = true
  is_stopping (wake e) = false
  is_stopping (deliver e) = true
  is_stopping (again e) = true

  abbrev pub Stopping : Pump E → Pump E → Type 0
  Stopping p q = (s : Step p q) × (is_stopping s ≡ true)

  abbrev pub IsFinished : Pump E → Type 0
  IsFinished p = p.dispatcher ≡ finished

  -- `Stop` notifies after it set `StopThreads_`, and then no wait goes on
  record IsHeard (p : Pump E) : Type 0 where
    asked : p.stop_notified ≡ true → p.stop_threads ≡ true
    awake : p.stop_notified ≡ true → p.dispatcher ≢ waiting

  pub notify_all-awake : (d : Dispatcher E) → notify_all d ≢ waiting
  unfolding notify_all
  notify_all-awake locking e = absurd cc
  notify_all-awake waiting e = absurd cc
  notify_all-awake notified e = absurd cc
  notify_all-awake (dispatching evs) e = absurd cc
  notify_all-awake finished e = absurd cc

  Step-IsHeard : {p q : Pump E} → Step p q → IsHeard p → IsHeard q
  Step-IsHeard {p} (receive ev) v = record {
    asked = v.asked;
    awake = λ h. notify_all-awake p.dispatcher;
  }
  Step-IsHeard request_stop v = record { asked = λ h. refl; awake = v.awake }
  Step-IsHeard {p} (notify_stop s n) v = record {
    asked = λ h. s;
    awake = λ h. notify_all-awake p.dispatcher;
  }
  Step-IsHeard (leave e s) v = record { asked = v.asked; awake = λ h g. absurd cc }
  Step-IsHeard (swap e s n) v = record { asked = v.asked; awake = λ h g. absurd cc }
  Step-IsHeard (sleep e s n) v = record {
    asked = v.asked;
    awake = λ h. absurd (ground (arith, v.asked));
  }
  Step-IsHeard (resume e) v = record { asked = v.asked; awake = λ h g. absurd cc }
  Step-IsHeard (wake e) v = record { asked = v.asked; awake = λ h g. absurd cc }
  Step-IsHeard (deliver e) v = record { asked = v.asked; awake = λ h g. absurd cc }
  Step-IsHeard (again e) v = record { asked = v.asked; awake = λ h g. absurd cc }

  Reach-IsHeard : {p : Pump E} → Reach start_pump p → IsHeard p
  Reach-IsHeard here = record { asked = λ h. absurd cc; awake = λ h. absurd cc }
  Reach-IsHeard (next r s) = Step-IsHeard s (Reach-IsHeard r)

  measure-notify_all :
      (d : Dispatcher E) (queue : List E) → measure (notify_all d) queue < measure d queue + 1
  unfolding measure notify_all
  measure-notify_all locking queue = omega arith
  measure-notify_all waiting queue = omega arith
  measure-notify_all notified queue = omega arith
  measure-notify_all (dispatching evs) queue = omega arith
  measure-notify_all finished queue = omega arith

  abbrev left : Pump E → ℕ
  left p = measure p.dispatcher p.queue + (if p.stop_notified then 0 else 1)

  stopping_falls :
      {p q : Pump E} (s : Step p q)
      → is_stopping s ≡ true
      → p.stop_threads ≡ true
      → (left q < left p) × (q.stop_threads ≡ true)
  unfolding measure
  stopping_falls (receive ev) o h = absurd (cc)
  stopping_falls request_stop o h = absurd (cc)
  stopping_falls {p} (notify_stop s n) o h =
      (rw n (omega (arith, measure-notify_all p.dispatcher p.queue)), h)
  stopping_falls {p} (leave e s) o h = (omega (arith, ap (λ d. measure d p.queue) e), h)
  stopping_falls (swap e s n) o h = absurd (cc)
  stopping_falls (sleep e s n) o h = absurd (cc)
  stopping_falls {p} (resume e) o h = (omega (arith, ap (λ d. measure d p.queue) e), h)
  stopping_falls (wake e) o h = absurd (cc)
  stopping_falls {p} (deliver e) o h = (omega (arith, ap (λ d. measure d p.queue) e), h)
  stopping_falls {p} (again e) o h = (omega (arith, ap (λ d. measure d p.queue) e), h)

  further_step :
      (d : Dispatcher E) (p : Pump E)
      → p.dispatcher ≡ d
      → p.stop_threads ≡ true
      → IsHeard p
      → (p.dispatcher ≡ finished) ⊎ ((q : Pump E) × Stopping p q)
  further_step locking p e h v = inr (_, (leave e h, refl))
  further_step waiting p e h v = elim (Bool-cases p.stop_notified) [
    | inl n ↦ absurd (v.awake n e)
    | inr n ↦ inr (_, (notify_stop h n, refl))
  ]
  further_step notified p e h v = inr (_, (resume e, refl))
  further_step (dispatching []) p e h v = inr (_, (again e, refl))
  further_step (dispatching (ev ∷ evs)) p e h v = inr (_, (deliver e, refl))
  further_step finished p e h v = inl e

  -- In every state that the threads reach and in which StopThreads_ is set, there is a next step
  -- of the dispatching thread that needs no wait to end without a notification, or the
  -- notification of Stop is to come, until the dispatching thread has finished, and it finishes
  -- after finitely many of these steps, whichever they are.
  pub stop-Ends :
      {p : Pump E} → Reach start_pump p → p.stop_threads ≡ true → Ends Stopping IsFinished p
  stop-Ends {p} r h =
      falling-Ends Stopping IsFinished left (λ q. (q.stop_threads ≡ true) × IsHeard q)
        (λ q r k t.
          let (less, still) = stopping_falls t.0 t.1 k.0 in (less, (still, Step-IsHeard t.0 k.1)))
        (λ q k. further_step q.dispatcher q refl k.0 k.1) p (h, Reach-IsHeard r)

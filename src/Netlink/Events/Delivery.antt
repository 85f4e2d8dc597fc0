-- ===== src/Netlink/Events/Delivery.antt =====
-- The dispatching thread of netlink/netlink_proc_mon.cpp hands every queued event to the callbacks, if no
-- wait ends without a notification. A push notifies under the lock, so that no thread waits on beside
-- an event in the queue.
use cpp_done.Netlink.Events.{
  Dispatcher, locking, waiting, notified, dispatching, finished, notify_all, Pump, Step, receive,
  request_stop, notify_stop, leave, swap, sleep, resume, wake, deliver, again, Reach, here, next,
}
use cpp_done.Netlink.Events.Order.{in_hand, flow, start_pump, Reach-IsOrderly}
use cpp_done.Netlink.Events.Shutdown.{notify_all-awake}
use cpp_done.Netlink.Events.Receive.{capacity}
use mathlib.Core.List.{Sublist}
use mathlib.Core.Path.{ap₂}
use cpp_done.Std.Ends.{Ends, falling-Ends}
use cpp_done.Prelude.{
  ℕ, ◌+◌, ◌*◌, ◌<◌, ◌≡◌, ◌≢◌, refl, ap, sym, ◌∙◌, ◌⊎◌, inl, inr, Bool, true, false, not, List, [],
  ◌∷◌, ◌++◌, arith, length, append_assoc, append-nil,
}

abbrev is_empty_list {ℓ} : {A : Type ℓ} → List A → Bool
is_empty_list [] = true
is_empty_list (x ∷ xs) = false

-- what the dispatching thread has left
abbrev measure : {E : Type 0} → Dispatcher E → List E → ℕ
measure locking queue = 4 * length queue + 1
measure waiting queue = 4 * length queue
measure notified queue = 4 * length queue + 3
measure (dispatching evs) queue = length evs + 4 * length queue + 2
measure finished queue = 0

length_pos {ℓ} : {A : Type ℓ} (xs : List A) → xs ≢ [] → 0 < length xs
length_pos [] n = absurd (n refl)
length_pos (x ∷ xs) n = omega arith

length_some {ℓ} : {A : Type ℓ} (xs : List A) → not (is_empty_list xs) ≡ true → 0 < length xs
length_some [] n = absurd cc
length_some (x ∷ xs) n = omega arith

module _ {E : Type 0} where
  -- a step of the dispatching thread that is no end of a wait without a notification
  abbrev is_delivering : {p q : Pump E} → Step p q → Bool
  is_delivering (receive ev) = false
  is_delivering request_stop = false
  is_delivering (notify_stop s n) = false
  is_delivering (leave e s) = true
  is_delivering (swap e s n) = true
  is_delivering (sleep e s n) = true
  is_delivering (resume e) = true
  is_delivering (wake e) = false
  is_delivering (deliver e) = true
  is_delivering (again e) = true

  abbrev pub Delivering : Pump E → Pump E → Type 0
  Delivering p q = (s : Step p q) × (is_delivering s ≡ true)

  -- all of these events are delivered, and no other
  pub record AllDelivered (events : List E) (p : Pump E) : Type 0 where
    pub none_queued : p.queue ≡ []
    pub none_held : in_hand p.dispatcher ≡ []
    pub all : p.delivered ≡ events

  record IsPumping (events : List E) (p : Pump E) : Type 0 where
    up : p.stop_threads ≡ false
    goes_on : p.dispatcher ≢ finished
    flows : flow p ≡ events
    awake : p.dispatcher ≡ waiting → p.queue ≡ []

  -- the flow by the place of the thread
  held :
      (p : Pump E) {d : Dispatcher E}
      → p.dispatcher ≡ d
      → p.delivered ++ (in_hand d ++ p.queue) ≡ flow p
  held p e = sym (ap (λ d. p.delivered ++ (in_hand d ++ p.queue)) e)

  nothing_left :
      {events : List E} (p : Pump E)
      → in_hand p.dispatcher ≡ []
      → p.queue ≡ []
      → IsPumping events p
      → AllDelivered events p
  nothing_left p e w v = record {
    none_queued = w;
    none_held = e;
    all =
        sym (append-nil p.delivered) ∙ sym (ap₂ (λ xs ys. p.delivered ++ (xs ++ ys)) e w) ∙ v.flows;
  }

  step-IsPumping :
      (events : List E) {p q : Pump E} (s : Step p q)
      → is_delivering s ≡ true
      → IsPumping events p
      → (measure q.dispatcher q.queue < measure p.dispatcher p.queue) × IsPumping events q
  step-IsPumping events (receive ev) o v = absurd (cc)
  step-IsPumping events request_stop o v = absurd (cc)
  step-IsPumping events (notify_stop s n) o v = absurd (cc)
  step-IsPumping events (leave e s) o v = absurd (cc)
  step-IsPumping events {p} (swap e s n) o v = (
    omega (arith, length_pos p.queue n, ap (λ d. measure d p.queue) e),
    record {
      up = v.up;
      goes_on = λ h. absurd cc;
      flows = ap (λ xs. p.delivered ++ xs) (append-nil p.queue) ∙ held p e ∙ v.flows;
      awake = λ h. refl;
    },
  )
  step-IsPumping events {p} (sleep e s n) o v = (
    omega (arith, ap (λ d. measure d p.queue) e),
    record { up = v.up; goes_on = λ h. absurd cc; flows = held p e ∙ v.flows; awake = λ h. n },
  )
  step-IsPumping events {p} (resume e) o v = (
    omega (arith, ap (λ d. measure d p.queue) e),
    record {
      up = v.up;
      goes_on = λ h. absurd cc;
      flows = ap (λ xs. p.delivered ++ xs) (append-nil p.queue) ∙ held p e ∙ v.flows;
      awake = λ h. refl;
    },
  )
  step-IsPumping events (wake e) o v = absurd (cc)
  step-IsPumping events {p} (deliver {ev} {evs} e) o v = (
    omega (arith, ap (λ d. measure d p.queue) e),
    record {
      up = v.up;
      goes_on = λ h. absurd cc;
      flows = append_assoc p.delivered (ev ∷ []) (evs ++ p.queue) ∙ held p e ∙ v.flows;
      awake = λ h. absurd cc;
    },
  )
  step-IsPumping events {p} (again e) o v = (
    omega (arith, ap (λ d. measure d p.queue) e),
    record {
      up = v.up;
      goes_on = λ h. absurd cc;
      flows = held p e ∙ v.flows;
      awake = λ h. absurd cc;
    },
  )

  goes_further :
      (events : List E) (p : Pump E) (d : Dispatcher E) (queue : List E)
      → p.dispatcher ≡ d
      → p.queue ≡ queue
      → IsPumping events p
      → AllDelivered events p ⊎ ((q : Pump E) × Delivering p q)
  goes_further events p finished queue e w v = absurd (v.goes_on e)
  goes_further events p (dispatching (ev ∷ evs)) queue e w v = inr (_, (deliver e, refl))
  goes_further events p locking [] e w v = inl (nothing_left p (ap in_hand e) w v)
  goes_further events p waiting [] e w v = inl (nothing_left p (ap in_hand e) w v)
  goes_further events p (dispatching []) [] e w v = inl (nothing_left p (ap in_hand e) w v)
  goes_further events p locking (ev ∷ evs) e w v = inr (_, (swap e v.up (λ n. cc), refl))
  goes_further events p waiting (ev ∷ evs) e w v = absurd (let none = v.awake e in cc)
  goes_further events p notified queue e w v = inr (_, (resume e, refl))
  goes_further events p (dispatching []) (ev ∷ evs) e w v = inr (_, (again e, refl))

  notify_all-finished : (d : Dispatcher E) → notify_all d ≡ finished → d ≡ finished
  unfolding notify_all
  notify_all-finished locking h = absurd cc
  notify_all-finished waiting h = absurd cc
  notify_all-finished notified h = absurd cc
  notify_all-finished (dispatching evs) h = absurd cc
  notify_all-finished finished h = refl

  -- no wait goes on beside an event
  Reach-awake : {p : Pump E} → Reach start_pump p → p.dispatcher ≡ waiting → p.queue ≡ []
  Reach-awake here h = refl
  Reach-awake (next {q} r (receive ev)) h = absurd (notify_all-awake q.dispatcher h)
  Reach-awake (next r request_stop) h = Reach-awake r h
  Reach-awake (next {q} r (notify_stop s n)) h = absurd (notify_all-awake q.dispatcher h)
  Reach-awake (next r (leave e s)) h = absurd cc
  Reach-awake (next r (swap e s n)) h = refl
  Reach-awake (next r (sleep e s n)) h = n
  Reach-awake (next r (resume e)) h = refl
  Reach-awake (next r (wake e)) h = refl
  Reach-awake (next r (deliver e)) h = absurd cc
  Reach-awake (next r (again e)) h = absurd cc

  -- the thread ends only after StopThreads_ is set
  Reach-going : {p : Pump E} → Reach start_pump p → p.stop_threads ≡ false → p.dispatcher ≢ finished
  Reach-going here up h = absurd cc
  Reach-going (next {q} r (receive ev)) up h = Reach-going r up (notify_all-finished q.dispatcher h)
  Reach-going (next r request_stop) up h = absurd cc
  Reach-going (next r (notify_stop s n)) up h = absurd cc
  Reach-going (next r (leave e s)) up h = absurd cc
  Reach-going (next r (swap e s n)) up h = absurd cc
  Reach-going (next r (sleep e s n)) up h = absurd cc
  Reach-going (next r (resume e)) up h = absurd cc
  Reach-going (next r (wake e)) up h = absurd cc
  Reach-going (next r (deliver e)) up h = absurd cc
  Reach-going (next r (again e)) up h = absurd cc

  -- From any state that the two threads reach and in which StopThreads_ is not set: there are
  -- events, a sublist of the accepted ones in their order, and all of them while no more than the
  -- capacity were accepted, such that if no event comes and no stop is requested from then on, and
  -- no wait ends without a notification, the dispatching thread has a next step until exactly
  -- these events are delivered and none is held or queued, and that is so after finitely many of
  -- its steps.
  pub Reach-AllDelivered :
      {p : Pump E}
      → Reach start_pump p
      → p.stop_threads ≡ false
      → (events : List E) × Ends Delivering (AllDelivered events) p
        × Sublist events p.accepted
        × ((events ≡ p.accepted) ⊎ (capacity < length p.accepted))
  Reach-AllDelivered {p} r up =
      let o = Reach-IsOrderly r in
      (
        flow p,
        falling-Ends Delivering (AllDelivered (flow p)) (λ q. measure q.dispatcher q.queue)
            (IsPumping (flow p)) (λ q r k t. step-IsPumping (flow p) t.0 t.1 k)
            (λ q k. goes_further (flow p) q q.dispatcher q.queue refl refl k) p
            (record { up = up; goes_on = Reach-going r up; flows = refl; awake = Reach-awake r }),
        o.in_order,
        o.complete,
      )

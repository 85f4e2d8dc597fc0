-- ===== src/Netlink/Events/Order.antt =====
-- The order in which events of netlink/netlink_proc_mon.cpp reach the callbacks, under every
-- interleaving of the receiving and the dispatching thread.
use mathlib.Core.List.Sublist
use mathlib.Core.List.{Sublist}
use cpp_done.Netlink.Events.{
  proc_ev_queue_max_size, push_event, notify_all, Dispatcher, locking, waiting, notified,
  dispatching, finished, Pump, Step, receive, request_stop, notify_stop, leave, swap, sleep, resume,
  wake, deliver, again, Reach, here, next,
}
use cpp_done.Netlink.Events.Receive.{capacity, length-drop}
use cpp_done.Prelude.{
  list_laws, ◌≤◌, ◌<◌, ◌≡◌, refl, ap, sym, ◌∙◌, ◌⊎◌, inl, inr, false, List, [], ◌∷◌, ◌++◌, arith,
  ltb, length, length-append, drop, append_assoc, append-nil, Bool-cases,
}

module _ {E : Type 0} where
  -- the events that the dispatcher has taken and not yet handed on
  abbrev pub in_hand : Dispatcher E → List E
  in_hand locking = []
  in_hand waiting = []
  in_hand notified = []
  in_hand (dispatching evs) = evs
  in_hand finished = []

  -- delivered, taken and queued, in this order
  abbrev pub flow : Pump E → List E
  flow p = p.delivered ++ (in_hand p.dispatcher ++ p.queue)

  abbrev pub start_pump : Pump E
  start_pump = record {
    stop_threads = false;
    stop_notified = false;
    queue = [];
    dispatcher = locking;
    accepted = [];
    delivered = [];
  }

  -- Events are delivered in the order in which they were accepted, each at most once, the queue is
  -- bounded, and none is lost while no more than the capacity were accepted.
  pub record IsOrderly (p : Pump E) : Type 0 where
    pub in_order : Sublist (flow p) p.accepted
    pub bounded : length p.queue ≤ capacity
    pub complete : (flow p ≡ p.accepted) ⊎ (capacity < length p.accepted)

  same-IsOrderly :
      {p q : Pump E}
      → flow q ≡ flow p
      → q.accepted ≡ p.accepted
      → length q.queue ≤ length p.queue
      → IsOrderly p
      → IsOrderly q
  same-IsOrderly f a l o = record {
    in_order = rw (f, a) o.in_order;
    bounded = omega arith;
    complete = rw (f, a) o.complete;
  }

  push_event-cases :
      (ev : E) (queue : List E)
      → (length queue ≤ proc_ev_queue_max_size × (push_event ev queue ≡ queue ++ ev ∷ []))
        ⊎ (proc_ev_queue_max_size < length queue × (push_event ev queue ≡ drop 1 queue ++ ev ∷ []))
  unfolding push_event
  push_event-cases ev queue = elim (Bool-cases (ltb proc_ev_queue_max_size (length queue))) [
    | inl e ↦ inr (ground arith, rw e)
    | inr e ↦ inl (ground arith, rw e)
  ]

  drop_one-sublist : (xs : List E) → Sublist (drop 1 xs) xs
  drop_one-sublist [] = Sublist.refl []
  drop_one-sublist (x ∷ xs) = Sublist.cons x (Sublist.refl xs)

  flow_push :
      (p : Pump E) (kept : List E) (ev : E)
      → p.delivered ++ (in_hand p.dispatcher ++ (kept ++ ev ∷ []))
        ≡ (p.delivered ++ (in_hand p.dispatcher ++ kept)) ++ ev ∷ []
  flow_push p kept ev = simp list_laws

  receive-IsOrderly :
      (p : Pump E) (ev : E)
      → IsOrderly p
      → IsOrderly (record p { queue = push_event ev p.queue; accepted = p.accepted ++ ev ∷ [] })
  receive-IsOrderly p ev o = elim (push_event-cases ev p.queue) [
    | inl (room, e) ↦ record {
      in_order =
          rw (e, flow_push p p.queue ev) (Sublist.append o.in_order (Sublist.refl (ev ∷ [])));
      bounded = rw e (omega (arith, length-append p.queue (ev ∷ [])));
      complete = elim o.complete [
        | inl same ↦ inl (rw (e, flow_push p p.queue ev) (ap (λ l. l ++ ev ∷ []) same))
        | inr many ↦ inr (omega (arith, length-append p.accepted (ev ∷ [])))
      ];
    }
    | inr (full, e) ↦
        let hand = in_hand p.dispatcher in
        let shorter =
          Sublist.append (Sublist.refl p.delivered)
            (Sublist.append (Sublist.refl hand) (drop_one-sublist p.queue)) in
        record {
          in_order =
              rw (e, flow_push p (drop 1 p.queue) ev)
                (Sublist.append (Sublist.trans shorter o.in_order) (Sublist.refl (ev ∷ [])));
          bounded = rw e (
              omega (
                arith,
                length-append (drop 1 p.queue) (ev ∷ []),
                length-drop 1 p.queue,
                o.bounded,
              ));
          complete = elim o.complete [
            | inl same ↦ inr (
                omega (
                  arith,
                  length-append p.accepted (ev ∷ []),
                  ap length same,
                  length-append p.delivered (hand ++ p.queue),
                  length-append hand p.queue,
                ))
            | inr many ↦ inr (omega (arith, length-append p.accepted (ev ∷ [])))
          ];
        }
  ]

  -- the flow where the dispatcher stands at `d`
  abbrev flow_at : Pump E → Dispatcher E → List E
  flow_at p d = p.delivered ++ (in_hand d ++ p.queue)

  in_hand-notify_all : (d : Dispatcher E) → in_hand (notify_all d) ≡ in_hand d
  unfolding notify_all
  in_hand-notify_all locking = refl
  in_hand-notify_all waiting = refl
  in_hand-notify_all notified = refl
  in_hand-notify_all (dispatching evs) = refl
  in_hand-notify_all finished = refl

  notify-IsOrderly :
      (p : Pump E) → IsOrderly p → IsOrderly (record p { dispatcher = notify_all p.dispatcher })
  notify-IsOrderly p o =
      same-IsOrderly
        (ap (λ hand. p.delivered ++ (hand ++ p.queue)) (in_hand-notify_all p.dispatcher)) refl
        (omega arith) o

  Step-IsOrderly : {p q : Pump E} → Step p q → IsOrderly p → IsOrderly q
  Step-IsOrderly {p} (receive ev) o =
      receive-IsOrderly (record p { dispatcher = notify_all p.dispatcher }) ev
        (notify-IsOrderly p o)
  Step-IsOrderly {p} (notify_stop s n) o =
      let v = notify-IsOrderly p o in
      record { in_order = v.in_order; bounded = v.bounded; complete = v.complete }
  Step-IsOrderly request_stop o = record {
    in_order = o.in_order;
    bounded = o.bounded;
    complete = o.complete;
  }
  Step-IsOrderly {p} (leave e s) o = same-IsOrderly (ap (flow_at p) (sym e)) refl (omega arith) o
  Step-IsOrderly {p} (swap e s n) o =
      same-IsOrderly (ap (◌++◌ p.delivered) (append-nil p.queue) ∙ ap (flow_at p) (sym e)) refl
        (omega arith) o
  Step-IsOrderly {p} (sleep e s n) o = same-IsOrderly (ap (flow_at p) (sym e)) refl (omega arith) o
  Step-IsOrderly {p} (resume e) o =
      same-IsOrderly (ap (◌++◌ p.delivered) (append-nil p.queue) ∙ ap (flow_at p) (sym e)) refl
        (omega arith) o
  Step-IsOrderly {p} (wake e) o =
      same-IsOrderly (ap (◌++◌ p.delivered) (append-nil p.queue) ∙ ap (flow_at p) (sym e)) refl
        (omega arith) o
  Step-IsOrderly {p} (deliver {ev} {evs} e) o =
      same-IsOrderly (append_assoc p.delivered (ev ∷ []) (evs ++ p.queue) ∙ ap (flow_at p) (sym e))
        refl (omega arith) o
  Step-IsOrderly {p} (again e) o = same-IsOrderly (ap (flow_at p) (sym e)) refl (omega arith) o

  -- Under every interleaving of the receiving and the dispatching thread, the events delivered,
  -- then those taken by the dispatcher, then those queued, are a sublist of the accepted ones in
  -- their order, the queue holds at most one event more than kProcEvQueueMaxSize, and no event is
  -- missing unless more events were accepted than the queue can hold.
  pub Reach-IsOrderly : {p : Pump E} → Reach start_pump p → IsOrderly p
  Reach-IsOrderly here = record {
    in_order = Sublist.refl [];
    bounded = omega arith;
    complete = inl refl;
  }
  Reach-IsOrderly (next r s) = Step-IsOrderly s (Reach-IsOrderly r)

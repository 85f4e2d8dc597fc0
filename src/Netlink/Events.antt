-- ===== src/Netlink/Events.antt =====
-- The two threads of netlink/netlink_proc_mon.cpp: `procEvRecvImpl` fills the queue, and
-- `procEvDispatcherImpl` empties it into the callbacks.
pub mod Receive
pub mod Order
pub mod Shutdown
pub mod Delivery
use cpp_done.Netlink.{NetlinkProcMon, EventCallbackInfo}
use cpp_done.Prelude.{
  ℕ, ◌*◌, ◌^◌, ◌≡◌, ◌≢◌, Bool, true, false, ◌||◌, Option, none, some, List, [], ◌∷◌, ◌++◌, ltb,
  ◌==◌, if◌then◌else◌, length, drop,
}

-- What `recv` returned: 0, -1 with `errno`, or a message with its `what`.
pub data Recv (E : Type 0) : Type 0 where
  shutdown : Recv E
  failed : ℕ → Recv E
  received : ℕ → E → Recv E

abbrev pub eintr : ℕ
eintr = 4

abbrev pub eagain : ℕ
eagain = 11

abbrev pub enobufs : ℕ
enobufs = 105

abbrev pub proc_event_fork : ℕ
proc_event_fork = 1

abbrev pub proc_event_exec : ℕ
proc_event_exec = 2

abbrev pub proc_event_exit : ℕ
proc_event_exit = 2 ^ 31

abbrev pub proc_ev_queue_max_size : ℕ
proc_ev_queue_max_size = 8 * 1024

abbrev pub is_watched : ℕ → Bool
is_watched what = what == proc_event_fork || (what == proc_event_exec || what == proc_event_exit)

module _ {E : Type 0} where
  -- the push with the oldest event dropped from a full queue
  unfoldable pub push_event : E → List E → List E
  push_event ev queue =
      (if ltb proc_ev_queue_max_size (length queue) then drop 1 queue else queue) ++ ev ∷ []

  -- one round of the receiving loop on the queue, and whether the loop goes on
  unfoldable pub recv_round : Recv E → List E → List E × Bool
  recv_round shutdown queue = (queue, false)
  recv_round (failed errno) queue = (queue, errno == eintr || (errno == enobufs || errno == eagain))
  recv_round (received what ev) queue =
      (if is_watched what then push_event ev queue else queue, true)

  -- the loop until it returns, over what `recv` returns while `StopThreads_` is false
  unfoldable pub proc_ev_recv : List (Recv E) → List E → List E
  proc_ev_recv [] queue = queue
  proc_ev_recv (r ∷ rs) queue =
      let (next, goes_on) = recv_round r queue in
      let rest = proc_ev_recv rs next in if goes_on then rest else next

module _ {E C : Type 0} where
  -- the calls of `forEachCallback`: function, event and context
  unfoldable pub for_each_callback : E → List (EventCallbackInfo C) → List (C × E × ℕ)
  for_each_callback ev [] = []
  for_each_callback ev (info ∷ infos) = elim info.callback [
    | none ↦ for_each_callback ev infos
    | some f ↦ (f, ev, info.context) ∷ for_each_callback ev infos
  ]

-- Where the dispatching thread stands: about to take the lock, in `wait`, in `wait` and notified, or
-- with the events that it swapped out.
pub data Dispatcher (E : Type 0) : Type 0 where
  locking : Dispatcher E
  waiting : Dispatcher E
  notified : Dispatcher E
  dispatching : List E → Dispatcher E
  finished : Dispatcher E

-- `notify_all`
unfoldable pub notify_all : {E : Type 0} → Dispatcher E → Dispatcher E
notify_all locking = locking
notify_all waiting = notified
notify_all notified = notified
notify_all (dispatching evs) = dispatching evs
notify_all finished = finished

-- The dispatcher with what it shares with the other threads, and two records of the run: the events
-- that the producer accepted, and those that were handed to the callbacks.
pub record Pump (E : Type 0) : Type 0 where
  pub stop_threads : Bool
  -- did `Stop` notify?
  pub stop_notified : Bool
  pub queue : List E
  pub dispatcher : Dispatcher E
  pub accepted : List E
  pub delivered : List E

-- One step of a thread. `wait` may return for no reason, as a condition variable may.
pub data Step {E : Type 0} (p : Pump E) : Pump E → Type 0 where
  receive :
      (ev : E)
      → Step p (record p {
        queue = push_event ev p.queue;
        accepted = p.accepted ++ ev ∷ [];
        dispatcher = notify_all p.dispatcher;
      })
  -- `Stop` up to the join of the producer, and its notification
  request_stop : Step p (record p { stop_threads = true })
  notify_stop :
      p.stop_threads ≡ true
      → p.stop_notified ≡ false
      → Step p (record p { stop_notified = true; dispatcher = notify_all p.dispatcher })
  leave :
      p.dispatcher ≡ locking → p.stop_threads ≡ true → Step p (record p { dispatcher = finished })
  swap :
      p.dispatcher ≡ locking
      → p.stop_threads ≡ false
      → p.queue ≢ []
      → Step p (record p { dispatcher = dispatching p.queue; queue = [] })
  sleep :
      p.dispatcher ≡ locking
      → p.stop_threads ≡ false
      → p.queue ≡ []
      → Step p (record p { dispatcher = waiting })
  resume :
      p.dispatcher ≡ notified → Step p (record p { dispatcher = dispatching p.queue; queue = [] })
  -- without a notification
  wake : p.dispatcher ≡ waiting → Step p (record p { dispatcher = dispatching p.queue; queue = [] })
  deliver :
      {ev : E} {evs : List E}
      → p.dispatcher ≡ dispatching (ev ∷ evs)
      → Step p (record p { dispatcher = dispatching evs; delivered = p.delivered ++ ev ∷ [] })
  again : p.dispatcher ≡ dispatching [] → Step p (record p { dispatcher = locking })

pub data Reach {E : Type 0} (p : Pump E) : Pump E → Type 0 where
  here : Reach p p
  next : {q r : Pump E} → Reach p q → Step q r → Reach p r

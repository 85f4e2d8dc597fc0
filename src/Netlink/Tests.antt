-- ===== src/Netlink/Tests.antt =====
-- Messages, callbacks and the socket of netlink/netlink_proc_mon.cpp at concrete values.
use cpp_done.Netlink.Callbacks.{IsRegistered, add-remove}
use cpp_done.Netlink.Events.Order.{start_pump, IsOrderly, Reach-IsOrderly}
use cpp_done.Netlink.Events.Receive.{capacity, heard, last_of, proc_ev_recv-heard}
use cpp_done.Netlink.Rmem.{save_rmem_size}
use cpp_done.Std.Decimal.{atol_long, digits_from}
use cpp_done.Std.Text.{codes, c_str}
use mathlib.Core.List.{Sublist}
use cpp_done.Netlink.Events.Delivery.{Delivering, AllDelivered, Reach-AllDelivered}
use cpp_done.Netlink.Events.Shutdown.{Stopping, IsFinished, stop-Ends}
use cpp_done.Std.Ends.{Ends}
use cpp_done.Netlink.Events.{
  Reach, Recv, shutdown, failed, received, eagain, proc_event_fork, proc_event_exit, push_event,
  recv_round, proc_ev_recv, for_each_callback, Pump, waiting, dispatching, receive, swap, deliver,
  sleep, request_stop, notify_all, here, next,
}
use cpp_done.Netlink.Socket.{IsTidy, opens, closes}
use cpp_done.Netlink.{
  destroy, opened, bound, closed, set_rcvbuf, set_rcvtimeo, sent, System, NetlinkProcMon, nlcn_msg,
  message_size, new, close_proc_netlink, set_options, connect_to_proc_netlink,
  set_proc_ev_subscription_status, subscribe_to_proc_netlink, un_subscribe_to_proc_netlink,
  start_threads, start, stop, generate_id, add_proc_ev_callback, remove_proc_ev_callback,
}
use cpp_done.Netlink.Sessions.{Visit, starts, stops, visits, ideal_visits, visits-ideal}
use cpp_done.Prelude.{
  take, ◌⊎◌, ◌+◌, ℕ, ◌*◌, ◌≤◌, ◌<◌, ◌≡◌, refl, true, false, none, some, List, [], ◌∷◌, ◌++◌, arith,
  if◌then◌else◌, length, All,
}

program : Unit {0}
unfolding new close_proc_netlink set_options connect_to_proc_netlink set_proc_ev_subscription_status
    subscribe_to_proc_netlink un_subscribe_to_proc_netlink start_threads start stop generate_id
    add_proc_ev_callback remove_proc_ev_callback push_event recv_round proc_ev_recv
    for_each_callback heard
program = tt

abbrev linux : System
linux = record {
  socket = some 3;
  binds = true;
  rcvbuf = λ _. some 212992;
  sends = true;
  getpid = 77;
  producer = true;
  dispatcher = true;
}

abbrev fresh : NetlinkProcMon ℕ ℕ
fresh = new

session :
    (stop linux (start linux fresh).0).calls
    ≡ opened 3
      ∷ bound 3
      ∷ set_rcvbuf (some 3) (20 * 1024 * 1024)
      ∷ set_rcvtimeo (some 3) 100000
      ∷ sent 3 (nlcn_msg 77 true)
      ∷ sent 3 (nlcn_msg 77 false)
      ∷ closed 3
      ∷ []
unfolding program
session = refl

-- the size in the header is that of the message
whole_message : length (nlcn_msg 77 true) ≡ message_size
unfolding nlcn_msg
whole_message = refl

abbrev messages : List (Recv ℕ)
messages =
    received proc_event_fork 7
    ∷ received 4 8
    ∷ failed eagain
    ∷ received proc_event_exit 9
    ∷ shutdown
    ∷ received 1 6
    ∷ []

heard_two : proc_ev_recv messages [] ≡ 7 ∷ 9 ∷ []
unfolding program
heard_two = refl

calls_back :
    for_each_callback {E = ℕ} 7
      (add_proc_ev_callback none 1 (add_proc_ev_callback (some 5) 2 fresh).0).0.callbacks
    ≡ (5, 7, 2) ∷ []
unfolding program
calls_back = refl

proc_ev_recv-heard_example :
    (proc_ev_recv messages [] ≡ last_of capacity ([] ++ heard messages))
    × (length (proc_ev_recv messages []) ≤ capacity)
proc_ev_recv-heard_example = proc_ev_recv-heard messages [] (omega arith)

fresh-IsTidy : IsTidy fresh
unfolding new
fresh-IsTidy = ground arith

fresh-IsRegistered : IsRegistered fresh
unfolding new
fresh-IsRegistered = ground arith

abbrev one_callback : NetlinkProcMon ℕ ℕ
one_callback = (add_proc_ev_callback (some 5) 2 fresh).0

five_added_and_removed :
    IsRegistered one_callback
    × All (λ c. c.id < (add_proc_ev_callback (some 5) 2 fresh).1) fresh.callbacks
    × ((remove_proc_ev_callback (add_proc_ev_callback (some 5) 2 fresh).1 one_callback).callbacks
        ≡ fresh.callbacks)
unfolding new
five_added_and_removed = add-remove (some 5) 2 fresh fresh-IsRegistered (omega arith)

abbrev delivered_one : Pump ℕ
delivered_one = record start_pump {
  dispatcher = dispatching [];
  accepted = 4 ∷ [];
  delivered = 4 ∷ [];
}

Reach-IsOrderly_example : IsOrderly delivered_one
unfolding push_event notify_all
Reach-IsOrderly_example =
    Reach-IsOrderly
      (next (next (next here (receive 4)) (swap refl refl (λ e. ground arith))) (deliver refl))

abbrev stopping : Pump ℕ
stopping = record start_pump { stop_threads = true; dispatcher = waiting }

stop-Ends_example : Ends Stopping IsFinished stopping
stop-Ends_example = stop-Ends (next (next here (sleep refl refl refl)) request_stop) refl

-- a socket that cannot be subscribed
abbrev deaf : System
deaf = record linux { sends = false }

abbrev visited : List Visit
visited = starts deaf ∷ starts linux ∷ starts deaf ∷ stops deaf ∷ starts deaf ∷ []

started_between : (visits visited fresh).0 ≡ false ∷ true ∷ true ∷ false ∷ []
unfolding program visits
started_between = refl

visits-ideal_example :
    ((visits visited fresh).0 ≡ (ideal_visits visited false).0)
    × ((visits visited fresh).1.started ≡ (ideal_visits visited false).1)
    × (opens (visits visited fresh).1.calls
        ≡ closes (visits visited fresh).1.calls
          + (if (visits visited fresh).1.started then 1 else 0))
    × ((sys : System)
        → opens (destroy sys (visits visited fresh).1).calls
          ≡ closes (destroy sys (visits visited fresh).1).calls)
visits-ideal_example = visits-ideal ℕ ℕ visited

abbrev queued_one : Pump ℕ
queued_one = record start_pump { queue = 4 ∷ []; accepted = 4 ∷ [] }

reached_queued : Reach start_pump queued_one
unfolding push_event notify_all
reached_queued = next here (receive 4)

Reach-AllDelivered_example :
    (events : List ℕ) × Ends Delivering (AllDelivered events) queued_one
    × Sublist events queued_one.accepted
    × ((events ≡ queued_one.accepted) ⊎ (capacity < length queued_one.accepted))
Reach-AllDelivered_example = Reach-AllDelivered reached_queued refl

-- the content of /proc/sys/net/core/rmem_default
default_size : save_rmem_size (some (λ k. some (take k (codes "212992\n")))) ≡ 212992
unfolding save_rmem_size atol_long digits_from c_str
default_size = refl

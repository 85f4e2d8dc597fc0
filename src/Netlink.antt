-- ===== src/Netlink.antt =====
-- netlink/netlink_proc_mon.cpp and netlink/netlink_proc_mon.h: the monitor's fields, its socket, its
-- callbacks, and `Start` and `Stop`. The calls of the operating system are written to a trace; what
-- they answer is a record. A method that returns an `int` returns here whether that is 0.
pub mod Events
pub mod Socket
pub mod Callbacks
pub mod Sessions
pub mod Rmem
mod Tests
use cpp_done.Std.Text.{Bytes}
use cpp_done.Prelude.{
  zero, suc, ◌/◌, ℕ, ◌+◌, ◌*◌, ◌%◌, ◌^◌, Bool, true, false, not, Option, none, some, List, [], ◌∷◌,
  ◌++◌, ltb, ◌==◌, if◌then◌else◌, keep,
}

-- The file descriptor is `none` for `INVALID_SOCKET`.
pub data Call : Type 0 where
  opened : ℕ → Call
  bound : ℕ → Call
  closed : ℕ → Call
  set_rcvbuf : Option ℕ → ℕ → Call
  set_rcvtimeo : Option ℕ → ℕ → Call
  sent : ℕ → Bytes → Call

pub record System : Type 0 where
  pub socket : Option ℕ
  pub binds : Bool
  -- the size of the receive buffer, where `getsockopt` succeeds
  pub rcvbuf : Option ℕ → Option ℕ
  pub sends : Bool
  pub getpid : ℕ
  -- do the two threads start?
  pub producer : Bool
  pub dispatcher : Bool

-- `callback_` is `none` for an empty function.
pub record EventCallbackInfo (C : Type 0) : Type 0 where
  pub id : ℕ
  pub callback : Option C
  pub context : ℕ

pub record NetlinkProcMon (E C : Type 0) : Type 0 where
  pub started : Bool
  pub stop_threads : Bool
  pub next_id : ℕ
  pub netlink_sock : Option ℕ
  -- are the threads joinable?
  pub producer_thread : Bool
  pub dispatch_thread : Bool
  pub callbacks : List (EventCallbackInfo C)
  pub queue : List E
  pub calls : List Call

abbrev pub max_recv_buf_size : ℕ
max_recv_buf_size = 20 * 1024 * 1024

-- a number in memory, in `w` bytes, the lowest first
abbrev pub bytes : ℕ → ℕ → Bytes
bytes zero n = []
bytes (suc w) n = n % 256 ∷ bytes w (n / 256)

-- `sizeof(nlcn_msg)`: a `nlmsghdr`, a `cn_msg` and an `enum proc_cn_mcast_op`
abbrev pub message_size : ℕ
message_size = 16 + (20 + 4)

-- `nlcn_msg`, field by field; NLMSG_DONE is 3, CN_IDX_PROC and CN_VAL_PROC are 1, and
-- PROC_CN_MCAST_LISTEN and PROC_CN_MCAST_IGNORE are 1 and 2
unfoldable pub nlcn_msg : ℕ → Bool → Bytes
nlcn_msg pid is_enable =
    bytes 4 message_size
    ++ (bytes 2 3
        ++ (bytes 2 0
            ++ (bytes 4 0
                ++ (bytes 4 pid
                    ++ (bytes 4 1
                        ++ (bytes 4 1
                            ++ (bytes 4 0
                                ++ (bytes 4 0
                                    ++ (bytes 2 4
                                        ++ (bytes 2 0
                                            ++ bytes 4 (if is_enable then 1 else 2)))))))))))

unfoldable pub new : {E C : Type 0} → NetlinkProcMon E C
new = record {
  started = false;
  stop_threads = false;
  next_id = 1;
  netlink_sock = none;
  producer_thread = false;
  dispatch_thread = false;
  callbacks = [];
  queue = [];
  calls = [];
}

module _ {E C : Type 0} where
  abbrev trace : NetlinkProcMon E C → List Call → NetlinkProcMon E C
  trace m cs = record m { calls = m.calls ++ cs }

  unfoldable pub close_proc_netlink : NetlinkProcMon E C → NetlinkProcMon E C
  close_proc_netlink m = elim m.netlink_sock [
    | none ↦ m
    | some fd ↦ record (trace m (closed fd ∷ [])) { netlink_sock = none }
  ]

  -- the options of the socket, which is invalid here after a failed `bind`
  unfoldable pub set_options : System → NetlinkProcMon E C → NetlinkProcMon E C
  set_options sys m =
      let grow : List Call = elim (sys.rcvbuf m.netlink_sock) [
        | none ↦ []
        | some size ↦
            if ltb size max_recv_buf_size
            then set_rcvbuf m.netlink_sock max_recv_buf_size ∷ []
            else []
      ] in
      trace m (grow ++ set_rcvtimeo m.netlink_sock 100000 ∷ [])

  unfoldable pub connect_to_proc_netlink : System → NetlinkProcMon E C → NetlinkProcMon E C × Bool
  connect_to_proc_netlink sys m = elim m.netlink_sock [
    | some _ ↦ (m, true)
    | none ↦ elim sys.socket [
      | none ↦ (m, false)
      | some fd ↦
          if sys.binds
          then (
            set_options sys
                (record m { netlink_sock = some fd; calls = m.calls ++ opened fd ∷ bound fd ∷ [] }),
            true,
          )
          else (set_options sys (record m { calls = m.calls ++ opened fd ∷ closed fd ∷ [] }), false)
    ]
  ]

  unfoldable pub set_proc_ev_subscription_status :
      System → Bool → NetlinkProcMon E C → NetlinkProcMon E C × Bool
  set_proc_ev_subscription_status sys is_enable m = elim m.netlink_sock [
    | none ↦ (m, false)
    | some fd ↦
        if sys.sends
        then (trace m (sent fd (nlcn_msg sys.getpid is_enable) ∷ []), true)
        else (m, false)
  ]

  unfoldable pub subscribe_to_proc_netlink : System → NetlinkProcMon E C → NetlinkProcMon E C × Bool
  subscribe_to_proc_netlink sys m = set_proc_ev_subscription_status sys true m

  unfoldable pub un_subscribe_to_proc_netlink :
      System → NetlinkProcMon E C → NetlinkProcMon E C × Bool
  un_subscribe_to_proc_netlink sys m = set_proc_ev_subscription_status sys false m

  -- an exception of the second thread's constructor leaves the first one running
  unfoldable pub start_threads : System → NetlinkProcMon E C → NetlinkProcMon E C
  start_threads sys m = record m {
    producer_thread = sys.producer;
    dispatch_thread = if sys.producer then sys.dispatcher else false;
    started = true;
  }

  unfoldable pub start : System → NetlinkProcMon E C → NetlinkProcMon E C × Bool
  start sys m =
      let (connected, ok) = connect_to_proc_netlink sys m in
      let (subscribed, listens) = subscribe_to_proc_netlink sys connected in
      if m.started
      then (m, true)
      else if not ok
      then (connected, false)
      else if not listens
      then (close_proc_netlink subscribed, false)
      else (start_threads sys subscribed, true)

  -- both threads have ended where they are joined
  unfoldable pub stop : System → NetlinkProcMon E C → NetlinkProcMon E C
  stop sys m =
      if m.started
      then record (close_proc_netlink (un_subscribe_to_proc_netlink sys m).0) {
        producer_thread = false;
        dispatch_thread = false;
        stop_threads = false;
        started = false;
      }
      else m

  -- `~NetlinkProcMon`
  unfoldable pub destroy : System → NetlinkProcMon E C → NetlinkProcMon E C
  destroy sys m = stop sys m

  -- `__sync_fetch_and_add` on a `uint64_t`
  unfoldable pub generate_id : NetlinkProcMon E C → NetlinkProcMon E C × ℕ
  generate_id m = (record m { next_id = (m.next_id + 1) % 2 ^ 64 }, m.next_id)

  unfoldable pub add_proc_ev_callback : Option C → ℕ → NetlinkProcMon E C → NetlinkProcMon E C × ℕ
  add_proc_ev_callback event_callback context m =
      let (m', callback_id) = generate_id m in
      (
        record m' {
          callbacks =
              m.callbacks
              ++ record { id = callback_id; callback = event_callback; context = context } ∷ [];
        },
        callback_id,
      )

  unfoldable pub remove_proc_ev_callback : ℕ → NetlinkProcMon E C → NetlinkProcMon E C
  remove_proc_ev_callback callback_id m = record m {
    callbacks = keep (λ info. not (info.id == callback_id)) m.callbacks;
  }

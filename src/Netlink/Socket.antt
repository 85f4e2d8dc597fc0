-- ===== src/Netlink/Socket.antt =====
-- The life of the socket of netlink/netlink_proc_mon.cpp through `Start` and `Stop`.
use cpp_done.Netlink.{
  Call, opened, bound, closed, set_rcvbuf, set_rcvtimeo, sent, System, NetlinkProcMon, new,
  close_proc_netlink, set_options, connect_to_proc_netlink, set_proc_ev_subscription_status,
  subscribe_to_proc_netlink, un_subscribe_to_proc_netlink, start_threads, start, stop,
}
use cpp_done.Prelude.{
  ℕ, ◌+◌, ◌≡◌, Bool, true, false, ◌&&◌, ◌||◌, Option, none, some, List, [], ◌∷◌, ◌++◌, arith,
}

abbrev pub is_some {ℓ} : {A : Type ℓ} → Option A → Bool
is_some none = false
is_some (some a) = true

abbrev pub opens : List Call → ℕ
opens [] = 0
opens (opened fd ∷ cs) = 1 + opens cs
opens (c ∷ cs) = opens cs

abbrev pub closes : List Call → ℕ
closes [] = 0
closes (closed fd ∷ cs) = 1 + closes cs
closes (c ∷ cs) = closes cs

abbrev pub held : Option ℕ → ℕ
held none = 0
held (some fd) = 1

opens-append : (cs ds : List Call) → opens (cs ++ ds) ≡ opens cs + opens ds
opens-append [] ds = omega arith
opens-append (opened fd ∷ cs) ds = omega (arith, opens-append cs ds)
opens-append (bound fd ∷ cs) ds = opens-append cs ds
opens-append (closed fd ∷ cs) ds = opens-append cs ds
opens-append (set_rcvbuf fd n ∷ cs) ds = opens-append cs ds
opens-append (set_rcvtimeo fd n ∷ cs) ds = opens-append cs ds
opens-append (sent fd b ∷ cs) ds = opens-append cs ds

closes-append : (cs ds : List Call) → closes (cs ++ ds) ≡ closes cs + closes ds
closes-append [] ds = omega arith
closes-append (closed fd ∷ cs) ds = omega (arith, closes-append cs ds)
closes-append (bound fd ∷ cs) ds = closes-append cs ds
closes-append (opened fd ∷ cs) ds = closes-append cs ds
closes-append (set_rcvbuf fd n ∷ cs) ds = closes-append cs ds
closes-append (set_rcvtimeo fd n ∷ cs) ds = closes-append cs ds
closes-append (sent fd b ∷ cs) ds = closes-append cs ds

ruleset counting = (arith, opens-append, closes-append)

module _ {E C : Type 0} where
  -- Between calls of the public methods: a socket is held exactly while the monitor is started, it is
  -- the only one that was opened and not closed, and no thread runs while the monitor is stopped.
  pub record IsTidy (m : NetlinkProcMon E C) : Type 0 where
    pub socket : is_some m.netlink_sock ≡ m.started
    pub no_leak : opens m.calls ≡ closes m.calls + held m.netlink_sock
    pub idle : m.started ≡ false → (m.producer_thread ≡ false) × (m.dispatch_thread ≡ false)
    pub resumed : m.stop_threads ≡ false

  -- what the parts of `start` change
  pub record Differs (m m' : NetlinkProcMon E C) : Type 0 where
    pub same_started : m'.started ≡ m.started
    pub same_stop : m'.stop_threads ≡ m.stop_threads
    pub same_producer : m'.producer_thread ≡ m.producer_thread
    pub same_dispatch : m'.dispatch_thread ≡ m.dispatch_thread
    pub balance :
        opens m'.calls + closes m.calls + held m.netlink_sock
        ≡ closes m'.calls + opens m.calls + held m'.netlink_sock

  set_options-Differs :
      (sys : System) (m : NetlinkProcMon E C)
      → Differs m (set_options sys m) × ((set_options sys m).netlink_sock ≡ m.netlink_sock)
  unfolding set_options
  set_options-Differs sys m = grind counting

  connect-Differs :
      (sys : System) (m : NetlinkProcMon E C)
      → let r = connect_to_proc_netlink sys m in
        Differs m r.0
        × (is_some r.0.netlink_sock ≡ r.1)
        × (m.netlink_sock ≡ none → r.1 ≡ (is_some sys.socket && sys.binds))
  unfolding connect_to_proc_netlink
  connect-Differs sys m = grind (counting, set_options-Differs)

  status-Differs :
      (sys : System) (b : Bool) (m : NetlinkProcMon E C)
      → let r = set_proc_ev_subscription_status sys b m in
        Differs m r.0
        × (r.0.netlink_sock ≡ m.netlink_sock)
        × (r.1 ≡ (is_some m.netlink_sock && sys.sends))
  unfolding set_proc_ev_subscription_status
  status-Differs sys b m = grind counting

  close-Differs :
      (m : NetlinkProcMon E C)
      → Differs m (close_proc_netlink m) × ((close_proc_netlink m).netlink_sock ≡ none)
  unfolding close_proc_netlink
  close-Differs m = grind counting

  pub new-IsTidy : IsTidy (new {E = E} {C = C})
  unfolding new
  new-IsTidy = ground arith

  -- On a monitor that holds a socket exactly while it is started, Start keeps this and leaks no
  -- socket on any path. It succeeds exactly when the monitor was started already or the socket
  -- opens, binds and subscribes, and the monitor is started afterwards exactly when it succeeded.
  pub start-IsTidy :
      (sys : System) (m : NetlinkProcMon E C)
      → IsTidy m
      → IsTidy (start sys m).0
        × ((start sys m).1 ≡ (m.started || (is_some sys.socket && (sys.binds && sys.sends))))
        × ((start sys m).0.started ≡ (start sys m).1)
  unfolding start start_threads subscribe_to_proc_netlink
  start-IsTidy sys m t =
      let c = connect-Differs sys m in
      let connected = (connect_to_proc_netlink sys m).0 in
      let s = status-Differs sys true connected in
      let subscribed = (set_proc_ev_subscription_status sys true connected).0 in
      let d = close-Differs subscribed in ground arith

  -- On a monitor that holds a socket exactly while it is started, Stop keeps this, leaves the
  -- monitor not started, and then every socket that was opened is closed.
  pub stop-IsTidy :
      (sys : System) (m : NetlinkProcMon E C)
      → IsTidy m
      → IsTidy (stop sys m)
        × ((stop sys m).started ≡ false)
        × (opens (stop sys m).calls ≡ closes (stop sys m).calls)
  unfolding stop un_subscribe_to_proc_netlink
  stop-IsTidy sys m t =
      let s = status-Differs sys false m in
      let d = close-Differs (set_proc_ev_subscription_status sys false m).0 in ground arith

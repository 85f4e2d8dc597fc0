-- ===== src/Netlink/Sessions.antt =====
-- Any calls of `Start` and `Stop` of netlink/netlink_proc_mon.cpp, against a monitor that is only started
-- or not.
use cpp_done.Netlink.Socket.{is_some, opens, closes, IsTidy, new-IsTidy, start-IsTidy, stop-IsTidy}
use cpp_done.Netlink.{System, NetlinkProcMon, new, start, stop, destroy}
use cpp_done.Prelude.{
  ◌+◌, ◌≡◌, refl, ap, ◌∙◌, Bool, false, ◌&&◌, ◌||◌, List, [], ◌∷◌, arith, if◌then◌else◌,
}

-- a call, with what the operating system answers during it
pub data Visit : Type 0 where
  starts : System → Visit
  stops : System → Visit

module _ {E C : Type 0} where
  -- the results of the calls of `Start`, and the monitor
  unfoldable pub visits : List Visit → NetlinkProcMon E C → List Bool × NetlinkProcMon E C
  visits [] m = ([], m)
  visits (starts sys ∷ vs) m =
      let (next, ok) = start sys m in let (oks, last) = visits vs next in (ok ∷ oks, last)
  visits (stops sys ∷ vs) m = visits vs (stop sys m)

-- the socket opens and binds, and the subscription is sent
abbrev pub connects : System → Bool
connects sys = is_some sys.socket && (sys.binds && sys.sends)

-- The same of a monitor that is one bit: `Start` succeeds if it is set or the calls do.
abbrev pub ideal_visits : List Visit → Bool → List Bool × Bool
ideal_visits [] started = ([], started)
ideal_visits (starts sys ∷ vs) started =
    let now = started || connects sys in let (oks, last) = ideal_visits vs now in (now ∷ oks, last)
ideal_visits (stops sys ∷ vs) started = ideal_visits vs false

module _ {E C : Type 0} where
  visits-IsTidy :
      (vs : List Visit) (m : NetlinkProcMon E C)
      → IsTidy m
      → ((visits vs m).0 ≡ (ideal_visits vs m.started).0)
        × ((visits vs m).1.started ≡ (ideal_visits vs m.started).1)
        × IsTidy (visits vs m).1
  unfolding visits
  visits-IsTidy [] m t = (refl, refl, t)
  visits-IsTidy (starts sys ∷ vs) m t =
      let (tidy, ok, same) = start-IsTidy sys m t in
      let (oks, last, rest) = visits-IsTidy vs (start sys m).0 tidy in
      let now : (start sys m).0.started ≡ (m.started || connects sys) = same ∙ ok in
      (rw (oks, ok, now) refl, last ∙ ap (λ b. (ideal_visits vs b).1) now, rest)
  visits-IsTidy (stops sys ∷ vs) m t =
      let (tidy, off, _) = stop-IsTidy sys m t in
      let (oks, last, rest) = visits-IsTidy vs (stop sys m) tidy in
      (oks ∙ ap (λ b. (ideal_visits vs b).0) off, last ∙ ap (λ b. (ideal_visits vs b).1) off, rest)

  held_started :
      (m : NetlinkProcMon E C)
      → IsTidy m
      → opens m.calls ≡ closes m.calls + (if m.started then 1 else 0)
  held_started m t = ground (arith, t.no_leak, t.socket)

-- After any calls of Start and Stop on a new monitor, whatever the operating system answers, each
-- Start succeeded exactly if the monitor was started already or the socket opened, was bound and
-- was subscribed; the monitor is started exactly if a Start succeeded after the last Stop, and as
-- many sockets are open as it is started, one or none; and once the destructor has run, every
-- socket that was opened is closed.
pub visits-ideal :
    (E C : Type 0) (vs : List Visit)
    → let (oks, m) = visits vs (new {E = E} {C = C}) in
      (oks ≡ (ideal_visits vs false).0)
      × (m.started ≡ (ideal_visits vs false).1)
      × (opens m.calls ≡ closes m.calls + (if m.started then 1 else 0))
      × ((sys : System) → opens (destroy sys m).calls ≡ closes (destroy sys m).calls)
unfolding new destroy
visits-ideal E C vs =
    let (oks, last, tidy) = visits-IsTidy vs (new {E = E} {C = C}) new-IsTidy in
    (oks, last, held_started _ tidy, λ sys. (stop-IsTidy sys _ tidy).2)

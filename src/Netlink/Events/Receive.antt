-- ===== src/Netlink/Events/Receive.antt =====
-- What the queue of netlink/netlink_proc_mon.cpp holds after any messages of the receiving loop.
use cpp_done.Netlink.Events.{
  Recv, shutdown, failed, received, eintr, eagain, enobufs, proc_ev_queue_max_size, is_watched,
  push_event, recv_round, proc_ev_recv,
}
use cpp_done.Prelude.{
  ℕ, zero, suc, ◌+◌, ◌-◌, ◌≤◌, ◌≡◌, refl, ap, sym, ◌∙◌, inl, inr, true, ◌||◌, List, [], ◌∷◌, ◌++◌,
  arith, ltb, ◌==◌, if◌then◌else◌, length, length-append, drop, append_assoc, append-nil,
  Bool-cases,
}

-- what the queue may hold: one more than `kProcEvQueueMaxSize`
abbrev pub capacity : ℕ
capacity = proc_ev_queue_max_size + 1

module _ {E : Type 0} where
  -- the last `n` elements
  abbrev pub last_of : ℕ → List E → List E
  last_of n xs = drop (length xs - n) xs

  -- the watched events of the messages before the loop returns
  unfoldable pub heard : List (Recv E) → List E
  heard [] = []
  heard (shutdown ∷ rs) = []
  heard (failed errno ∷ rs) =
      if errno == eintr || (errno == enobufs || errno == eagain) then heard rs else []
  heard (received what ev ∷ rs) = if is_watched what then ev ∷ heard rs else heard rs

  drop-append_le : (n : ℕ) (xs ys : List E) → n ≤ length xs → drop n (xs ++ ys) ≡ drop n xs ++ ys
  drop-append_le zero xs ys h = refl
  drop-append_le (suc n) [] ys h = absurd (omega arith)
  drop-append_le (suc n) (x ∷ xs) ys h = drop-append_le n xs ys (omega arith)

  drop-suc : (n : ℕ) (xs : List E) → drop (suc n) xs ≡ drop 1 (drop n xs)
  drop-suc zero xs = refl
  drop-suc (suc n) [] = refl
  drop-suc (suc n) (x ∷ xs) = drop-suc n xs

  pub length-drop : (n : ℕ) (xs : List E) → length (drop n xs) ≡ length xs - n
  length-drop zero xs = omega arith
  length-drop (suc n) [] = omega arith
  length-drop (suc n) (x ∷ xs) = omega (arith, length-drop n xs)

  -- a push keeps the last events of the whole history
  push_event-last_of :
      (ev : E) (xs : List E)
      → push_event ev (last_of capacity xs) ≡ last_of capacity (xs ++ ev ∷ [])
  unfolding push_event
  push_event-last_of ev xs =
      let k = length xs - capacity in
      let longer = length-append xs (ev ∷ []) in
      elim (Bool-cases (ltb proc_ev_queue_max_size (length xs))) [
        | inl full ↦
            let over : ltb proc_ev_queue_max_size (length (drop k xs)) ≡ true =
              ground (arith, length-drop k xs) in
            let one_more : length (xs ++ ev ∷ []) - capacity ≡ suc k = ground arith in
            rw (over, one_more)
              (ap (λ ys. ys ++ ev ∷ []) (sym (drop-suc k xs))
                ∙ sym (drop-append_le (suc k) xs (ev ∷ []) (ground arith)))
        | inr room ↦
            let all : k ≡ 0 = ground arith in
            let none_more : length (xs ++ ev ∷ []) - capacity ≡ 0 = ground arith in
            rw (all, none_more, room)
      ]

  recv_round-heard :
      (rs : List (Recv E)) (xs : List E)
      → proc_ev_recv rs (last_of capacity xs) ≡ last_of capacity (xs ++ heard rs)
  unfolding proc_ev_recv recv_round heard
  recv_round-heard [] xs = rw (append-nil xs)
  recv_round-heard (shutdown ∷ rs) xs = rw (append-nil xs)
  recv_round-heard (failed errno ∷ rs) xs =
      elim (Bool-cases (errno == eintr || (errno == enobufs || errno == eagain))) [
        | inl e ↦ rw e (recv_round-heard rs xs)
        | inr e ↦ rw (e, append-nil xs)
      ]
  recv_round-heard (received what ev ∷ rs) xs = elim (Bool-cases (is_watched what)) [
    | inl e ↦
        rw (e, push_event-last_of ev xs)
          (recv_round-heard rs (xs ++ ev ∷ [])
            ∙ ap (last_of capacity) (append_assoc xs (ev ∷ []) (heard rs)))
    | inr e ↦ rw e (recv_round-heard rs xs)
  ]

  -- From a queue within its bound, the receiving loop over any results of recv leaves the last
  -- events, up to the bound, of the queue followed by the fork, exec and exit events that were
  -- received before the loop returned, and the queue stays within the bound.
  pub proc_ev_recv-heard :
      (rs : List (Recv E)) (queue : List E)
      → length queue ≤ capacity
      → (proc_ev_recv rs queue ≡ last_of capacity (queue ++ heard rs))
        × (length (proc_ev_recv rs queue) ≤ capacity)
  proc_ev_recv-heard rs queue h =
      let whole : length queue - capacity ≡ 0 = omega arith in
      let start : last_of capacity queue ≡ queue = ap (λ n. drop n queue) whole in
      let run : proc_ev_recv rs queue ≡ last_of capacity (queue ++ heard rs) =
        ap (proc_ev_recv rs) (sym start) ∙ recv_round-heard rs queue in
      (
        run,
        rw run (
            omega (arith, length-drop (length (queue ++ heard rs) - capacity) (queue ++ heard rs))),
      )

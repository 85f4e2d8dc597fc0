-- ===== src/Netlink/Callbacks.antt =====
-- The registered callbacks of netlink/netlink_proc_mon.cpp and their identifiers.
use cpp_done.Netlink.{
  NetlinkProcMon, EventCallbackInfo, generate_id, add_proc_ev_callback, remove_proc_ev_callback,
}
use cpp_done.Prelude.{
  ℕ, ◌+◌, ◌%◌, ◌^◌, ◌<◌, ◌≡◌, refl, Bool, not, Option, none, some, List, [], ◌∷◌, ◌++◌, arith, ◌==◌,
  if◌then◌else◌, All, All-append, keep, Bool-cases, inl, inr,
}

module _ {C : Type 0} where
  -- The identifiers rise along the list.
  abbrev pub IsRising : List (EventCallbackInfo C) → Type 0
  IsRising [] = Unit
  IsRising (c ∷ cs) = All (λ d. c.id < d.id) cs × IsRising cs

  abbrev pub callback_of : ℕ → List (EventCallbackInfo C) → Option (EventCallbackInfo C)
  callback_of i [] = none
  callback_of i (c ∷ cs) = if c.id == i then some c else callback_of i cs

  other : ℕ → EventCallbackInfo C → Bool
  other i c = not (c.id == i)

  IsRising-push :
      (cs : List (EventCallbackInfo C)) (d : EventCallbackInfo C)
      → IsRising cs
      → All (λ c. c.id < d.id) cs
      → IsRising (cs ++ d ∷ [])
  IsRising-push [] d r a = (tt, tt)
  IsRising-push (c ∷ cs) d r a =
      (All-append (λ e. c.id < e.id) cs (d ∷ []) r.0 (a.0, tt), IsRising-push cs d r.1 a.1)

  All-weaken :
      (m n : ℕ) (cs : List (EventCallbackInfo C))
      → m < n
      → All (λ c. c.id < m) cs
      → All (λ c. c.id < n) cs
  All-weaken m n [] h a = tt
  All-weaken m n (c ∷ cs) h a = (omega arith, All-weaken m n cs h a.1)

  All-keep {κ} :
      (P : EventCallbackInfo C → Type κ) (p : EventCallbackInfo C → Bool)
      (cs : List (EventCallbackInfo C))
      → All P cs
      → All P (keep p cs)
  All-keep P p [] a = tt
  All-keep P p (c ∷ cs) a = elim (Bool-cases (p c)) [
    | inl e ↦ rw (e, keep) (a.0, All-keep P p cs a.1)
    | inr e ↦ rw (e, keep) (All-keep P p cs a.1)
  ]

  IsRising-keep :
      (p : EventCallbackInfo C → Bool) (cs : List (EventCallbackInfo C))
      → IsRising cs
      → IsRising (keep p cs)
  IsRising-keep p [] r = tt
  IsRising-keep p (c ∷ cs) r = elim (Bool-cases (p c)) [
    | inl e ↦ rw (e, keep) (All-keep (λ d. c.id < d.id) p cs r.0, IsRising-keep p cs r.1)
    | inr e ↦ rw (e, keep) (IsRising-keep p cs r.1)
  ]

  keep-above :
      (i : ℕ) (cs : List (EventCallbackInfo C)) (d : EventCallbackInfo C)
      → d.id ≡ i
      → All (λ c. c.id < i) cs
      → keep (λ c. not (c.id == i)) (cs ++ d ∷ []) ≡ cs
  keep-above i [] d e a = ground arith
  keep-above i (c ∷ cs) d e a = ground (arith, keep-above i cs d e a.1)

  callback_of-keep :
      (i j : ℕ) (cs : List (EventCallbackInfo C))
      → callback_of j (keep (λ c. not (c.id == i)) cs) ≡ (if j == i then none else callback_of j cs)
  callback_of-keep i j [] = ground arith
  callback_of-keep i j (c ∷ cs) = ground (arith, callback_of-keep i j cs)

module _ {E C : Type 0} where
  -- All identifiers were handed out, each once.
  pub record IsRegistered (m : NetlinkProcMon E C) : Type 0 where
    pub rising : IsRising m.callbacks
    pub below : All (λ c. c.id < m.next_id) m.callbacks

  -- On a monitor whose callbacks have rising identifiers below the next one, and while the counter
  -- does not wrap, AddProcEvCallback keeps this, returns an identifier above all others, and
  -- removing that identifier restores the list of callbacks.
  pub add-remove :
      (f : Option C) (context : ℕ) (m : NetlinkProcMon E C)
      → IsRegistered m
      → m.next_id + 1 < 2 ^ 64
      → let r = add_proc_ev_callback f context m in
        IsRegistered r.0
        × All (λ c. c.id < r.1) m.callbacks
        × ((remove_proc_ev_callback r.1 r.0).callbacks ≡ m.callbacks)
  unfolding add_proc_ev_callback remove_proc_ev_callback generate_id
  add-remove f context m v h =
      let info : EventCallbackInfo C = record { id = m.next_id; callback = f; context = context } in
      let next : (m.next_id + 1) % 2 ^ 64 ≡ m.next_id + 1 = omega arith in
      (
        record {
          rising = IsRising-push m.callbacks info v.rising v.below;
          below = rw next (
              All-append (λ c. c.id < m.next_id + 1) m.callbacks (info ∷ [])
                (All-weaken m.next_id (m.next_id + 1) m.callbacks (omega arith) v.below)
                (omega arith, tt));
        },
        v.below,
        keep-above m.next_id m.callbacks info refl v.below,
      )

  -- On a monitor whose callbacks have rising identifiers below the next one, RemoveProcEvCallback
  -- keeps this, no callback has the identifier afterwards, and every other identifier keeps its
  -- callback.
  pub remove-callback_of :
      (i : ℕ) (m : NetlinkProcMon E C)
      → IsRegistered m
      → IsRegistered (remove_proc_ev_callback i m)
        × ((j : ℕ)
            → callback_of j (remove_proc_ev_callback i m).callbacks
              ≡ (if j == i then none else callback_of j m.callbacks))
  unfolding remove_proc_ev_callback
  remove-callback_of i m v = (
    record {
      rising = IsRising-keep (λ c. not (c.id == i)) m.callbacks v.rising;
      below = All-keep (λ c. c.id < m.next_id) (λ c. not (c.id == i)) m.callbacks v.below;
    },
    λ j. callback_of-keep i j m.callbacks,
  )

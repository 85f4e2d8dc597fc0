-- ===== src/WorkPool/Worker/Asleep.antt =====
-- What does not wake a worker of thread_pool/thread_pool.cpp: `PushWork` never notifies, and the
-- notification of `StopWork` may come before the wait.
use cpp_done.Prelude.{
  ℕ, ◌≡◌, ◌≢◌, ◌⊎◌, inl, refl, sym, ap, ◌∙◌, Bool, true, false, Option, List, [], ◌∷◌, ◌++◌, arith,
  append_assoc, append-nil,
}
use cpp_done.WorkPool.Worker.{
  unfulfilled, waiting, returned, Worker, wake_place, stop_work, push_work, Step, asks, pushes,
  deletes, stops, finds_nothing, waits, wakes, returns, takes, skips_null, skips, clears,
  does_nothing, calls, ends,
}

-- a wake without a notification, or a stop
abbrev pub is_wakeup : {callback : ℕ → Bool} {v w : Worker} → Step callback v w → Bool
is_wakeup (asks ptr) = false
is_wakeup (pushes before after ptr e l) = false
is_wakeup (deletes work) = false
is_wakeup stops = true
is_wakeup (finds_nothing e s n) = false
is_wakeup (waits e) = false
is_wakeup (wakes e) = true
is_wakeup (returns e s) = false
is_wakeup (takes ptr rest e s n) = false
is_wakeup (skips_null e) = false
is_wakeup (skips work e s) = false
is_wakeup (clears work e s) = false
is_wakeup (does_nothing work e c) = false
is_wakeup (calls work e c) = false
is_wakeup (ends work e) = false

-- steps none of which is a wakeup
pub data Quiet (callback : ℕ → Bool) (v : Worker) : Worker → Type 0 where
  here : Quiet callback v v
  next :
      {u w : Worker}
      → Quiet callback v u
      → (s : Step callback u w) → is_wakeup s ≡ false
      → Quiet callback v w

abbrev pub IsDown : Worker → Type 0
IsDown w = (w.place ≡ unfulfilled) ⊎ (w.place ≡ waiting)

-- the worker stays down, and does nothing but collect works
pub record Sleeps (v w : Worker) : Type 0 where
  pub down : IsDown w
  pub same_taken : w.taken ≡ v.taken
  pub same_called : w.called ≡ v.called
  pub same_stoped : w.stoped ≡ v.stoped
  pub more : (ws : List (Option ℕ)) × (w.works ≡ v.works ++ ws)

unmoved : (v w : Worker) → w.works ≡ v.works → (ws : List (Option ℕ)) × (w.works ≡ v.works ++ ws)
unmoved v w e = ([], e ∙ sym (append-nil v.works))

quiet-Sleeps :
    {callback : ℕ → Bool} {v u w : Worker}
    → Sleeps v u
    → (s : Step callback u w) → is_wakeup s ≡ false
    → Sleeps v w
unfolding push_work
quiet-Sleeps z (asks ptr) n = ground arith
quiet-Sleeps {v = v} {u = u} z (pushes before after ptr e l) n = record {
  down = z.down;
  same_taken = z.same_taken;
  same_called = z.same_called;
  same_stoped = z.same_stoped;
  more =
      let (ws, same) = z.more in
      (ws ++ ptr ∷ [], ap (λ l. l ++ ptr ∷ []) same ∙ append_assoc v.works ws (ptr ∷ []));
}
quiet-Sleeps z (deletes work) n = ground arith
quiet-Sleeps z stops n = absurd cc
quiet-Sleeps z (finds_nothing e s m) n = ground arith
quiet-Sleeps z (waits e) n = ground arith
quiet-Sleeps z (wakes e) n = absurd cc
quiet-Sleeps z (returns e s) n = ground arith
quiet-Sleeps z (takes ptr rest e s m) n = ground arith
quiet-Sleeps z (skips_null e) n = ground arith
quiet-Sleeps z (skips work e s) n = ground arith
quiet-Sleeps z (clears work e s) n = ground arith
quiet-Sleeps z (does_nothing work e c) n = ground arith
quiet-Sleeps z (calls work e c) n = ground arith
quiet-Sleeps z (ends work e) n = ground arith

-- A thread that waits, or is about to, stays there while no one stops it again and the wait does
-- not end by itself, also where a StopWork came just before the wait: works that are pushed
-- collect in the queue, none is taken and none called.
pub Quiet-Sleeps : {callback : ℕ → Bool} {v w : Worker} → IsDown v → Quiet callback v w → Sleeps v w
Quiet-Sleeps {v = v} d here = record {
  down = d;
  same_taken = refl;
  same_called = refl;
  same_stoped = refl;
  more = unmoved v v refl;
}
Quiet-Sleeps d (next s t n) = quiet-Sleeps (Quiet-Sleeps d s) t n

-- If StopWork comes after the thread has found the predicate false and before it waits, then
-- without a wake that has no notification and without another stop the thread never returns.
pub stop_work-Quiet :
    {callback : ℕ → Bool} (v : Worker) {w : Worker}
    → v.place ≡ unfulfilled
    → Quiet callback (stop_work v) w
    → (w.stoped ≡ true) × (w.place ≢ returned)
unfolding stop_work
stop_work-Quiet v e s =
    let z = Quiet-Sleeps (inl (ap wake_place e)) s in (z.same_stoped, ground (arith, z.down))

-- ===== src/Timer/Workers.antt =====
-- The worker threads of timer/timer.cpp and the table of the times at which they were last seen. A worker
-- enters itself in the table under `thread_active_tablock_`, and renews its time without that lock.
use cpp_done.Prelude.{
  ℕ, ◌≡◌, ◌⊎◌, refl, Bool, true, false, Option, none, some, arith, ◌==◌, ==_iff, if◌then◌else◌,
}

-- Where a thread stands: not there, before the lock, under it, at the test of its loop, in `run_for`,
-- before the renewal, and returned.
pub data Place : Type 0 where
  absent starting registering testing running renewing returned : Place

-- A thread is its number.
pub record Workers : Type 0 where
  pub place : ℕ → Place
  -- `thread_active_tablock_`
  pub holder : Option ℕ
  -- `thread_active_timetab_`
  pub seen : ℕ → Option ℕ
  pub io_stopped : Bool

abbrev set_at {ℓ} : {A : Type ℓ} → ℕ → A → (ℕ → A) → ℕ → A
set_at id a f other = if other == id then a else f other

unfoldable pub new : Workers
new = record { place = λ _. absent; holder = none; seen = λ _. none; io_stopped = false }

unfoldable pub move : ℕ → Place → Workers → Workers
move id p w = record w { place = set_at id p w.place }

unfoldable pub see : ℕ → ℕ → Workers → Workers
see id time w = record w { seen = set_at id (some time) w.seen }

pub data Step (w : Workers) : Workers → Type 0 where
  -- `Start` makes a thread
  spawns : (id : ℕ) → w.place id ≡ absent → Step w (move id starting w)
  -- the thread takes the lock, enters itself, and lets go
  locks :
      (id : ℕ)
      → w.place id ≡ starting
      → w.holder ≡ none
      → Step w (record (move id registering w) { holder = some id })
  registers :
      (id time : ℕ)
      → w.place id ≡ registering
      → Step w (record (see id time (move id testing w)) { holder = none })
  -- the loop
  enters : (id : ℕ) → w.place id ≡ testing → w.io_stopped ≡ false → Step w (move id running w)
  leaves : (id : ℕ) → w.place id ≡ testing → w.io_stopped ≡ true → Step w (move id returned w)
  runs_for : (id : ℕ) → w.place id ≡ running → Step w (move id renewing w)
  renews : (id time : ℕ) → w.place id ≡ renewing → Step w (see id time (move id testing w))
  -- `io_context_.stop()` and `restart()`
  stops : Step w (record w { io_stopped = true })
  restarts : Step w (record w { io_stopped = false })
  -- the end of `Stop`, after all joins
  clears :
      ((id : ℕ) → (w.place id ≡ absent) ⊎ (w.place id ≡ returned))
      → Step w (record w { place = λ _. absent; seen = λ _. none })

pub data Reach : Workers → Type 0 where
  first : Reach new
  next : {w v : Workers} → Reach w → Step w v → Reach v

-- The thread has entered itself.
abbrev pub is_entered : Place → Bool
is_entered absent = false
is_entered starting = false
is_entered registering = false
is_entered testing = true
is_entered running = true
is_entered renewing = true
is_entered returned = true

abbrev pub is_registering : Place → Bool
is_registering registering = true
is_registering absent = false
is_registering starting = false
is_registering testing = false
is_registering running = false
is_registering renewing = false
is_registering returned = false

abbrev pub is_seen : Option ℕ → Bool
is_seen none = false
is_seen (some time) = true

pub record IsEntered (w : Workers) : Type 0 where
  -- so that a renewal finds its entry, and adds none
  pub entered : (id : ℕ) → is_seen (w.seen id) ≡ is_entered (w.place id)
  -- one thread at a time adds an entry
  pub alone : (id : ℕ) → is_registering (w.place id) ≡ true → w.holder ≡ some id

-- a thread moves on, and the lock and the table stay
move-IsEntered :
    {w : Workers} (id : ℕ) (p : Place)
    → is_entered p ≡ is_entered (w.place id)
    → is_registering p ≡ false
    → IsEntered w
    → IsEntered (move id p w)
unfolding move
move-IsEntered id p same quiet i = record {
  entered = λ k. ground (arith, i.entered k, ==_iff k id);
  alone = λ k h. ground (arith, i.alone k, ==_iff k id);
}

Step-IsEntered : {w v : Workers} → Step w v → IsEntered w → IsEntered v
unfolding move see
Step-IsEntered (spawns id e) i = move-IsEntered id starting (rw e) refl i
Step-IsEntered (enters id e go) i = move-IsEntered id running (rw e) refl i
Step-IsEntered (leaves id e end) i = move-IsEntered id returned (rw e) refl i
Step-IsEntered (runs_for id e) i = move-IsEntered id renewing (rw e) refl i
Step-IsEntered (locks id e free) i = record {
  entered = λ k. ground (arith, i.entered k, ==_iff k id);
  alone = λ k h. ground (arith, i.alone k, ==_iff k id);
}
Step-IsEntered (registers id time e) i = record {
  entered = λ k. ground (arith, i.entered k, ==_iff k id);
  alone = λ k h. ground (arith, i.alone k, i.alone id, ==_iff k id);
}
Step-IsEntered (renews id time e) i = record {
  entered = λ k. ground (arith, i.entered k, ==_iff k id);
  alone = λ k h. ground (arith, i.alone k, ==_iff k id);
}
Step-IsEntered stops i = record { entered = i.entered; alone = i.alone }
Step-IsEntered restarts i = record { entered = i.entered; alone = i.alone }
Step-IsEntered (clears over) i = record { entered = λ k. refl; alone = λ k h. absurd cc }

-- After any steps of the worker threads and of Start and Stop, the threads in the table are
-- exactly those that have entered themselves, so that a renewal of a time without the lock adds no
-- entry, and of all threads only the one that holds the lock adds itself.
pub Reach-IsEntered : {w : Workers} → Reach w → IsEntered w
unfolding new
Reach-IsEntered first = record { entered = λ k. refl; alone = λ k h. absurd cc }
Reach-IsEntered (next r s) = Step-IsEntered s (Reach-IsEntered r)

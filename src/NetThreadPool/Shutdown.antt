-- ===== src/NetThreadPool/Shutdown.antt =====
-- The joins in `stop` of http_client/thread_pool.cpp: how the threads return, if every task ends.
use cpp_done.NetThreadPool.{
  ThreadPool, new, set_max_queue_size, start, stop, pop, Step, calls, pushes, blocks, rouses, stops,
  enters, exits, sleeps, wakes, takes_none, takes, takes_and_notifies, finishes, Reach,
}
use cpp_done.NetThreadPool.Safety.{IsSafe, Step-IsSafe, Reach-IsSafe}
use cpp_done.Prelude.{
  ℕ, zero, suc, ◌+◌, ◌*◌, ◌<◌, ◌≡◌, refl, ap, ◌⊎◌, inl, inr, Bool, true, false, List, [], ◌∷◌,
  arith, length, length-append,
}
use cpp_done.Std.Ends.{Ends, falling-Ends}

pub zero_or_pos : (n : ℕ) → (n ≡ 0) ⊎ (0 < n)
zero_or_pos zero = inl refl
zero_or_pos (suc n) = inr (omega arith)

module _ {T : Type 0} where
  -- a step of a thread of the pool, which is not a call of `run` or `stop`
  abbrev pub is_own : {p q : ThreadPool T} → Step p q → Bool
  is_own (calls task) = false
  is_own (pushes before after task e f) = false
  is_own (blocks before after task e f) = false
  is_own (rouses before after task e) = false
  is_own stops = false
  is_own (enters h r) = true
  is_own (exits h r) = true
  is_own (sleeps h e r) = true
  is_own (wakes h) = true
  is_own (takes_none h e r) = true
  is_own (takes task rest h e f) = true
  is_own (takes_and_notifies task rest before after waiter h e m b) = true
  is_own (finishes before after task e) = true

  abbrev pub Own : ThreadPool T → ThreadPool T → Type 0
  Own p q = (s : Step p q) × (is_own s ≡ true)

  -- such a step that is no end of a wait without a notification
  abbrev pub is_prompted : {p q : ThreadPool T} → Step p q → Bool
  is_prompted (calls task) = false
  is_prompted (pushes before after task e f) = false
  is_prompted (blocks before after task e f) = false
  is_prompted (rouses before after task e) = false
  is_prompted stops = false
  is_prompted (enters h r) = true
  is_prompted (exits h r) = true
  is_prompted (sleeps h e r) = true
  is_prompted (wakes h) = false
  is_prompted (takes_none h e r) = true
  is_prompted (takes task rest h e f) = true
  is_prompted (takes_and_notifies task rest before after waiter h e m b) = true
  is_prompted (finishes before after task e) = true

  abbrev pub Prompted : ThreadPool T → ThreadPool T → Type 0
  Prompted p q = (s : Step p q) × (is_prompted s ≡ true)

  -- every thread has returned
  abbrev pub AllReturned : ThreadPool T → Type 0
  AllReturned p = p.exited ≡ p.threads

  -- how far the threads are from their return
  abbrev measure : ThreadPool T → ℕ
  measure p = p.at_test + 2 * length p.executing + 3 * p.taking + 4 * p.sleeping

  prompted_falls :
      {p q : ThreadPool T} (s : Step p q)
      → is_prompted s ≡ true
      → p.running ≡ false
      → (measure q < measure p) × (q.running ≡ false)
  unfolding pop
  prompted_falls (calls task) o h = absurd cc
  prompted_falls (pushes before after task e f) o h = absurd cc
  prompted_falls (blocks before after task e f) o h = absurd cc
  prompted_falls (rouses before after task e) o h = absurd cc
  prompted_falls stops o h = absurd cc
  prompted_falls (enters m r) o h = absurd cc
  prompted_falls (exits m r) o h = (omega arith, h)
  prompted_falls (sleeps m e r) o h = absurd cc
  prompted_falls (wakes m) o h = absurd cc
  prompted_falls (takes_none m e r) o h = (omega arith, h)
  prompted_falls {p} (takes task rest m e f) o h =
      (omega (arith, length-append p.executing (task ∷ [])), h)
  prompted_falls {p} (takes_and_notifies task rest before after waiter m e n b) o h =
      (omega (arith, length-append p.executing (task ∷ [])), h)
  prompted_falls {p} (finishes before after task e) o h = (
    omega (arith, ap length e, length-append before (task ∷ after), length-append before after),
    h,
  )

  pub own_running : {p q : ThreadPool T} (s : Step p q) → is_own s ≡ true → q.running ≡ p.running
  unfolding pop
  own_running (calls task) o = absurd cc
  own_running (pushes before after task e f) o = absurd cc
  own_running (blocks before after task e f) o = absurd cc
  own_running (rouses before after task e) o = absurd cc
  own_running stops o = absurd cc
  own_running (enters m r) o = refl
  own_running (exits m r) o = refl
  own_running (sleeps m e r) o = refl
  own_running (wakes m) o = refl
  own_running (takes_none m e r) o = refl
  own_running (takes task rest m e f) o = refl
  own_running (takes_and_notifies task rest before after waiter m e n b) o = refl
  own_running (finishes before after task e) o = refl

  -- threads that have returned take no more steps
  pub returned_rest :
      {p q : ThreadPool T}
      → p.at_test + p.taking + p.sleeping + p.exited + length p.executing ≡ p.threads
      → AllReturned p
      → (s : Step p q) → ¬ (is_own s ≡ true)
  unfolding pop
  returned_rest c a (calls task) o = absurd cc
  returned_rest c a (pushes before after task e f) o = absurd cc
  returned_rest c a (blocks before after task e f) o = absurd cc
  returned_rest c a (rouses before after task e) o = absurd cc
  returned_rest c a stops o = absurd cc
  returned_rest c a (enters m r) o = omega arith
  returned_rest c a (exits m r) o = omega arith
  returned_rest c a (sleeps m e r) o = omega arith
  returned_rest c a (wakes m) o = omega arith
  returned_rest c a (takes_none m e r) o = omega arith
  returned_rest c a (takes task rest m e f) o = omega arith
  returned_rest c a (takes_and_notifies task rest before after waiter m e n b) o = omega arith
  returned_rest c a (finishes before after task e) o =
      omega (arith, ap length e, length-append before (task ∷ after))

  -- a thread that takes finds a task or none, and a caller to notify or none
  take_next :
      (p : ThreadPool T) (queue blocked : List T)
      → p.queue ≡ queue
      → p.blocked ≡ blocked
      → 0 < p.taking
      → p.running ≡ false
      → (q : ThreadPool T) × Prompted p q
  take_next p [] blocked e b h r = (_, (takes_none h e r, refl))
  take_next p (task ∷ rest) [] e b h r = (_, (takes task rest h e (inr b), refl))
  take_next p (task ∷ rest) (waiter ∷ after) e b h r = elim (zero_or_pos p.max_queue_size) [
    | inl z ↦ (_, (takes task rest h e (inl z), refl))
    | inr m ↦ (_, (takes_and_notifies task rest [] after waiter h e m b, refl))
  ]

  finish_next :
      (p : ThreadPool T) (executing : List T)
      → p.executing ≡ executing
      → (executing ≡ []) ⊎ ((q : ThreadPool T) × Prompted p q)
  finish_next p [] e = inl refl
  finish_next p (task ∷ rest) e = inr (_, (finishes [] rest task e, refl))

  further_step :
      (p : ThreadPool T)
      → p.running ≡ false
      → p.sleeping ≡ 0
      → p.at_test + p.taking + p.sleeping + p.exited + length p.executing ≡ p.threads
      → AllReturned p ⊎ ((q : ThreadPool T) × Prompted p q)
  further_step p r no_sleep counted = elim (zero_or_pos p.at_test) [
    | inr h ↦ inr (_, (exits h r, refl))
    | inl no_test ↦ elim (zero_or_pos p.taking) [
      | inr h ↦ inr (take_next p p.queue p.blocked refl refl h r)
      | inl no_take ↦ elim (finish_next p p.executing refl) [
        | inr more ↦ inr more
        | inl idle ↦ inl (omega (arith, ap length idle))
      ]
    ]
  ]

  pub stopped-AllReturned :
      (p : ThreadPool T) → p.running ≡ false → IsSafe p → Ends Prompted AllReturned p
  stopped-AllReturned p r safe =
      falling-Ends Prompted AllReturned measure (λ q. (q.running ≡ false) × IsSafe q)
        (λ q v k t.
          let (less, still) = prompted_falls t.0 t.1 k.0 in (less, (still, Step-IsSafe t.0 k.1)))
        (λ q k. further_step q k.0 (k.1.stopped k.0) k.1.counted) p (r, safe)

  -- After `stop`, in any state that a new pool reaches, the threads have a next step until all of
  -- them have returned, and they return after finitely many of their own steps, ends of waits
  -- without a notification not among them.
  pub stop-AllReturned :
      (num_threads size : ℕ) {p : ThreadPool T}
      → Reach (start num_threads (set_max_queue_size size new)) p
      → Ends Prompted AllReturned (stop p)
  unfolding stop
  stop-AllReturned num_threads size {p} r =
      stopped-AllReturned (stop p) refl (Step-IsSafe stops (Reach-IsSafe num_threads size r))

-- ===== src/NetThreadPool/Safety.antt =====
-- What holds of the pool of http_client/thread_pool.cpp after any steps of its callers and threads.
use cpp_done.NetThreadPool.{
  ThreadPool, new, set_max_queue_size, start, stop, is_full, notify_not_empty, push, run, pop, Step,
  calls, pushes, blocks, rouses, stops, enters, exits, sleeps, wakes, takes_none, takes,
  takes_and_notifies, finishes, Reach, here, next,
}
use cpp_done.Prelude.{
  ℕ, ◌+◌, ◌≤◌, ◌<◌, ◌≡◌, refl, ap, ◌∙◌, ◌⊎◌, inl, inr, true, false, List, [], ◌∷◌, ◌++◌, arith,
  length, length-append, append_assoc,
}

module _ {T : Type 0} where
  pub record IsSafe (p : ThreadPool T) : Type 0 where
    -- tasks are taken in the order in which they were pushed, each once
    pub fifo : p.taken ++ p.queue ≡ p.accepted
    pub bounded : 0 < p.max_queue_size → length p.queue ≤ p.max_queue_size
    -- every task that was taken is executing or done
    pub kept : 0 < p.threads → length p.taken ≡ length p.executing + length p.done
    pub counted : p.at_test + p.taking + p.sleeping + p.exited + length p.executing ≡ p.threads
    -- no task waits for a sleeping thread that nobody will wake
    pub attended : (p.sleeping ≡ 0) ⊎ (length p.queue ≤ p.at_test + p.taking + length p.executing)
    pub stopped : p.running ≡ false → p.sleeping ≡ 0
    pub staffed : p.running ≡ true → p.exited ≡ 0
    -- no caller waits for room that nobody will tell it of
    pub heeded : (p.blocked ≡ []) ⊎ (p.max_queue_size ≤ length p.queue + length p.calling)

  pub Step-IsSafe : {p q : ThreadPool T} → Step p q → IsSafe p → IsSafe q
  unfolding run push notify_not_empty is_full stop pop
  Step-IsSafe {p} (calls task) v =
      ground (arith, length-append p.done (task ∷ []), length-append p.calling (task ∷ []))
  Step-IsSafe {p} (pushes before after task e f) v = ground (
    arith,
    ap length e,
    length-append before (task ∷ after),
    length-append before after,
    length-append p.queue (task ∷ []),
    append_assoc p.taken p.queue (task ∷ []),
  )
  Step-IsSafe (blocks before after task e f) v = ground arith
  Step-IsSafe {p} (rouses before after task e) v =
      ground (
        arith,
        ap length e,
        length-append before (task ∷ after),
        length-append p.calling (task ∷ []),
      )
  Step-IsSafe stops v = ground arith
  Step-IsSafe (enters h r) v = ground arith
  Step-IsSafe (exits h r) v = ground arith
  Step-IsSafe (sleeps h e r) v = ground (arith, ap length e)
  Step-IsSafe (wakes h) v = ground arith
  Step-IsSafe (takes_none h e r) v = ground arith
  Step-IsSafe {p} (takes task rest h e f) v = ground (
    arith,
    ap length e,
    append_assoc p.taken (task ∷ []) rest,
    length-append p.taken (task ∷ []),
    length-append p.executing (task ∷ []),
  )
  Step-IsSafe {p} (takes_and_notifies task rest before after waiter h e m b) v = ground (
    arith,
    ap length e,
    ap length b,
    length-append before (waiter ∷ after),
    length-append p.calling (waiter ∷ []),
    append_assoc p.taken (task ∷ []) rest,
    length-append p.taken (task ∷ []),
    length-append p.executing (task ∷ []),
  )
  Step-IsSafe {p} (finishes before after task e) v = ground (
    arith,
    ap length e,
    length-append before (task ∷ after),
    length-append before after,
    length-append p.done (task ∷ []),
  )

  -- After any steps of the callers and threads of a new pool with any number of threads and any
  -- queue limit, tasks were taken in the order in which they were pushed, each once, the queue is
  -- within its limit, every task taken from a pool with threads is executing or done, every thread
  -- is at one place, no thread sleeps while there are more queued tasks than threads awake, no
  -- caller waits while the tasks in the queue and the callers about to look again are fewer than
  -- the limit, no thread has returned while the pool runs, and after a stop no thread sleeps.
  pub Reach-IsSafe :
      (num_threads size : ℕ) {p : ThreadPool T}
      → Reach (start num_threads (set_max_queue_size size new)) p
      → IsSafe p
  unfolding start set_max_queue_size new
  Reach-IsSafe num_threads size here = ground arith
  Reach-IsSafe num_threads size (next r s) = Step-IsSafe s (Reach-IsSafe num_threads size r)

  Step-threads : {p q : ThreadPool T} → Step p q → q.threads ≡ p.threads
  unfolding run push notify_not_empty stop pop
  Step-threads (calls task) = ground arith
  Step-threads (pushes before after task e f) = ground arith
  Step-threads (blocks before after task e f) = refl
  Step-threads (rouses before after task e) = refl
  Step-threads stops = refl
  Step-threads (enters h r) = refl
  Step-threads (exits h r) = refl
  Step-threads (sleeps h e r) = refl
  Step-threads (wakes h) = refl
  Step-threads (takes_none h e r) = refl
  Step-threads (takes task rest h e f) = refl
  Step-threads (takes_and_notifies task rest before after waiter h e m b) = refl
  Step-threads (finishes before after task e) = refl

  pub Reach-threads : {p q : ThreadPool T} → Reach p q → q.threads ≡ p.threads
  Reach-threads here = refl
  Reach-threads (next r s) = Step-threads s ∙ Reach-threads r

  empty_or_longer : (xs : List T) → xs ≡ [] ⊎ (0 < length xs)
  empty_or_longer [] = inl refl
  empty_or_longer (x ∷ xs) = inr (omega arith)

  -- In every state that a pool started with at least one thread reaches while it runs, the tasks
  -- taken and queued are those accepted in their order, and if a task is queued then some thread
  -- is awake: at the test of its loop, in take, or executing a task.
  pub Reach-served :
      (num_threads size : ℕ) {p : ThreadPool T}
      → Reach (start num_threads (set_max_queue_size size new)) p
      → 0 < num_threads
      → p.running ≡ true
      → (p.taken ++ p.queue ≡ p.accepted)
        × (p.queue ≡ [] ⊎ (0 < p.at_test + p.taking + length p.executing))
  unfolding start set_max_queue_size new
  Reach-served num_threads size {p} r h e =
      let v : IsSafe p = Reach-IsSafe num_threads size r in
      elim (empty_or_longer p.queue) [
        | inl z ↦ (v.fifo, inl z)
        | inr l ↦ (v.fifo, inr (ground (arith, Reach-threads r)))
      ]

-- ===== src/NetThreadPool/Kept.antt =====
-- The tasks that the threads of http_client/thread_pool.cpp take are those that they execute.
use cpp_done.NetThreadPool.Conserved.{weigh, weigh-append, weigh-middle}
use cpp_done.NetThreadPool.Safety.{IsSafe, Reach-IsSafe}
use cpp_done.NetThreadPool.{
  ThreadPool, new, set_max_queue_size, start, stop, notify_not_empty, push, run, pop, Step, calls,
  pushes, blocks, rouses, stops, enters, exits, sleeps, wakes, takes_none, takes,
  takes_and_notifies, finishes, Reach, here, next,
}
use cpp_done.Prelude.{ℕ, ◌+◌, ◌<◌, ◌≡◌, [], ◌∷◌, arith}

module _ {T : Type 0} where
  -- the tasks taken from a pool with threads, by their weights
  abbrev pub Kept : (T → ℕ) → ThreadPool T → Type 0
  Kept f p = 0 < p.threads → weigh f p.taken ≡ weigh f p.executing + weigh f p.done

  Step-Kept : (f : T → ℕ) {p q : ThreadPool T} → Step p q → Kept f p → Kept f q
  unfolding run push notify_not_empty stop pop
  Step-Kept f {p} (calls task) k = ground (arith, weigh-append f p.done (task ∷ []))
  Step-Kept f (pushes before after task e n) k = ground arith
  Step-Kept f (blocks before after task e n) k = k
  Step-Kept f (rouses before after task e) k = k
  Step-Kept f stops k = k
  Step-Kept f (enters h r) k = k
  Step-Kept f (exits h r) k = k
  Step-Kept f (sleeps h e r) k = k
  Step-Kept f (wakes h) k = k
  Step-Kept f (takes_none h e r) k = k
  Step-Kept f {p} (takes task rest h e n) k =
      ground (arith, weigh-append f p.executing (task ∷ []), weigh-append f p.taken (task ∷ []))
  Step-Kept f {p} (takes_and_notifies task rest before after waiter h e m b) k =
      ground (arith, weigh-append f p.executing (task ∷ []), weigh-append f p.taken (task ∷ []))
  Step-Kept f {p} (finishes before after task e) k =
      ground
        (arith, weigh-middle f p.executing before after task e, weigh-append f p.done (task ∷ []))

  Reach-Kept :
      (f : T → ℕ) (num_threads size : ℕ) {p : ThreadPool T}
      → Reach (start num_threads (set_max_queue_size size new)) p
      → Kept f p
  unfolding start set_max_queue_size new
  Reach-Kept f num_threads size here = λ h. omega arith
  Reach-Kept f num_threads size (next r s) = Step-Kept f s (Reach-Kept f num_threads size r)

  -- After any steps of the callers and threads of a new pool with any number of threads and any
  -- queue limit, tasks were taken in the order in which they were pushed, each once, the queue is
  -- within its limit, the tasks taken from a pool with threads are those executing and those done,
  -- each as often, every thread is at one place, no thread sleeps while there are more queued
  -- tasks than threads awake, no caller waits while the tasks in the queue and the callers about
  -- to look again are fewer than the limit, no thread has returned while the pool runs, and after
  -- a stop no thread sleeps.
  pub Reach-IsSafe-Kept :
      (num_threads size : ℕ) {p : ThreadPool T}
      → Reach (start num_threads (set_max_queue_size size new)) p
      → IsSafe p × ((f : T → ℕ) → Kept f p)
  Reach-IsSafe-Kept num_threads size r =
      (Reach-IsSafe num_threads size r, λ f. Reach-Kept f num_threads size r)

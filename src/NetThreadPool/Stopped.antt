-- ===== src/NetThreadPool/Stopped.antt =====
-- The pool of http_client/thread_pool.cpp after `stop`.
use cpp_done.NetThreadPool.{
  ThreadPool, new, set_max_queue_size, start, stop, notify_not_empty, push, run, pop, Step, calls,
  pushes, blocks, rouses, stops, enters, exits, sleeps, wakes, takes_none, takes,
  takes_and_notifies, finishes, Reach, here, next,
}
use cpp_done.NetThreadPool.Safety.{IsSafe, Step-IsSafe, Reach-IsSafe}
use cpp_done.Prelude.{
  ℕ, ◌<◌, ◌≡◌, refl, ap, sym, ◌∙◌, false, [], ◌∷◌, ◌++◌, arith, length, length-append,
}

module _ {T : Type 0} where
  Step-running : {p q : ThreadPool T} → Step p q → p.running ≡ false → q.running ≡ false
  unfolding run push notify_not_empty stop pop
  Step-running (calls task) e = ground arith
  Step-running (pushes before after task e f) v = ground arith
  Step-running (blocks before after task e f) v = ground arith
  Step-running (rouses before after task e) v = ground arith
  Step-running stops v = refl
  Step-running (enters h r) v = v
  Step-running (exits h r) v = v
  Step-running (sleeps h e r) v = v
  Step-running (wakes h) v = v
  Step-running (takes_none h e r) v = v
  Step-running (takes task rest h e f) v = v
  Step-running (takes_and_notifies task rest before after waiter h e m b) v = v
  Step-running (finishes before after task e) v = v

  -- every thread has returned from `runInThread`
  unfoldable pub IsOver : ThreadPool T → Type 0
  IsOver p = (0 < p.threads) × (p.exited ≡ p.threads)

  over-idle :
      (p : ThreadPool T)
      → IsSafe p
      → IsOver p
      → (p.at_test ≡ 0) × (p.taking ≡ 0) × (p.sleeping ≡ 0) × (p.executing ≡ [])
  unfolding IsOver
  over-idle p v o = ground arith

  Step-IsOver :
      {p q : ThreadPool T}
      → Step p q
      → IsSafe p
      → IsOver p
      → IsOver q × (q.taken ≡ p.taken) × (q.done ≡ p.done)
  unfolding IsOver run push notify_not_empty stop pop
  Step-IsOver {p} (calls task) v o = ground (arith, over-idle p v o)
  Step-IsOver {p} (pushes before after task e f) v o = ground (arith, over-idle p v o)
  Step-IsOver {p} (blocks before after task e f) v o = ground (arith, over-idle p v o)
  Step-IsOver {p} (rouses before after task e) v o = ground (arith, over-idle p v o)
  Step-IsOver {p} stops v o = ground (arith, over-idle p v o)
  Step-IsOver {p} (enters h r) v o = ground (arith, over-idle p v o)
  Step-IsOver {p} (exits h r) v o = ground (arith, over-idle p v o)
  Step-IsOver {p} (sleeps h e r) v o = ground (arith, over-idle p v o)
  Step-IsOver {p} (wakes h) v o = ground (arith, over-idle p v o)
  Step-IsOver {p} (takes_none h e r) v o = ground (arith, over-idle p v o)
  Step-IsOver {p} (takes task rest h e f) v o = ground (arith, over-idle p v o)
  Step-IsOver {p} (takes_and_notifies task rest before after waiter h e m b) v o =
      ground (arith, over-idle p v o)
  Step-IsOver {p} (finishes before after task e) v o =
      ground (arith, over-idle p v o, ap length e, length-append before (task ∷ after))

  idle-IsOver :
      {p q : ThreadPool T}
      → Reach p q
      → IsSafe p
      → IsOver p
      → IsSafe q × IsOver q × (q.taken ≡ p.taken) × (q.done ≡ p.done)
  idle-IsOver here v o = (v, o, refl, refl)
  idle-IsOver (next r s) v o =
      let (w, u, a, b) = idle-IsOver r v o in
      let (x, c, d) = Step-IsOver s w u in (Step-IsSafe s w, x, c ∙ a, d ∙ b)

  -- Once every thread of a reached pool has returned, whatever steps follow, no more tasks are
  -- taken or done, every task that was taken is done, and all tasks accepted since then or left in
  -- the queue stay there.
  pub Reach-over :
      (num_threads size : ℕ) {p q : ThreadPool T}
      → Reach (start num_threads (set_max_queue_size size new)) p
      → IsOver p
      → Reach p q
      → (p.taken ++ q.queue ≡ q.accepted)
        × (q.taken ≡ p.taken)
        × (q.done ≡ p.done)
        × (length q.taken ≡ length q.done)
  unfolding IsOver
  Reach-over num_threads size {p} {q} r o s =
      let v : IsSafe p = Reach-IsSafe num_threads size r in
      let (w, u, a, b) = idle-IsOver s v o in
      let idle = over-idle q w u in
      (sym (ap (λ taken. taken ++ q.queue) a) ∙ w.fifo, a, b, ground arith)

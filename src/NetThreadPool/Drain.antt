-- ===== src/NetThreadPool/Drain.antt =====
-- All tasks of the pool of http_client/thread_pool.cpp get done, if no wait ends without a notification.
pub mod Done
use cpp_done.NetThreadPool.Conserved.{
  given, all_given, total, weigh, weigh-append, Step-total, Reach-total,
}
use cpp_done.NetThreadPool.Safety.{IsSafe, Step-IsSafe, Reach-IsSafe}
use cpp_done.NetThreadPool.{
  ThreadPool, new, set_max_queue_size, start, run, is_full, notify_not_empty, push, stop, pop, Step,
  calls, pushes, blocks, rouses, stops, enters, exits, sleeps, wakes, takes_none, takes,
  takes_and_notifies, finishes, Reach, here, next,
}
use cpp_done.Prelude.{
  ℕ, zero, suc, ◌+◌, ◌*◌, ◌<◌, ◌≡◌, refl, ap, ◌∙◌, ◌⊎◌, inl, inr, Bool, true, false, List, [], ◌∷◌,
  ◌++◌, arith, length, length-append, ltb, leb, ◌&&◌, Bool-cases,
}
use cpp_done.Std.Ends.{Ends, falling-Ends}
use cpp_done.NetThreadPool.Shutdown.{zero_or_pos}

module _ {T : Type 0} where
  -- a step of a thread or of a caller in `run`: no call, and no end of a wait without a notification
  abbrev pub is_inner : {p q : ThreadPool T} → Step p q → Bool
  is_inner (calls task) = false
  is_inner (pushes before after task e f) = true
  is_inner (blocks before after task e f) = true
  is_inner (rouses before after task e) = false
  is_inner stops = false
  is_inner (enters h r) = true
  is_inner (exits h r) = true
  is_inner (sleeps h e r) = true
  is_inner (wakes h) = false
  is_inner (takes_none h e r) = true
  is_inner (takes task rest h e f) = true
  is_inner (takes_and_notifies task rest before after waiter h e m b) = true
  is_inner (finishes before after task e) = true

  abbrev pub Inner : ThreadPool T → ThreadPool T → Type 0
  Inner p q = (s : Step p q) × (is_inner s ≡ true)

  -- the tasks that were given to `run` and are not done
  abbrev pub unfinished : ThreadPool T → List T
  unfinished p = p.executing ++ (p.queue ++ (p.calling ++ p.blocked))

  -- every task is done, and of these each as often as it was given to `run`
  pub record AllDone (tasks : List T) (p : ThreadPool T) : Type 0 where
    pub none_left : unfinished p ≡ []
    pub each_once : (f : T → ℕ) → weigh f p.done ≡ weigh f tasks

  pub record IsActive (tasks : List T) (p : ThreadPool T) : Type 0 where
    pub safe : IsSafe p
    pub up : p.running ≡ true
    pub manned : 0 < p.threads
    -- callers wait only where there is a limit
    pub limited : (p.blocked ≡ []) ⊎ (0 < p.max_queue_size)
    pub kept : (f : T → ℕ) → total f p ≡ weigh f tasks

  abbrev pub measure : ThreadPool T → ℕ
  measure p =
      p.taking
      + 2 * p.at_test
      + 3 * length p.executing
      + 4 * length p.queue
      + 5 * length p.blocked
      + 6 * length p.calling

  -- what a step keeps, and that it comes nearer to the end
  pub record Nears (p q : ThreadPool T) : Type 0 where
    pub falls : measure q < measure p
    pub up : q.running ≡ true
    pub threads : q.threads ≡ p.threads
    pub limited : (q.blocked ≡ []) ⊎ (0 < q.max_queue_size)

  pub inner-Nears :
      {p q : ThreadPool T} (s : Step p q)
      → is_inner s ≡ true
      → p.running ≡ true
      → (p.blocked ≡ []) ⊎ (0 < p.max_queue_size)
      → Nears p q
  unfolding push notify_not_empty is_full pop
  inner-Nears (calls task) o h l = absurd cc
  inner-Nears {p} (pushes before after task e f) o h l = ground (
    arith,
    ap length e,
    length-append before (task ∷ after),
    length-append before after,
    length-append p.queue (task ∷ []),
  )
  inner-Nears {p} (blocks before after task e f) o h l = ground (
    arith,
    ap length e,
    length-append before (task ∷ after),
    length-append before after,
    length-append p.blocked (task ∷ []),
  )
  inner-Nears (rouses before after task e) o h l = absurd cc
  inner-Nears stops o h l = absurd cc
  inner-Nears (enters m r) o h l = ground arith
  inner-Nears (exits m r) o h l = absurd cc
  inner-Nears (sleeps m e r) o h l = ground arith
  inner-Nears (wakes m) o h l = absurd cc
  inner-Nears (takes_none m e r) o h l = absurd cc
  inner-Nears {p} (takes task rest m e f) o h l =
      ground (arith, ap length e, length-append p.executing (task ∷ []))
  inner-Nears {p} (takes_and_notifies task rest before after waiter m e n b) o h l = ground (
    arith,
    ap length e,
    ap length b,
    length-append before (waiter ∷ after),
    length-append before after,
    length-append p.calling (waiter ∷ []),
    length-append p.executing (task ∷ []),
  )
  inner-Nears {p} (finishes before after task e) o h l =
      ground (arith, ap length e, length-append before (task ∷ after), length-append before after)

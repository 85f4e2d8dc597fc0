-- ===== src/NetThreadPool.antt =====
-- `net::ThreadPool` of http_client/thread_pool.cpp and http_client/thread_pool.h, with any number of
-- threads and callers. Threads are told apart only by where they stand, so their places are counts;
-- a thread that executes a task and a caller that waits carry that task.
pub mod Safety
pub mod Stopped
pub mod Conserved
pub mod Kept
pub mod Shutdown
pub mod Drain
mod Tests
use cpp_done.Prelude.{
  ℕ, zero, suc, ◌+◌, ◌-◌, ◌<◌, ◌≡◌, ◌⊎◌, Bool, true, false, ◌&&◌, Option, none, some, List, [], ◌∷◌,
  ◌++◌, ltb, leb, ◌==◌, if◌then◌else◌, length,
}

pub record ThreadPool (T : Type 0) : Type 0 where
  pub running : Bool
  pub max_queue_size : ℕ
  -- the size of `threads_`
  pub threads : ℕ
  pub queue : List T
  -- threads at the test of `runInThread`, in `take` with the lock to come, in `notEmpty_.wait`, in a
  -- task, and returned
  pub at_test : ℕ
  pub taking : ℕ
  pub sleeping : ℕ
  pub executing : List T
  pub exited : ℕ
  -- callers of `run` with the lock to come, and in `notFull_.wait`
  pub calling : List T
  pub blocked : List T
  -- the run so far: tasks pushed, tasks taken, tasks done
  pub accepted : List T
  pub taken : List T
  pub done : List T

module _ {T : Type 0} where
  unfoldable pub new : ThreadPool T
  new = record {
    running = false;
    max_queue_size = 0;
    threads = 0;
    queue = [];
    at_test = 0;
    taking = 0;
    sleeping = 0;
    executing = [];
    exited = 0;
    calling = [];
    blocked = [];
    accepted = [];
    taken = [];
    done = [];
  }

  unfoldable pub set_max_queue_size : ℕ → ThreadPool T → ThreadPool T
  set_max_queue_size size p = record p { max_queue_size = size }

  unfoldable pub start : ℕ → ThreadPool T → ThreadPool T
  start num_threads p = record p {
    running = true;
    threads = p.threads + num_threads;
    at_test = p.at_test + num_threads;
  }

  -- the locked part of `stop`; `notify_all` ends every wait on `notEmpty_`
  unfoldable pub stop : ThreadPool T → ThreadPool T
  stop p = record p { running = false; taking = p.taking + p.sleeping; sleeping = 0 }

  unfoldable pub is_full : ThreadPool T → Bool
  is_full p = ltb 0 p.max_queue_size && leb p.max_queue_size (length p.queue)

  -- `notEmpty_.notify_one()`
  unfoldable pub notify_not_empty : ThreadPool T → ThreadPool T
  notify_not_empty p =
      if p.sleeping == 0 then p else record p { sleeping = p.sleeping - 1; taking = p.taking + 1 }

  -- `queue_.push_back(task)` and the notification
  unfoldable pub push : T → ThreadPool T → ThreadPool T
  push task p =
      notify_not_empty
        (record p { queue = p.queue ++ task ∷ []; accepted = p.accepted ++ task ∷ [] })

  -- `run` up to its lock: with no thread the caller executes the task
  unfoldable pub run : T → ThreadPool T → ThreadPool T
  run task p =
      if p.threads == 0
      then record p { done = p.done ++ task ∷ [] }
      else record p { calling = p.calling ++ task ∷ [] }

  -- `take` with a task in the queue, without its notification
  unfoldable pub pop : T → List T → ThreadPool T → ThreadPool T
  pop task rest p = record p {
    queue = rest;
    taking = p.taking - 1;
    executing = p.executing ++ task ∷ [];
    taken = p.taken ++ task ∷ [];
  }

-- One step of a caller or of a thread.
pub data Step {T : Type 0} (p : ThreadPool T) : ThreadPool T → Type 0 where
  calls : (task : T) → Step p (run task p)
  -- a caller finds room, or waits
  pushes :
      (before after : List T) (task : T)
      → p.calling ≡ before ++ task ∷ after
      → is_full p ≡ false
      → Step p (push task (record p { calling = before ++ after }))
  blocks :
      (before after : List T) (task : T)
      → p.calling ≡ before ++ task ∷ after
      → is_full p ≡ true
      → Step p (record p { calling = before ++ after; blocked = p.blocked ++ task ∷ [] })
  -- a wait on `notFull_` may end without a notification
  rouses :
      (before after : List T) (task : T)
      → p.blocked ≡ before ++ task ∷ after
      → Step p (record p { blocked = before ++ after; calling = p.calling ++ task ∷ [] })
  stops : Step p (stop p)
  -- the loop of `runInThread`
  enters :
      0 < p.at_test
      → p.running ≡ true
      → Step p (record p { at_test = p.at_test - 1; taking = p.taking + 1 })
  exits :
      0 < p.at_test
      → p.running ≡ false
      → Step p (record p { at_test = p.at_test - 1; exited = p.exited + 1 })
  -- `take`: wait, return an empty task, or return the front with or without a caller to notify
  sleeps :
      0 < p.taking
      → p.queue ≡ []
      → p.running ≡ true
      → Step p (record p { taking = p.taking - 1; sleeping = p.sleeping + 1 })
  wakes : 0 < p.sleeping → Step p (record p { sleeping = p.sleeping - 1; taking = p.taking + 1 })
  takes_none :
      0 < p.taking
      → p.queue ≡ []
      → p.running ≡ false
      → Step p (record p { taking = p.taking - 1; at_test = p.at_test + 1 })
  takes :
      (task : T) (rest : List T)
      → 0 < p.taking
      → p.queue ≡ task ∷ rest
      → (p.max_queue_size ≡ 0) ⊎ (p.blocked ≡ [])
      → Step p (pop task rest p)
  takes_and_notifies :
      (task : T) (rest before after : List T) (waiter : T)
      → 0 < p.taking
      → p.queue ≡ task ∷ rest
      → 0 < p.max_queue_size
      → p.blocked ≡ before ++ waiter ∷ after
      → Step p (
          pop task rest
            (record p { blocked = before ++ after; calling = p.calling ++ waiter ∷ [] }))
  finishes :
      (before after : List T) (task : T)
      → p.executing ≡ before ++ task ∷ after
      → Step p (record p {
        executing = before ++ after;
        at_test = p.at_test + 1;
        done = p.done ++ task ∷ [];
      })

pub data Reach {T : Type 0} (p : ThreadPool T) : ThreadPool T → Type 0 where
  here : Reach p p
  next : {q r : ThreadPool T} → Reach p q → Step q r → Reach p r

-- ===== src/WorkPool/Worker.antt =====
-- The thread of a `WorkThread` of thread_pool/thread_pool.cpp, with those who push works, delete
-- works and stop it. The predicate of `wait` is tested under the lock, at `testing`; `StopWork` takes
-- no lock, so that it may come between the test and the wait.
pub mod Once
pub mod Asleep
use cpp_done.Prelude.{
  ℕ, ◌≡◌, ◌≢◌, Bool, true, false, Option, none, some, List, [], ◌∷◌, ◌++◌, ◌==◌, if◌then◌else◌,
}
use cpp_done.WorkPool.{WorkStatusType, not_used, starting, invalid, set_status}

-- Where the thread stands: at the predicate, with the lock and a predicate that was false, in `wait`,
-- with what it took out of the queue, behind the test of the status, in the callback, and returned.
pub data Place : Type 0 where
  testing unfulfilled waiting : Place
  holding : Option ℕ → Place
  cleared : ℕ → Place
  calling : ℕ → Place
  returned : Place

pub record Worker : Type 0 where
  pub stoped : Bool
  pub works : List (Option ℕ)
  pub place : Place
  -- callers of `PushWork` behind its test of `stoped_`
  pub pushing : List (Option ℕ)
  pub status : ℕ → WorkStatusType
  -- the run so far: what was pushed and taken, and the callbacks called
  pub pushed : List (Option ℕ)
  pub taken : List (Option ℕ)
  pub called : List ℕ

-- `WorkThread::StartWork`
unfoldable pub start_work : (ℕ → WorkStatusType) → Worker
start_work status = record {
  stoped = false;
  works = [];
  place = testing;
  pushing = [];
  status = status;
  pushed = [];
  taken = [];
  called = [];
}

abbrev pub wake_place : Place → Place
wake_place waiting = testing
wake_place testing = testing
wake_place unfulfilled = unfulfilled
wake_place (holding ptr) = holding ptr
wake_place (cleared work) = cleared work
wake_place (calling work) = calling work
wake_place returned = returned

-- `WorkThread::StopWork` up to the join
unfoldable pub stop_work : Worker → Worker
stop_work w = record w { stoped = true; place = wake_place w.place }

-- `WorkThread::PushWork` up to its lock
unfoldable pub push_work : Option ℕ → Worker → Worker
push_work ptr w = if w.stoped then w else record w { pushing = w.pushing ++ ptr ∷ [] }

abbrev pub has_lock : Place → Bool
has_lock testing = false
has_lock unfulfilled = true
has_lock waiting = false
has_lock (holding ptr) = false
has_lock (cleared work) = false
has_lock (calling work) = false
has_lock returned = false

-- `callback` tells whether the object's `cb_func_` is not null.
pub data Step (callback : ℕ → Bool) (w : Worker) : Worker → Type 0 where
  asks : (ptr : Option ℕ) → Step callback w (push_work ptr w)
  pushes :
      (before after : List (Option ℕ)) (ptr : Option ℕ)
      → w.pushing ≡ before ++ ptr ∷ after
      → has_lock w.place ≡ false
      → Step callback w (record w {
        pushing = before ++ after;
        works = w.works ++ ptr ∷ [];
        pushed = w.pushed ++ ptr ∷ [];
      })
  deletes : (work : ℕ) → Step callback w (record w { status = set_status work invalid w.status })
  stops : Step callback w (stop_work w)
  finds_nothing :
      w.place ≡ testing
      → w.stoped ≡ false
      → w.works ≡ []
      → Step callback w (record w { place = unfulfilled })
  waits : w.place ≡ unfulfilled → Step callback w (record w { place = waiting })
  -- `wait` wakes with no notification
  wakes : w.place ≡ waiting → Step callback w (record w { place = testing })
  returns : w.place ≡ testing → w.stoped ≡ true → Step callback w (record w { place = returned })
  takes :
      (ptr : Option ℕ) (rest : List (Option ℕ))
      → w.place ≡ testing
      → w.stoped ≡ false
      → w.works ≡ ptr ∷ rest
      → Step callback w
          (record w { place = holding ptr; works = rest; taken = w.taken ++ ptr ∷ [] })
  skips_null : w.place ≡ holding none → Step callback w (record w { place = testing })
  skips :
      (work : ℕ)
      → w.place ≡ holding (some work)
      → w.status work ≡ invalid
      → Step callback w (record w { place = testing })
  clears :
      (work : ℕ)
      → w.place ≡ holding (some work)
      → w.status work ≢ invalid
      → Step callback w (record w { place = cleared work })
  -- `Work::Doing`: nothing without a callback, else the status before and after the call
  does_nothing :
      (work : ℕ)
      → w.place ≡ cleared work
      → callback work ≡ false
      → Step callback w (record w { place = testing })
  calls :
      (work : ℕ)
      → w.place ≡ cleared work
      → callback work ≡ true
      → Step callback w (record w {
        place = calling work;
        status = set_status work starting w.status;
        called = w.called ++ work ∷ [];
      })
  ends :
      (work : ℕ)
      → w.place ≡ calling work
      → Step callback w (record w { place = testing; status = set_status work invalid w.status })

pub data Reach (callback : ℕ → Bool) (w : Worker) : Worker → Type 0 where
  here : Reach callback w w
  next : {v u : Worker} → Reach callback w v → Step callback v u → Reach callback w u

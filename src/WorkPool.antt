-- ===== src/WorkPool.antt =====
-- `Work`, `WorkThread` and `ThreadPool` of thread_pool/thread_pool.cpp and thread_pool/thread_pool.h.
-- A `std::shared_ptr<Work>` is a number, or `none` for null, and the objects are two functions of it.
pub mod Worker
pub mod Calls
pub mod Rand
mod Tests
use cpp_done.Prelude.{
  ℕ, ◌+◌, ◌-◌, ◌%◌, ◌^◌, Bool, true, false, Option, none, some, List, [], ◌∷◌, ◌++◌, ltb, leb, ◌==◌,
  if◌then◌else◌, length, get_elem?, modify, replicate,
}
use cpp_done.Std.Map
use cpp_done.Std.Map.{Map}
use cpp_done.Std.Order.{nat_less}

pub data WorkStatusType : Type 0 where
  not_used starting invalid : WorkStatusType

-- The fields of `WorkThread` that the pool uses.
pub record WorkThread : Type 0 where
  pub stoped : Bool
  pub works : List (Option ℕ)

pub record ThreadPool : Type 0 where
  pub offset : ℕ
  pub threads_size : ℕ
  pub stop : Bool
  pub workers : List WorkThread
  pub name_works : Map ℕ ℕ
  -- the objects: the next one, and the status of each
  pub next_work : ℕ
  pub status : ℕ → WorkStatusType

abbrev pub set_status : ℕ → WorkStatusType → (ℕ → WorkStatusType) → ℕ → WorkStatusType
set_status work s status other = if other == work then s else status other

unfoldable pub new : ThreadPool
new = record {
  offset = 0;
  threads_size = 0;
  stop = true;
  workers = [];
  name_works = [];
  next_work = 0;
  status = λ _. not_used;
}

-- `WorkThread::StartWork` on a new object
abbrev pub started_worker : WorkThread
started_worker = record { stoped = false; works = [] }

unfoldable pub stop_work : WorkThread → WorkThread
stop_work w = record w { stoped = true }

unfoldable pub push_work : Option ℕ → WorkThread → WorkThread
push_work ptr w = if w.stoped then w else record w { works = w.works ++ ptr ∷ [] }

-- the loop from `num` through `best_threads`; `hardware` is `std::thread::hardware_concurrency()`
unfoldable pub make_work_thread : ℕ → ℕ → ThreadPool → ThreadPool
make_work_thread hardware num p =
    if leb hardware p.threads_size
    then p
    else (let best_threads = hardware - p.threads_size in
        record p { workers = p.workers ++ replicate (best_threads + 1 - num) started_worker })

-- `threads_size_` is a `uint32_t`
unfoldable pub start_pool : ℕ → ℕ → ThreadPool → ThreadPool
start_pool hardware num p = make_work_thread hardware num (record p { threads_size = num % 2 ^ 32 })

abbrev pub stop_all : List WorkThread → List WorkThread
stop_all [] = []
stop_all (w ∷ ws) = stop_work w ∷ stop_all ws

unfoldable pub stop_pool : ThreadPool → ThreadPool
stop_pool p = record p { stop = true; workers = stop_all p.workers }

-- What `PostWork` does: it returns at once, indexes past the end of `workers_`, or posts.
pub data Posted : Type 0 where
  refused : Posted
  out_of_range : ℕ → Posted
  posted : ℕ → ℕ → Posted

-- `emplace` keeps the entry of a key that is present
abbrev pub emplace : ℕ → ℕ → Map ℕ ℕ → Map ℕ ℕ
emplace key work m = elim (Map.find key m) [ none ↦ Map.insert key work m | some _ ↦ m ]

-- `work_id` is what `Rand` returns
unfoldable pub post_work : ℕ → ThreadPool → Posted × ThreadPool
post_work work_id p =
    let offset = if ltb p.threads_size p.offset then 0 else p.offset in
    let named = record p {
      offset = offset;
      name_works = emplace work_id p.next_work p.name_works;
      next_work = p.next_work + 1;
      status = set_status p.next_work not_used p.status;
    } in
    if p.stop then (refused, p) else elim (get_elem? p.workers offset) [
      | none ↦ (out_of_range offset, named)
      | some _ ↦ (
        posted work_id offset,
        record named {
          workers = modify p.workers offset (push_work (some p.next_work));
          offset = (offset + 1) % 2 ^ 32;
        },
      )
    ]

unfoldable pub delete_work : ℕ → ThreadPool → ThreadPool
delete_work id p = elim (Map.find id p.name_works) [
  | none ↦ p
  | some work ↦ record p { status = set_status work invalid p.status }
]

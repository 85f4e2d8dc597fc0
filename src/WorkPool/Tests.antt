-- ===== src/WorkPool/Tests.antt =====
-- Tests of thread_pool/thread_pool.cpp, and the theorems about it at concrete inputs.
use cpp_done.WorkPool.Rand.{rand, rand_bounds}
use cpp_done.Prelude.{
  ◌-◌, ◌^◌, ℕ, ◌+◌, ◌<◌, ◌≤◌, ◌≡◌, refl, ◌⊎◌, inr, Bool, true, false, some, List, [], ◌∷◌, ◌++◌,
  arith, length, fold,
}
use cpp_done.Std.Order.{nat_less}
use cpp_done.WorkPool.Calls.{
  Call, starts, stops, posts, deletes, call, new-refuses, start_pool-length,
}
use cpp_done.WorkPool.Worker.Asleep.{Quiet, IsDown, Sleeps, Quiet-Sleeps}
use cpp_done.WorkPool.Worker.Once.{times, IsDeleted, start_work-Reach, Reach-IsDeleted}
use cpp_done.WorkPool.Worker.{
  Place, testing, unfulfilled, waiting, holding, cleared, calling, returned, Worker, start_work,
  stop_work, push_work, Step, asks, Reach,
}
use cpp_done.WorkPool.Worker
use cpp_done.WorkPool.{
  WorkStatusType, not_used, starting, invalid, ThreadPool, set_status, new, started_worker,
  make_work_thread, start_pool, refused, out_of_range, post_work,
}

abbrev session : List Call
session = starts 8 2 ∷ posts 17 ∷ stops ∷ deletes 17 ∷ posts 18 ∷ []

new-refuses_example :
    (post_work 19 (fold call new session) ≡ (refused, fold call new session))
    × ((fold call new session).name_works ≡ [])
    × ((fold call new session).next_work ≡ 0)
new-refuses_example = new-refuses session 19

-- eight cores, two threads asked for: five workers
five_workers : length (start_pool 8 2 new).workers ≡ 5
unfolding start_pool make_work_thread new
five_workers = refl

-- as many threads as cores, the default: no worker
no_worker : (start_pool 8 8 new).workers ≡ []
unfolding start_pool make_work_thread new
no_worker = refl

two_cores_start :
    ((start_pool 8 2 new).threads_size ≡ 2)
    × (2 < 8 → 2 + 2 ≤ 8 → length (start_pool 8 2 new).workers + (2 + 2) ≡ 8 + 1)
    × (8 < 2 + 2 → (start_pool 8 2 new).workers ≡ [])
two_cores_start = start_pool-length 8 2 (omega arith) (omega arith)

-- a pool that is not stopped, with two workers
abbrev two : ThreadPool
two = record {
  offset = 1;
  threads_size = 2;
  stop = false;
  workers = started_worker ∷ started_worker ∷ [];
  name_works = [];
  next_work = 0;
  status = λ _. not_used;
}

past_the_end : (post_work 6 (post_work 5 two).1).0 ≡ out_of_range 2
unfolding post_work
past_the_end = refl

abbrev unused : ℕ → WorkStatusType
unused _ = not_used

abbrev all : ℕ → Bool
all _ = true

abbrev pushed_one : Worker
pushed_one = record (start_work unused) { works = some 3 ∷ []; pushed = some 3 ∷ [] }

-- one work is pushed, taken, tested and called
abbrev called_one : Worker
called_one = record pushed_one {
  works = [];
  place = calling 3;
  taken = some 3 ∷ [];
  status = set_status 3 starting unused;
  called = 3 ∷ [];
}

reached_call : Reach all (start_work unused) called_one
unfolding push_work start_work
reached_call =
    Worker.next
      (Worker.next
        (Worker.next
          (Worker.next (Worker.next Worker.here (asks (some 3)))
            (Worker.pushes [] [] (some 3) refl refl))
          (Worker.takes (some 3) [] refl refl refl))
        (Worker.clears 3 refl (λ e. absurd cc)))
      (Worker.calls 3 refl refl)

start_work-Reach_example :
    (called_one.taken ++ called_one.works ≡ called_one.pushed)
    × ((r : ℕ) → times r called_one.called ≤ 1)
    × ((r : ℕ)
        → times r called_one.called ≡ 1
        → (called_one.place ≡ calling r) ⊎ (called_one.status r ≡ invalid))
start_work-Reach_example = start_work-Reach all unused reached_call

-- a work is deleted before the thread takes it
abbrev deleted_one : Worker
deleted_one = record pushed_one { status = set_status 3 invalid unused }

skipped_one : Reach all deleted_one (record deleted_one { works = []; taken = some 3 ∷ [] })
unfolding start_work
skipped_one =
    Worker.next (Worker.next Worker.here (Worker.takes (some 3) [] refl refl refl))
      (Worker.skips 3 refl refl)

deleted_one-IsDeleted : IsDeleted 3 deleted_one
unfolding start_work
deleted_one-IsDeleted = ground arith

Reach-IsDeleted_example :
    IsDeleted 3 (record deleted_one { works = []; taken = some 3 ∷ [] })
    × (times 3 deleted_one.called ≡ times 3 deleted_one.called)
Reach-IsDeleted_example = Reach-IsDeleted 3 skipped_one deleted_one-IsDeleted

abbrev asleep : Worker
asleep = record (start_work unused) { place = waiting }

abbrev asleep_with_work : Worker
asleep_with_work = record asleep { works = some 3 ∷ []; pushed = some 3 ∷ [] }

collected_one : Quiet all asleep asleep_with_work
unfolding push_work start_work
collected_one =
    Quiet.next (Quiet.next Quiet.here (asks (some 3)) refl) (Worker.pushes [] [] (some 3) refl refl)
      refl

asleep-IsDown : IsDown asleep
unfolding start_work
asleep-IsDown = inr refl

Quiet-Sleeps_example : Sleeps asleep asleep_with_work
Quiet-Sleeps_example = Quiet-Sleeps asleep-IsDown collected_one

abbrev looking : Worker
looking = record (start_work unused) { place = unfulfilled }

missed : Quiet all (stop_work looking) (record (stop_work looking) { place = waiting })
unfolding stop_work start_work
missed = Quiet.next Quiet.here (Worker.waits refl) refl

-- the least and the greatest identifier
identifiers : ((rand 7 0 1 999999 0).0 ≡ 1) × ((rand 7 (2 ^ 31 - 1) 1 999999 0).0 ≡ 999999)
unfolding rand
identifiers = (refl, refl)

rand_bounds_example :
    (1 ≤ (rand 7 12345 1 999999 0).0)
    × ((rand 7 12345 1 999999 0).0 ≤ 999999)
    × ((id : ℕ) → 1 ≤ id → id ≤ 999999 → (r : ℕ) × (r < 2 ^ 31) × ((rand 7 r 1 999999 0).0 ≡ id))
rand_bounds_example = rand_bounds 7 12345 1 999999 0 (omega arith) (omega arith) (omega arith)

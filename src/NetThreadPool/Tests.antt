-- ===== src/NetThreadPool/Tests.antt =====
-- Tests of the pool of http_client/thread_pool.cpp, and the theorems about it at concrete inputs.
use cpp_done.NetThreadPool.{
  ThreadPool, new, set_max_queue_size, start, stop, is_full, notify_not_empty, push, run, calls,
  pushes, stops, exits, Reach, here, next,
}
use cpp_done.NetThreadPool.Drain.Done.{Reach-AllDone}
use cpp_done.NetThreadPool.Drain.{Inner, AllDone}
use cpp_done.NetThreadPool.Safety.{IsSafe}
use cpp_done.NetThreadPool.Kept.{Kept, Reach-IsSafe-Kept}
use cpp_done.NetThreadPool.Shutdown.{AllReturned, Prompted, stop-AllReturned}
use cpp_done.NetThreadPool.Stopped.{IsOver, Reach-over}
use cpp_done.Std.Ends.{Ends}
use cpp_done.Prelude.{◌∷◌, ℕ, ◌≡◌, refl, true, [], ◌++◌, arith, length}

abbrev empty : ThreadPool ℕ
empty = start 1 (set_max_queue_size 1 new)

-- one thread, one place: the task 5 waits in the queue
abbrev one_waits : ThreadPool ℕ
one_waits = push 5 (record empty { calling = [] })

reached_one : Reach empty one_waits
unfolding run is_full start set_max_queue_size new
reached_one = next (next here (calls 5)) (pushes [] [] 5 refl refl)

one_is_full : is_full one_waits ≡ true
unfolding is_full push notify_not_empty start set_max_queue_size new
one_is_full = refl

Reach-IsSafe-Kept_example : IsSafe one_waits × ((f : ℕ → ℕ) → Kept f one_waits)
Reach-IsSafe-Kept_example = Reach-IsSafe-Kept 1 1 reached_one

one_runs : one_waits.running ≡ true
unfolding push notify_not_empty start set_max_queue_size new
one_runs = refl

-- `stop` before the only thread has come to its loop
abbrev over : ThreadPool ℕ
over = record (stop (start 1 (set_max_queue_size 0 new))) { at_test = 0; exited = 1 }

reached_over : Reach (start 1 (set_max_queue_size 0 new)) over
unfolding stop start set_max_queue_size new
reached_over = next (next here stops) (exits (omega arith) refl)

idle-IsOver : IsOver over
unfolding IsOver stop start set_max_queue_size new
idle-IsOver = ground arith

abbrev never_run : ThreadPool ℕ
never_run = push 6 (record over { calling = [] })

reached_never : Reach over never_run
unfolding run is_full stop start set_max_queue_size new
reached_never = next (next here (calls 6)) (pushes [] [] 6 refl refl)

never_run_stays :
    (over.taken ++ never_run.queue ≡ never_run.accepted)
    × (never_run.taken ≡ over.taken)
    × (never_run.done ≡ over.done)
    × (length never_run.taken ≡ length never_run.done)
never_run_stays = Reach-over 1 0 reached_over idle-IsOver reached_never

one_waits_returns : Ends Prompted AllReturned (stop one_waits)
one_waits_returns = stop-AllReturned 1 1 reached_one

Reach-AllDone_example : Ends Inner (AllDone (5 ∷ [])) one_waits
unfolding reached_one
Reach-AllDone_example = Reach-AllDone 1 1 reached_one (omega arith) one_runs

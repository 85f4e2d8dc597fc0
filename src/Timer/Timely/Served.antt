-- ===== src/Timer/Timely/Served.antt =====
-- The queue of timer/timer.cpp loses no function and functions_run none twice, while no one clears its table.
use cpp_done.Prelude.{ℕ, ◌+◌, ◌≡◌, Bool, List, [], ◌∷◌}
use cpp_done.Std.Order.{nat_less}
use cpp_done.Timer.{TimerTaskQueue}
use cpp_done.Timer.Timely.{Due, Timed}
use cpp_done.Timer.Timely.Counts.{count, queued, tabled}

module _ {A : Type 0} where
  abbrev pub functions_run : List (ℕ × Due A) → List (Due A)
  functions_run [] = []
  functions_run ((time, f) ∷ ran) = f ∷ functions_run ran

module _ {A : Type 0} (lag : ℕ) (p : Due A → Bool) where
  -- what still waits in the queue or in the table
  abbrev held : TimerTaskQueue (Due A) → ℕ
  held q = queued p q.handlers + tabled p q.delay_eventtab

  abbrev IsKept : Timed A → Type 0
  IsKept s = count p (functions_run s.ran) + held s.queue ≡ count p s.given

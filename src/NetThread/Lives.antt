-- ===== src/NetThread/Lives.antt =====
-- Which calls of a `net::Thread` (http_client/thread.cpp) end well.
use cpp_done.NetThread.{
  Thread, Outcome, fine, null_pointer, throws, terminates, new, drop_thread, start, join, destroy,
  Call, starts, joins, live,
}
use cpp_done.Prelude.{◌≡◌, refl, Bool, true, false, ◌&&◌, ◌||◌, some, List, [], ◌∷◌, arith}
use cpp_done.Std.Text.{Bytes}

abbrev pub is_fine : Outcome → Bool
is_fine (fine t) = true
is_fine null_pointer = false
is_fine throws = false
is_fine terminates = false

-- a start that succeeds and a join, over and over
abbrev pub in_pairs : List Call → Bool
in_pairs [] = true
in_pairs (joins ∷ cs) = false
in_pairs (starts spawns ∷ []) = false
in_pairs (starts spawns ∷ starts other ∷ cs) = false
in_pairs (starts spawns ∷ joins ∷ cs) = spawns && in_pairs cs

abbrev pub is_single_start : List Call → Bool
is_single_start [] = false
is_single_start (joins ∷ cs) = false
is_single_start (starts spawns ∷ []) = spawns
is_single_start (starts spawns ∷ c ∷ cs) = false

-- the object after a join
abbrev after_join : Bytes → Thread
after_join name = record { name = name; started = true; joined = true; thread = some false }

live-after_join :
    (name : Bytes) (cs : List Call) → is_fine (live cs (after_join name)) ≡ in_pairs cs
unfolding live destroy start join drop_thread
live-after_join name [] = refl
live-after_join name (joins ∷ cs) = refl
live-after_join name (starts false ∷ []) = refl
live-after_join name (starts true ∷ []) = refl
live-after_join name (starts false ∷ starts other ∷ cs) = refl
live-after_join name (starts true ∷ starts false ∷ cs) = refl
live-after_join name (starts true ∷ starts true ∷ cs) = refl
live-after_join name (starts false ∷ joins ∷ cs) = refl
live-after_join name (starts true ∷ joins ∷ cs) = live-after_join name cs

-- Calls of start and join on a new Thread, followed by its destructor, use no null pointer, throw
-- nothing and destroy no joinable thread exactly if they are one start that succeeds, or pairs of
-- such a start and a join.
pub live-in_pairs :
    (name : Bytes) (cs : List Call)
    → is_fine (live cs (new name)) ≡ (in_pairs cs || is_single_start cs)
unfolding live new destroy start join drop_thread
live-in_pairs name [] = refl
live-in_pairs name (joins ∷ cs) = refl
live-in_pairs name (starts false ∷ []) = refl
live-in_pairs name (starts true ∷ []) = refl
live-in_pairs name (starts false ∷ starts other ∷ cs) = refl
live-in_pairs name (starts true ∷ starts false ∷ cs) = refl
live-in_pairs name (starts true ∷ starts true ∷ cs) = refl
live-in_pairs name (starts false ∷ joins ∷ cs) = refl
live-in_pairs name (starts true ∷ joins ∷ cs) = ground (arith, live-after_join name cs)

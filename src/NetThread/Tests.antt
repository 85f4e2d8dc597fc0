-- ===== src/NetThread/Tests.antt =====
-- Tests of http_client/thread.cpp, and the theorem about it at a concrete input.
use cpp_done.NetThread.Lives.{is_fine, in_pairs, is_single_start, live-in_pairs}
use cpp_done.NetThread.{
  null_pointer, terminates, new, drop_thread, start, join, destroy, starts, joins, live,
}
use cpp_done.Prelude.{◌≡◌, refl, true, ◌||◌, [], ◌∷◌}

join_first : live (joins ∷ []) (new []) ≡ null_pointer
unfolding live new join
join_first = refl

-- `joined_` stays true, so that the destructor does not detach the second thread
restarted : live (starts true ∷ joins ∷ starts true ∷ []) (new []) ≡ terminates
unfolding live new start join destroy drop_thread
restarted = refl

live-in_pairs_example :
    is_fine (live (starts true ∷ joins ∷ []) (new []))
    ≡ (in_pairs (starts true ∷ joins ∷ []) || is_single_start (starts true ∷ joins ∷ []))
live-in_pairs_example = live-in_pairs [] (starts true ∷ joins ∷ [])

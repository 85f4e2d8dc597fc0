-- ===== src/Library/Tests.antt =====
-- Tests of load_library/load_library.h, and the theorem about it at a concrete input.
use cpp_done.Library.Calls.{Call, loading, getting, calls, any_loads, Fails, calls-destroy}
use cpp_done.Library.{
  StringView, Ends, done, system_error, loads, unloads, new, load, get_function_point, destroy,
}
use cpp_done.Prelude.{ℕ, ◌≡◌, refl, false, some, List, [], ◌∷◌, All, if◌then◌else◌}
use cpp_done.Std.Text.{Bytes, codes, c_str}

-- the first three bytes of a text
abbrev prefix : StringView
prefix = record { data_bytes = codes "lib.so"; size = 3 }

abbrev fails : Bytes → Ends (Unit {0})
fails file = system_error (codes "what") (codes "message")

abbrev succeeds : Bytes → Ends (Unit {0})
succeeds file = done tt

abbrev found : Bytes → Ends ℕ
found name = done 7

-- the size of the view is not used
whole_name : (new prefix).filename ≡ codes "lib.so"
unfolding new c_str
whole_name = refl

found_after_load : (get_function_point found prefix (load succeeds (new prefix)).2).0 ≡ some 7
unfolding load new get_function_point
found_after_load = refl

abbrev session : List Call
session = getting found prefix ∷ loading fails ∷ loading succeeds ∷ loading succeeds ∷ []

session_events : destroy (calls session (new prefix)).1 ≡ loads (codes "lib.so") ∷ unloads ∷ []
unfolding calls new load get_function_point destroy c_str
session_events = refl

calls-destroy_example :
    let file = c_str (codes "lib.so") in
    (destroy (calls session (new prefix)).1
      ≡ (if any_loads file session then loads file ∷ unloads ∷ [] else []))
    × (any_loads file session ≡ false → All Fails (calls session (new prefix)).0)
calls-destroy_example = calls-destroy prefix session

-- ===== src/CrashHandler/Signals/Unsaved.antt =====
-- What `Init` and `ProcessCrashSig` of crash_handler/crash_handler.cpp do with the log path that the
-- class has, the empty one.
use cpp_done.CrashHandler.Signals.{CrashHandler}
use cpp_done.CrashHandler.Sorting.{mem}
use cpp_done.Prelude.{ℕ, ◌≡◌, Bool, true, false, ◌||◌, List, [], ◌∷◌, ◌==◌}
use cpp_done.Std.Text.{Bytes, front, c_str}

abbrev pub occurs : ℕ → List ℕ → Bool
occurs s [] = false
occurs s (x ∷ xs) = s == x || occurs s xs

-- a file name of a directory, which holds no slash
abbrev pub AreRelative : List Bytes → Type 0
AreRelative names = (n : Bytes) → mem n names ≡ true → (front (c_str n) == b'/') ≡ false

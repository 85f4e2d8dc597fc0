-- ===== src/CrashHandler/Tests.antt =====
-- Tests of crash_handler/crash_handler.cpp, and the theorems about it at concrete inputs.
use cpp_done.CrashHandler.Descriptors.{opened, closed, wrote, Spawn, crash_file_copy, Log, Frame}
use cpp_done.CrashHandler.Oldest.{IsName, IsRoot, AllNames, empty_path-clear}
use cpp_done.CrashHandler.Sorting.{sort, insert_name, mem, AreDistinct}
use cpp_done.CrashHandler.{
  Files, System, set_file, crash_file_name, remove_single_file, remove_each, clear_old,
  is_crash_file, is_process_maps, clear_crash_files, check_dir_exist_or_make,
}
use cpp_done.CrashHandler.Naming.Age.{
  stamped-earlier, IsTime, earlier, age_rank, AreApart, clear_crash_files-earlier,
}
use cpp_done.CrashHandler.Naming.{Tm, stamp, stamped, crash_file_path, process_maps_path}
use cpp_done.CrashHandler.Signals.{sig_dfl, Process, Maps, Crash}
use cpp_done.Std.Decimal.{decimal}
use cpp_done.Std.Decimal.Padded.{zero_pad}
use cpp_done.Prelude.{
  ◌<◌, map, ltb, ℕ, ◌≡◌, refl, true, false, not, ◌&&◌, none, some, List, [], ◌∷◌, ◌++◌, arith, leb,
  ◌==◌, length, All, Bool-cases, inl, inr, sym,
}
use mathlib.Core.Path.{subst}
use cpp_done.Std.Text.{Bytes, bytes_less, codes, bytes_eq, bytes_eq_iff, front, c_str, starts_with}

-- every call succeeds
abbrev linux : System
linux = record { unlinks = λ _. true; makes = λ path fs. some (set_file path true fs) }

abbrev log : Bytes
log = codes "/log/"

abbrev trace : ℕ → Bytes
trace day = codes "crash_trace." ++ day ∷ []

abbrev six : List Bytes
six =
    trace b'4' ∷ trace b'2' ∷ codes "other" ∷ trace b'6' ∷ trace b'1' ∷ trace b'5' ∷ trace b'3' ∷ []

abbrev all_there : Files
all_there path = true

abbrev none_there : Files
none_there path = false

abbrev cleared : Files
cleared = clear_crash_files linux log (some six) all_there

oldest_gone : cleared (log ++ trace b'3') ≡ false
unfolding clear_crash_files clear_old remove_each remove_single_file sort insert_name bytes_less
    starts_with is_crash_file is_process_maps c_str bytes_eq
oldest_gone = refl

newest_kept : cleared (log ++ trace b'4') ≡ true
unfolding clear_crash_files clear_old remove_each remove_single_file sort insert_name bytes_less
    starts_with is_crash_file is_process_maps c_str bytes_eq
newest_kept = refl

log-IsRoot : IsRoot log
log-IsRoot = record { absolute = refl; no_nul = ground arith }

All-mem : (P : Bytes → Type 0) (ns : List Bytes) → All P ns → (n : Bytes) → mem n ns ≡ true → P n
All-mem P [] a n h = absurd cc
All-mem P (m ∷ ns) a n h = elim (Bool-cases (bytes_eq n m)) [
  | inl e ↦ subst P (sym ((bytes_eq_iff n m).0 e)) a.0
  | inr e ↦ All-mem P ns a.1 n (ground (arith, e))
]

six-IsName : All IsName six
six-IsName = ground arith

six-AllNames : AllNames six
six-AllNames = All-mem IsName six six-IsName

six-AreDistinct : AreDistinct six
unfolding bytes_eq
six-AreDistinct = ground arith

abbrev IsRelative : Bytes → Type 0
IsRelative n = (front (c_str n) == b'/') ≡ false

trace-IsRelative : All IsRelative (trace b'1' ∷ [])
unfolding c_str
trace-IsRelative = (refl, tt)

trace_stays :
    (clear_crash_files linux [] (some (trace b'1' ∷ [])) none_there ≡ none_there)
    × (check_dir_exist_or_make linux [] none_there ≡ none)
trace_stays =
    empty_path-clear linux (trace b'1' ∷ []) none_there (refl, tt)
      (All-mem IsRelative (trace b'1' ∷ []) trace-IsRelative) refl

copied :
    crash_file_copy (some (codes "a")) (some (codes "b")) (some 3) (some 4) (codes "xy" ∷ [] ∷ [])
    ≡ opened 3 ∷ opened 4 ∷ wrote 4 (codes "xy") ∷ closed 3 ∷ closed 4 ∷ []
unfolding crash_file_copy
copied = refl

abbrev spawned : Spawn
spawned = record { pipe = some (6, 7); forks = true }

abbrev april : Tm
april = record { tm_year = 123; tm_mon = 3; tm_mday = 4; tm_hour = 12; tm_min = 5; tm_sec = 9 }

abbrev on_day : ℕ → Tm
on_day d = record april { tm_mday = d }

april_path : crash_file_path (codes "/log/") april ≡ codes "/log/crash_trace.2023-04-04_12_05_09"
unfolding crash_file_path stamped stamp zero_pad decimal c_str
april_path = refl

april_maps_path :
    process_maps_path (codes "/log/") april ≡ codes "/log/crash_process_maps.2023-04-04_12_05_09"
unfolding process_maps_path stamped stamp zero_pad decimal
april_maps_path = refl

on_day-IsTime : (d : ℕ) → d < 100 → IsTime (on_day d)
on_day-IsTime d h = record {
  year = omega arith;
  mon = omega arith;
  mday = omega arith;
  hour = omega arith;
  min = omega arith;
  sec = omega arith;
}

abbrev week : List Tm
week = on_day 9 ∷ on_day 2 ∷ on_day 11 ∷ on_day 4 ∷ on_day 10 ∷ on_day 3 ∷ on_day 7 ∷ []

week-IsTime : All IsTime week
week-IsTime = (
  on_day-IsTime 9 (omega arith),
  (
    on_day-IsTime 2 (omega arith),
    (
      on_day-IsTime 11 (omega arith),
      (
        on_day-IsTime 4 (omega arith),
        (
          on_day-IsTime 10 (omega arith),
          (on_day-IsTime 3 (omega arith), (on_day-IsTime 7 (omega arith), tt)),
        ),
      ),
    ),
  ),
)

week-AreApart : AreApart week
unfolding earlier
week-AreApart = ground arith

on_day_listed : mem (stamped crash_file_name (on_day 4)) (map (stamped crash_file_name) week) ≡ true
unfolding stamped stamp zero_pad decimal bytes_eq
on_day_listed = refl

april_week_cleared :
    clear_crash_files linux log
      (some (map (stamped crash_file_name) week))
      all_there
      (crash_file_path log (on_day 4))
    ≡ (all_there (crash_file_path log (on_day 4))
        && not (leb 6 (length week) && ltb (age_rank (on_day 4) week) 3))
april_week_cleared =
    clear_crash_files-earlier linux log week all_there (on_day 4) (λ path. refl) log-IsRoot
      (omega arith) week-IsTime week-AreApart (on_day-IsTime 4 (omega arith)) on_day_listed

abbrev crash_log : Log
crash_log = record { tm = some april; fd = some 5; exe = codes "/bin/a"; tid = 77 }

abbrev frames : List Frame
frames = record { text = codes "01: [0x1]"; spawn = spawned; reads = some (codes "main") } ∷ []

abbrev started : Process
started = record { actions = λ _. sig_dfl; files = none_there; events = []; raised = [] }

abbrev no_maps : Maps
no_maps = record { time = none; pid = 5; shown = log; src_fd = none; dest_fd = none; chunks = [] }

abbrev crash : Crash
crash = record { sys = linux; maps = no_maps; log = crash_log; frames = frames }

abbrev signals : List (ℕ × Crash)
signals = (11, crash) ∷ (23, crash) ∷ (6, crash) ∷ (11, crash) ∷ []

stamped-earlier_example :
    bytes_less (stamped crash_file_name (on_day 9)) (stamped crash_file_name (on_day 11))
    ≡ earlier (on_day 9) (on_day 11)
stamped-earlier_example =
    stamped-earlier crash_file_name (on_day 9) (on_day 11) (on_day-IsTime 9 (omega arith))
      (on_day-IsTime 11 (omega arith))

-- ===== src/CrashHandler.antt =====
-- The files of crash_handler/crash_handler.cpp: `ClearCrashFiles`, `RemoveSingleFile` and
-- `CheckDirExistOrMake`, on a file system that is the test whether a path exists.
pub mod Sorting
pub mod Oldest
pub mod Naming
pub mod Signals
pub mod Descriptors
mod Tests
use cpp_done.Prelude.{
  ℕ, ◌+◌, ◌-◌, ◌/◌, Bool, true, false, not, ◌&&◌, ◌||◌, Option, none, some, List, [], ◌∷◌, ◌++◌,
  ltb, leb, ◌==◌, if◌then◌else◌, length, take, drop, keep,
}
use cpp_done.Std.Text.{Bytes, codes, is_empty, front, bytes_eq, c_str, starts_with}
use Sorting.{sort}

abbrev pub Files : Type 0
Files = Bytes → Bool

-- What `unlink` answers for a path, and what paths exist after `mkdir`, or `none` where it fails: one
-- directory has many paths.
pub record System : Type 0 where
  pub unlinks : Bytes → Bool
  pub makes : Bytes → Files → Option Files

abbrev pub set_file : Bytes → Bool → Files → Files
set_file path b fs other = if bytes_eq other path then b else fs other

abbrev pub crash_file_name : Bytes
crash_file_name = codes "crash_trace"

abbrev pub crash_process_maps : Bytes
crash_process_maps = codes "crash_process_maps"

abbrev pub crash_file_max_num : ℕ
crash_file_max_num = 6

abbrev pub slash : Bytes
slash = b'/' ∷ []

-- `filepath` is a C string
unfoldable pub remove_single_file : System → Bytes → Files → Bool × Files
remove_single_file sys filepath fs =
    if bytes_eq filepath slash
    then (false, fs)
    else if not (front filepath == b'/')
    then (false, fs)
    else if not (fs filepath)
    then (true, fs)
    else if sys.unlinks filepath
    then (true, set_file filepath false fs)
    else (false, fs)

-- the loop over the files at the front of the sorted list
unfoldable pub remove_each : System → Bytes → List Bytes → Files → Files
remove_each sys log_path [] fs = fs
remove_each sys log_path (name ∷ names) fs =
    remove_each sys log_path names (remove_single_file sys (c_str (log_path ++ name)) fs).1

unfoldable pub clear_old : System → Bytes → List Bytes → Files → Files
clear_old sys log_path names fs =
    if leb crash_file_max_num (length names)
    then remove_each sys log_path (take (crash_file_max_num / 2) (sort names)) fs
    else fs

unfoldable pub is_crash_file : Bytes → Bool
is_crash_file name = starts_with crash_file_name name

unfoldable pub is_process_maps : Bytes → Bool
is_process_maps name = not (starts_with crash_file_name name) && starts_with crash_process_maps name

-- `listing` is what the directory iterator gives, or `none` where it throws, which is caught
unfoldable pub clear_crash_files : System → Bytes → Option (List Bytes) → Files → Files
clear_crash_files sys log_path listing fs = elim listing [
  | none ↦ fs
  | some names ↦
      clear_old sys log_path (keep is_process_maps names)
        (clear_old sys log_path (keep is_crash_file names) fs)
]

-- the loop over `dest_dir`, with the bytes before the current one
unfoldable pub make_dirs : System → Bytes → Bytes → Files → Bool × Files
make_dirs sys before [] fs = (true, fs)
make_dirs sys before (c ∷ rest) fs =
    let go_on = make_dirs sys (before ++ c ∷ []) rest in
    if not (c == b'/') || fs before
    then go_on fs
    else elim (sys.makes before fs) [ none ↦ (false, fs) | some made ↦ go_on made ]

-- `sizeof(dir)` is the size of a pointer, 8
abbrev pub dest_size : ℕ
dest_size = 8 - 2

abbrev pub last_byte : Bytes → Option ℕ
last_byte [] = none
last_byte (c ∷ []) = some c
last_byte (c ∷ d ∷ s) = last_byte (d ∷ s)

-- `dir` is a C string; `none` is `dir[-1]`
unfoldable pub check_dir_exist_or_make : System → Bytes → Files → Option (Bool × Files)
check_dir_exist_or_make sys dir fs = if fs dir then some (true, fs) else elim (last_byte dir) [
  | none ↦ none
  | some last ↦
      let copied = take dest_size dir in
      let dest_dir = if last == b'/' then copied else copied ++ slash in
      some (make_dirs sys (take 1 dest_dir) (drop 1 dest_dir) fs)
]

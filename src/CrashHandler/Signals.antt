-- ===== src/CrashHandler/Signals.antt =====
-- `CrashHandler::Init` and `ProcessCrashSig` of crash_handler/crash_handler.cpp: the actions of the
-- signals, in the debug build. `CrashSighandler` calls `ProcessCrashSig` of the one instance.
pub mod Unsaved
use cpp_done.CrashHandler.Descriptors.{Event, Log, Frame, crash_file_copy, save_backtrace_for_sig}
use cpp_done.CrashHandler.Naming.{Tm, process_maps_source, process_maps_path, crash_file_path}
use cpp_done.CrashHandler.{Files, System, set_file, clear_crash_files, check_dir_exist_or_make}
use cpp_done.Prelude.{
  ℕ, Bool, true, false, Option, none, some, List, [], ◌∷◌, ◌++◌, ◌==◌, if◌then◌else◌, ◌>>=◌,
}
use cpp_done.Std.Text.{Bytes, c_str}

abbrev pub sigstop : ℕ
sigstop = 19

abbrev pub sigurg : ℕ
sigurg = 23

-- SIGINT, SIGILL, SIGABRT, SIGBUS, SIGFPE, SIGSEGV, SIGSTKFLT
abbrev pub caught : List ℕ
caught = 2 ∷ 4 ∷ 6 ∷ 7 ∷ 8 ∷ 11 ∷ 16 ∷ []

pub data Action : Type 0 where
  sig_dfl : Action
  crash_sighandler : Action
  other : ℕ → Action

pub record CrashHandler : Type 0 where
  pub old_sig_act : ℕ → Option Action
  pub back_trace : Bool

-- `kCrashLogPath_`, which is constant and empty
abbrev pub crash_log_path : Bytes
crash_log_path = []

-- The process: the action of each signal, its files, what was done with descriptors, and the
-- signals that it raised.
pub record Process : Type 0 where
  pub actions : ℕ → Action
  pub files : Files
  pub events : List Event
  pub raised : List ℕ

unfoldable pub new : CrashHandler
new = record { old_sig_act = λ _. none; back_trace = true }

unfoldable pub set_back_trace : Bool → CrashHandler → CrashHandler
set_back_trace enable h = record h { back_trace = enable }

abbrev pub set_action {ℓ} : {A : Type ℓ} → ℕ → A → (ℕ → A) → ℕ → A
set_action signo a actions s = if s == signo then a else actions s

-- `sigaction(signo, &act, &oldSigAct_[signo])`
abbrev catch : ℕ → CrashHandler × Process → CrashHandler × Process
catch signo (h, p) = (
  record h { old_sig_act = set_action signo (some (p.actions signo)) h.old_sig_act },
  record p { actions = set_action signo crash_sighandler p.actions },
)

abbrev catch_each : List ℕ → CrashHandler × Process → CrashHandler × Process
catch_each [] s = s
catch_each (signo ∷ signals) s = catch_each signals (catch signo s)

unfoldable pub init : System → Option (List Bytes) → CrashHandler → Process → CrashHandler × Process
init sys listing h p =
    catch_each caught
      (h, record p { files = clear_crash_files sys (c_str crash_log_path) listing p.files })

-- What the calls of one crash answer: `localtime_r`, `getpid`, what `%s` makes of the path, `open` of
-- the two files of the maps, and the pieces that `read` gets.
pub record Maps : Type 0 where
  pub time : Option Tm
  pub pid : ℕ
  pub shown : Bytes
  pub src_fd : Option ℕ
  pub dest_fd : Option ℕ
  pub chunks : List Bytes

unfoldable pub save_process_maps_to_log : Maps → List Event
save_process_maps_to_log maps = elim maps.time [
  | none ↦ []
  | some tm ↦
      crash_file_copy (some (process_maps_source maps.pid)) (some (process_maps_path maps.shown tm))
        maps.src_fd maps.dest_fd maps.chunks
]

-- the files that the copy of the maps and the writing of the crash file make
unfoldable pub save_maps_file : Maps → Files → Files
save_maps_file maps fs = elim maps.time [
  | none ↦ fs
  | some tm ↦ elim maps.src_fd [
    | none ↦ fs
    | some _ ↦ elim maps.dest_fd [
      | none ↦ fs
      | some _ ↦ set_file (process_maps_path maps.shown tm) true fs
    ]
  ]
]

unfoldable pub save_crash_file : Bool → Bytes → Log → Files → Files
save_crash_file back_trace log_path log fs =
    if back_trace
    then elim log.tm [
      | none ↦ fs
      | some tm ↦ elim log.fd [
        | none ↦ fs
        | some _ ↦ set_file (crash_file_path log_path tm) true fs
      ]
    ]
    else fs

pub record Crash : Type 0 where
  pub sys : System
  pub maps : Maps
  pub log : Log
  pub frames : List Frame

-- `none` is the read before the path in `CheckDirExistOrMake`
unfoldable pub process_crash_sig : CrashHandler → ℕ → Crash → Process → Option Process
process_crash_sig h signo crash p =
    check_dir_exist_or_make crash.sys (c_str crash_log_path) p.files >>= λ made.
    let saved : List Event =
      if made.0
      then save_process_maps_to_log crash.maps
        ++ save_backtrace_for_sig h.back_trace signo crash.log crash.frames
      else [] in
    let files =
      if made.0
      then save_crash_file h.back_trace crash_log_path crash.log (save_maps_file crash.maps made.1)
      else made.1 in
    let q = record p { files = files; events = p.events ++ saved } in
    some (
      if signo == sigurg then q else record q {
        actions = set_action signo sig_dfl q.actions;
        raised = q.raised ++ sigstop ∷ [];
      })

-- Signals that arrive one after the other, and those that `CrashSighandler` was called for. What
-- another action does is left out.
unfoldable pub deliver : CrashHandler → List (ℕ × Crash) → Process → Option (Process × List ℕ)
deliver h [] p = some (p, [])
deliver h ((signo, crash) ∷ signals) p = elim (p.actions signo) [
  | crash_sighandler ↦ process_crash_sig h signo crash p >>= λ q.
      deliver h signals q >>= λ rest. some (rest.0, signo ∷ rest.1)
  | sig_dfl ↦ deliver h signals p
  | other _ ↦ deliver h signals p
]

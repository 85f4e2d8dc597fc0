-- ===== src/CrashHandler/Descriptors.antt =====
-- The file descriptors of crash_handler/crash_handler.cpp: `v_popen`, `Addr2line`, `CrashFileCopy`,
-- `CrashTimeStampCreate`, `CrashFileOpenAndWriteCommon` and `SaveBacktraceForSig`, by the calls on
-- descriptors that they make in the process itself. A child of `vfork` has descriptors of its own.
pub mod Balance
use cpp_done.Prelude.{
  ℕ, Bool, true, false, not, ◌||◌, Option, none, some, List, [], ◌∷◌, ◌++◌, if◌then◌else◌, ◌==◌,
}
use cpp_done.CrashHandler.Naming.{Tm, clock}
use cpp_done.Std.Decimal.{decimal}
use cpp_done.Std.Text.{Bytes, codes, is_empty, bytes_eq, c_str}

pub data Event : Type 0 where
  opened : ℕ → Event
  closed : ℕ → Event
  wrote : ℕ → Bytes → Event
  locked : ℕ → Event
  unlocked : ℕ → Event

-- The two ends of the pipe, and whether `vfork` succeeds.
pub record Spawn : Type 0 where
  pub pipe : Option (ℕ × ℕ)
  pub forks : Bool

unfoldable pub v_popen : Spawn → Bytes → Option ℕ × List Event
v_popen sys type =
    if not (bytes_eq type (codes "r") || bytes_eq type (codes "w"))
    then (none, [])
    else elim sys.pipe [
      | none ↦ (none, [])
      | some (r, w) ↦
          if not sys.forks
          then (none, opened r ∷ opened w ∷ closed r ∷ closed w ∷ [])
          else if bytes_eq type (codes "r")
          then (some r, opened r ∷ opened w ∷ closed w ∷ [])
          else (some w, opened r ∷ opened w ∷ closed r ∷ [])
    ]

-- The debug build. `reads` is the line that `read` gets, or `none` where it fails.
unfoldable pub addr_to_line : Spawn → Option Bytes → ℕ → Option Bytes × List Event
addr_to_line sys reads line_size =
    let (fd, events) = v_popen sys (codes "r") in
    if line_size == 0
    then (none, [])
    else elim fd [ none ↦ (none, events) | some f ↦ (reads, events ++ closed f ∷ []) ]

unfoldable pub crash_file_close : Option ℕ → List Event
crash_file_close none = []
crash_file_close (some fd) = closed fd ∷ []

abbrev pub write_chunks : ℕ → List Bytes → List Event
write_chunks fd [] = []
write_chunks fd (chunk ∷ chunks) =
    let rest = write_chunks fd chunks in if is_empty chunk then [] else wrote fd chunk ∷ rest

-- `src_fd` and `dest_fd` are what `open` returns, `chunks` what `read` gets until its end or an error
unfoldable pub crash_file_copy :
    Option Bytes → Option Bytes → Option ℕ → Option ℕ → List Bytes → List Event
crash_file_copy none dest src_fd dest_fd chunks = []
crash_file_copy (some src) none src_fd dest_fd chunks = []
crash_file_copy (some src) (some dest) src_fd dest_fd chunks = elim src_fd [
  | none ↦ []
  | some s ↦ elim dest_fd [
    | none ↦ opened s ∷ closed s ∷ []
    | some d ↦ opened s ∷ opened d ∷ (write_chunks d chunks ++ closed s ∷ closed d ∷ [])
  ]
]

-- The answers for one file: `localtime_r`, `open`, the path of the program from `readlink`, and
-- `gettid`.
pub record Log : Type 0 where
  pub tm : Option Tm
  pub fd : Option ℕ
  pub exe : Bytes
  pub tid : ℕ

unfoldable pub crash_time_stamp_create : Option Tm → Option ℕ → List Event
crash_time_stamp_create ptm fd = elim ptm [
  | none ↦ []
  | some tm ↦ elim fd [ none ↦ [] | some f ↦ opened f ∷ wrote f (c_str (clock tm)) ∷ closed f ∷ [] ]
]

abbrev pub newline : Bytes
newline = 10 ∷ []

-- the two lines about the crash, of a type that is not null
unfoldable pub dump_time : Tm → Bytes
dump_time tm = codes "Dump Time: " ++ (clock tm ++ newline)

unfoldable pub current_thread : ℕ → ℕ → Bytes → Bytes
current_thread tid signo type =
    codes "Current thread: "
    ++ (decimal tid
        ++ (codes ", Catch signal: " ++ (decimal signo ++ (codes " Type: " ++ (type ++ newline)))))

unfoldable pub crash_file_open_and_write_common : ℕ → Bytes → Log → Option ℕ × List Event
unfolding dump_time current_thread
crash_file_open_and_write_common signo type log = elim log.tm [
  | none ↦ (none, [])
  | some tm ↦ elim log.fd [
    | none ↦ (none, [])
    | some f ↦ (
      some f,
      opened f
          ∷ ((if is_empty log.exe then [] else wrote f (log.exe ++ newline) ∷ [])
              ++ wrote f (dump_time tm)
                ∷ wrote f (current_thread log.tid signo type)
                ∷ wrote f newline
                ∷ []),
    )
  ]
]

-- One frame of the stack: its line, and the answers for `Addr2line`.
pub record Frame : Type 0 where
  pub text : Bytes
  pub spawn : Spawn
  pub reads : Option Bytes

-- the loop over the frames, which `unw_step` ends
unfoldable pub write_frames : ℕ → List Frame → List Event
write_frames fd [] = []
write_frames fd (frame ∷ frames) =
    let (line, events) = addr_to_line frame.spawn frame.reads 4096 in
    let found : List Event = elim line [
      | none ↦ []
      | some l ↦ wrote fd (c_str l) ∷ wrote fd newline ∷ []
    ] in
    wrote fd frame.text ∷ wrote fd (codes " ") ∷ (events ++ (found ++ write_frames fd frames))

unfoldable pub save_backtrace_for_sig : Bool → ℕ → Log → List Frame → List Event
unfolding crash_file_close
save_backtrace_for_sig back_trace signo log frames =
    let (fd, events) = crash_file_open_and_write_common signo (codes "crash") log in
    if back_trace
    then elim fd [
      | none ↦ events
      | some f ↦
          events ++ locked f ∷ (write_frames f frames ++ unlocked f ∷ crash_file_close (some f))
    ]
    else []

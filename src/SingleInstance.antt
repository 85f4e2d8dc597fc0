-- ===== src/SingleInstance.antt =====
-- single_instance_process/single_instance_process.cpp and .h: the pid file, as one process sees it
-- from its start. The file at `kMyPidFile` is its bytes, or `none` where it does not exist. What the
-- calls of the operating system answer is a record; `exits` is the end of the process by `exit` or
-- `_exit`, which run no destructor of `main`'s object.
pub mod Start
pub mod Instances
pub mod Overlap
mod Tests
use cpp_done.Prelude.{
  ℕ, zero, suc, ◌+◌, ◌-◌, ◌*◌, ◌/◌, ◌%◌, ◌^◌, Bool, true, false, ◌&&◌, ◌||◌, Option, none, some,
  List, [], ◌∷◌, ◌++◌, ◌==◌, ltb, leb, if◌then◌else◌, length, take, drop,
}
use cpp_done.Std.Text.{Bytes, is_empty, front, c_str}
use cpp_done.Std.Decimal.{decimal, atol}

pub data Kill : Type 0 where
  alive esrch other : Kill

pub record System : Type 0 where
  -- `open(O_RDWR)` of a file that exists, `open(O_CREAT | O_EXCL)`, `flock`, `read`: do they succeed?
  pub opens : Bool
  pub creates : Bool
  pub locks : Bool
  pub reads : Bool
  -- the result of `write`: the count of bytes, or `none` for -1
  pub write : Bytes → Option ℕ
  -- `kill(pid, 0)`, by the bit pattern of the 32-bit `pid_t`
  pub kill : ℕ → Kill

pub data Outcome : Type 0 where
  running exits : Outcome

abbrev pub buf_len_for_pid : ℕ
buf_len_for_pid = 64

-- the bytes of the file after `n` bytes of `buf` were written at an offset
abbrev pub splice : ℕ → ℕ → Bytes → Bytes → Bytes
splice offset n buf content = take offset content ++ (take n buf ++ drop (offset + n) content)

unfoldable pub write_pid_into_fd : System → ℕ → ℕ → Bytes → Outcome × Bytes
write_pid_into_fd sys pid offset content = elim (sys.write (decimal pid)) [
  | none ↦ (exits, content)
  | some ret ↦
      if ret == 0 then (exits, content) else (running, splice offset ret (decimal pid) content)
]

-- `CreatePidFile` behind its `open`, with what the file then holds
unfoldable pub fill_pid_file : System → ℕ → Bytes → Outcome × Bytes
fill_pid_file sys pid content =
    if sys.locks then write_pid_into_fd sys pid 0 content else (exits, content)

-- the new file is there, and empty, where `flock` fails
unfoldable pub create_pid_file : System → ℕ → Outcome × Option Bytes
unfolding fill_pid_file
create_pid_file sys pid =
    if sys.creates
    then (let (o, content) = fill_pid_file sys pid [] in (o, some content))
    else (exits, none)

-- `buf` is zeroed, so that `atol` reads the bytes of `read` up to the first NUL. The offset of the
-- file stands behind what was read.
unfoldable pub check_pid_file : System → ℕ → Bytes → Outcome × Bytes
check_pid_file sys pid content =
    let got = take (buf_len_for_pid - 1) content in
    let write = write_pid_into_fd sys pid (length got) content in
    if sys.locks
    then (if sys.reads
        then (if is_empty got then write else elim (sys.kill (atol (c_str got))) [
          | alive ↦ (exits, content)
          | esrch ↦ write
          | other ↦ (exits, content)
        ])
        else (exits, content))
    else (exits, content)

unfoldable pub check_only : System → ℕ → Option Bytes → Outcome × Option Bytes
check_only sys pid file = elim file [
  | none ↦ create_pid_file sys pid
  | some content ↦
      if sys.opens
      then (let (o, written) = check_pid_file sys pid content in (o, some written))
      else (exits, some content)
]

abbrev pub sigint : ℕ
sigint = 2

abbrev pub sigterm : ℕ
sigterm = 15

-- the destructor, and `RemovePidFile`, which ignore what `std::remove` returns: does it succeed?
unfoldable pub remove_pid_file : Bool → Option Bytes → Option Bytes
remove_pid_file removes file = if removes then none else file

unfoldable pub sig_handler : Bool → ℕ → Option Bytes → Outcome × Option Bytes
sig_handler removes sig file =
    if sig == sigint || sig == sigterm then (exits, remove_pid_file removes file) else (exits, file)

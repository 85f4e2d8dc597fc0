-- ===== src/CrashHandler/Descriptors/Balance.antt =====
-- Each function of crash_handler/crash_handler.cpp closes what it opens, on every path.
use cpp_done.CrashHandler.Descriptors.{
  Event, opened, closed, wrote, locked, unlocked, Spawn, v_popen, addr_to_line, crash_file_close,
  write_chunks, crash_file_copy, Log, crash_file_open_and_write_common, Frame, write_frames,
  save_backtrace_for_sig,
}
use cpp_done.Prelude.{
  ℕ, ◌+◌, ◌≡◌, refl, Bool, Option, none, some, List, [], ◌∷◌, ◌++◌, if◌then◌else◌, ◌==◌, arith,
}
use cpp_done.Std.Text.{Bytes, codes}

-- how often a descriptor is opened, and how often it is closed
abbrev pub opens : ℕ → List Event → ℕ
opens fd [] = 0
opens fd (opened f ∷ es) = if f == fd then 1 + opens fd es else opens fd es
opens fd (closed f ∷ es) = opens fd es
opens fd (wrote f s ∷ es) = opens fd es
opens fd (locked f ∷ es) = opens fd es
opens fd (unlocked f ∷ es) = opens fd es

abbrev pub closes : ℕ → List Event → ℕ
closes fd [] = 0
closes fd (opened f ∷ es) = closes fd es
closes fd (closed f ∷ es) = if f == fd then 1 + closes fd es else closes fd es
closes fd (wrote f s ∷ es) = closes fd es
closes fd (locked f ∷ es) = closes fd es
closes fd (unlocked f ∷ es) = closes fd es

abbrev pub held : ℕ → Option ℕ → ℕ
held fd none = 0
held fd (some f) = if f == fd then 1 else 0

pub opens-append : (fd : ℕ) (xs ys : List Event) → opens fd (xs ++ ys) ≡ opens fd xs + opens fd ys
opens-append fd [] ys = omega arith
opens-append fd (opened f ∷ xs) ys = ground (arith, opens-append fd xs ys)
opens-append fd (closed f ∷ xs) ys = opens-append fd xs ys
opens-append fd (wrote f s ∷ xs) ys = opens-append fd xs ys
opens-append fd (locked f ∷ xs) ys = opens-append fd xs ys
opens-append fd (unlocked f ∷ xs) ys = opens-append fd xs ys

pub closes-append :
    (fd : ℕ) (xs ys : List Event) → closes fd (xs ++ ys) ≡ closes fd xs + closes fd ys
closes-append fd [] ys = omega arith
closes-append fd (opened f ∷ xs) ys = closes-append fd xs ys
closes-append fd (closed f ∷ xs) ys = ground (arith, closes-append fd xs ys)
closes-append fd (wrote f s ∷ xs) ys = closes-append fd xs ys
closes-append fd (locked f ∷ xs) ys = closes-append fd xs ys
closes-append fd (unlocked f ∷ xs) ys = closes-append fd xs ys

ruleset counting = (arith, opens-append, closes-append)

-- the result is the only descriptor that is opened and not closed
v_popen-held :
    (fd : ℕ) (sys : Spawn) (type : Bytes)
    → let r = v_popen sys type in opens fd r.1 ≡ closes fd r.1 + held fd r.0
unfolding v_popen
v_popen-held fd sys type = ground arith

addr_to_line-balance :
    (fd : ℕ) (sys : Spawn) (reads : Option Bytes) (line_size : ℕ)
    → let r = addr_to_line sys reads line_size in opens fd r.1 ≡ closes fd r.1
unfolding addr_to_line
addr_to_line-balance fd sys reads line_size =
    let p = v_popen sys (codes "r") in grind (counting, v_popen-held fd sys (codes "r"))

write_chunks-balance :
    (fd f : ℕ) (chunks : List Bytes)
    → (opens fd (write_chunks f chunks) ≡ 0) × (closes fd (write_chunks f chunks) ≡ 0)
write_chunks-balance fd f [] = (refl, refl)
write_chunks-balance fd f (c ∷ cs) = ground (arith, write_chunks-balance fd f cs)

pub crash_file_copy-balance :
    (fd : ℕ) (src dest : Option Bytes) (src_fd dest_fd : Option ℕ) (chunks : List Bytes)
    → let es = crash_file_copy src dest src_fd dest_fd chunks in opens fd es ≡ closes fd es
unfolding crash_file_copy
crash_file_copy-balance fd src dest src_fd dest_fd chunks =
    grind (counting, write_chunks-balance fd)

common-held :
    (fd signo : ℕ) (type : Bytes) (log : Log)
    → let r = crash_file_open_and_write_common signo type log in
      opens fd r.1 ≡ closes fd r.1 + held fd r.0
unfolding crash_file_open_and_write_common
common-held fd signo type log = ground arith

write_frames-balance :
    (fd f : ℕ) (frames : List Frame)
    → opens fd (write_frames f frames) ≡ closes fd (write_frames f frames)
unfolding write_frames
write_frames-balance fd f [] = refl
write_frames-balance fd f (frame ∷ frames) = grind (
  counting,
  addr_to_line-balance fd frame.spawn frame.reads 4096,
  write_frames-balance fd f frames,
)

pub save_backtrace-balance :
    (fd : ℕ) (back_trace : Bool) (signo : ℕ) (log : Log) (frames : List Frame)
    → let es = save_backtrace_for_sig back_trace signo log frames in opens fd es ≡ closes fd es
unfolding save_backtrace_for_sig crash_file_close
save_backtrace-balance fd back_trace signo log frames =
    grind (counting, common-held fd signo (codes "crash") log, write_frames-balance fd)

-- Whatever fails, SaveBacktraceForSig with every popen of its frames, and CrashFileCopy, close
-- each descriptor as often as they open it, and v_popen leaves open exactly the one that it
-- returns.
pub crash_files-balance :
    (fd : ℕ) (back_trace : Bool) (signo : ℕ) (log : Log) (frames : List Frame)
    (src dest : Option Bytes) (src_fd dest_fd : Option ℕ) (chunks : List Bytes) (sys : Spawn)
    (type : Bytes)
    → let trace = save_backtrace_for_sig back_trace signo log frames in
      let copy = crash_file_copy src dest src_fd dest_fd chunks in
      let popen = v_popen sys type in
      (opens fd trace ≡ closes fd trace)
      × (opens fd copy ≡ closes fd copy)
      × (opens fd popen.1 ≡ closes fd popen.1 + held fd popen.0)
crash_files-balance fd back_trace signo log frames src dest src_fd dest_fd chunks sys type = (
  save_backtrace-balance fd back_trace signo log frames,
  crash_file_copy-balance fd src dest src_fd dest_fd chunks,
  v_popen-held fd sys type,
)

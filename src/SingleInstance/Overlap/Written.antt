-- ===== src/SingleInstance/Overlap/Written.antt =====
-- What the part of `CheckOnly` of single_instance_process/single_instance_process.cpp under the lock does
-- to a pid file that is empty or holds a pid.
use cpp_done.Prelude.{
  ℕ, ◌+◌, ◌^◌, ◌≤◌, ◌<◌, ◌≡◌, ◌≢◌, ◌∙◌, ◌⊎◌, inl, inr, none, some, [], arith, length, take_all,
  append-nil, Bool-cases,
}
use cpp_done.SingleInstance.Start.{
  recorded, recorded-digits, check_pid_file_guard, drop_past, IsSome-length,
}
use cpp_done.SingleInstance.{
  System, Outcome, running, exits, esrch, write_pid_into_fd, fill_pid_file, check_pid_file,
}
use cpp_done.Std.Decimal.Padded.{length-decimal}
use cpp_done.Std.Decimal.{decimal, atol-decimal, decimal-AllDigits, decimal-IsSome}
use cpp_done.Std.Text.{Bytes}

-- what a write at the start of the file may do
abbrev pub Written : ℕ → Bytes → Outcome × Bytes → Type 0
Written pid content r = (r ≡ (exits, content)) ⊎ (r ≡ (running, decimal pid))

abbrev pub Writes : System → ℕ → Type 0
Writes sys pid =
    (sys.write (decimal pid) ≡ none)
    ⊎ ((sys.write (decimal pid) ≡ some 0) ⊎ (sys.write (decimal pid) ≡ some (length (decimal pid))))

write-Written :
    (sys : System) (pid : ℕ) (content : Bytes)
    → Writes sys pid
    → length content ≤ length (decimal pid)
    → Written pid content (write_pid_into_fd sys pid 0 content)
unfolding write_pid_into_fd
write-Written sys pid content (inl e) h = inl (ground arith)
write-Written sys pid content (inr (inl e)) h = inl (ground arith)
write-Written sys pid content (inr (inr e)) h = inr (
    rw (
      e,
      write_pid_into_fd,
      IsSome-length (decimal pid) (decimal-IsSome pid),
      take_all (length (decimal pid)) (decimal pid) (omega arith),
      drop_past (0 + length (decimal pid)) content (omega arith),
      append-nil,
    ))

pub fill-Written :
    (sys : System) (pid : ℕ) (content : Bytes)
    → Writes sys pid
    → length content ≤ length (decimal pid)
    → Written pid content (fill_pid_file sys pid content)
unfolding fill_pid_file
fill-Written sys pid content w h = elim (write-Written sys pid content w h) [
  | inl e ↦ elim (Bool-cases sys.locks) [ inl l ↦ inl (simp l e) | inr l ↦ inl (simp l) ]
  | inr e ↦ elim (Bool-cases sys.locks) [ inl l ↦ inr (simp l e) | inr l ↦ inl (simp l) ]
]

pub check-Written :
    (sys : System) (pid : ℕ) → Writes sys pid → Written pid [] (check_pid_file sys pid [])
unfolding check_pid_file
check-Written sys pid w = elim (write-Written sys pid [] w (omega arith)) [
  | inl e ↦ inl (ground arith)
  | inr e ↦ elim (Bool-cases sys.locks) [
    | inl l ↦ elim (Bool-cases sys.reads) [
      | inl r ↦ inr (ground arith)
      | inr r ↦ inl (ground arith)
    ]
    | inr l ↦ inl (ground arith)
  ]
]

-- the pid of a living process in the file
pub check-living :
    (sys : System) (pid p : ℕ)
    → p < 2 ^ 31
    → sys.kill p ≢ esrch
    → check_pid_file sys pid (decimal p) ≡ (exits, decimal p)
check-living sys pid p small k =
    let short = length-decimal p 9 (omega arith) in
    let read : recorded (decimal p) ≡ p =
      recorded-digits (decimal p) (decimal-AllDigits p) (omega arith) ∙ atol-decimal p small in
    check_pid_file_guard sys pid (decimal p) (decimal-IsSome p) (rw read k)

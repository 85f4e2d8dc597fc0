-- ===== src/SingleInstance/Instances.antt =====
-- Several processes that use single_instance_process/single_instance_process.cpp, one after the other in
-- `CheckOnly`, with the pid file that they share.
use cpp_done.Prelude.{
  ℕ, ◌^◌, ◌<◌, ◌≡◌, ◌∙◌, ap, refl, ◌⊎◌, inl, inr, Bool, true, false, ◌||◌, Option, none, some, [],
  arith, ◌==◌, ==_iff, if◌then◌else◌, length,
}
use cpp_done.SingleInstance.Start.{recorded, recorded-digits, check_only_guard, write_at_end}
use cpp_done.SingleInstance.{
  alive, esrch, System, Outcome, running, exits, write_pid_into_fd, create_pid_file, check_pid_file,
  check_only, sigint, sigterm, remove_pid_file, sig_handler,
}
use cpp_done.Std.Decimal.Padded.{length-decimal}
use cpp_done.Std.Decimal.{decimal, atol-decimal, decimal-AllDigits, decimal-IsSome}
use cpp_done.Std.Text.{Bytes}

-- The pid file, the processes of the system, and those that `CheckOnly` let go on.
pub record World : Type 0 where
  pub file : Option Bytes
  pub lives : ℕ → Bool
  pub past : ℕ → Bool

unfoldable pub new : World
new = record { file = none; lives = λ _. false; past = λ _. false }

abbrev mark_at : ℕ → Bool → (ℕ → Bool) → ℕ → Bool
mark_at pid b f other = if other == pid then b else f other

-- `kill` knows the processes, the caller included, and `write` takes all or nothing; any other call may
-- fail.
pub record Answers (w : World) (pid : ℕ) (sys : System) : Type 0 where
  pub kills : (n : ℕ) → sys.kill n ≡ (if n == pid || w.lives n then alive else esrch)
  pub writes :
      (buf : Bytes)
      → (sys.write buf ≡ none) ⊎ ((sys.write buf ≡ some 0) ⊎ (sys.write buf ≡ some (length buf)))

abbrev pub is_running : Outcome → Bool
is_running running = true
is_running exits = false

-- a new process calls `CheckOnly`
unfoldable pub begin : System → ℕ → World → World
begin sys pid w =
    let (outcome, file) = check_only sys pid w.file in
    record w {
      file = file;
      lives = mark_at pid (is_running outcome) w.lives;
      past = mark_at pid (is_running outcome) w.past;
    }

-- a process ends, and leaves this file
unfoldable pub finish : Option Bytes → ℕ → World → World
finish file pid w = record w {
  file = file;
  lives = mark_at pid false w.lives;
  past = mark_at pid false w.past;
}

-- Processes of the program, and others.
pub data Step (w : World) : World → Type 0 where
  begins :
      (sys : System) (pid : ℕ)
      → w.lives pid ≡ false
      → pid < 2 ^ 31
      → Answers w pid sys
      → Step w (begin sys pid w)
  -- the handler of SIGINT and SIGTERM, and the destructor, where `std::remove` succeeds
  is_signalled :
      (sig pid : ℕ)
      → w.past pid ≡ true
      → (sig ≡ sigint) ⊎ (sig ≡ sigterm)
      → Step w (finish (sig_handler true sig w.file).1 pid w)
  returns : (pid : ℕ) → w.past pid ≡ true → Step w (finish (remove_pid_file true w.file) pid w)
  other_comes : (pid : ℕ) → Step w (record w { lives = mark_at pid true w.lives })
  other_goes :
      (pid : ℕ) → w.past pid ≡ false → Step w (record w { lives = mark_at pid false w.lives })

pub data Reach : World → Type 0 where
  first : Reach new
  next : {w v : World} → Reach w → Step w v → Reach v

-- The only process that went on, if there is one: its pid is in the file.
pub data IsSingle (w : World) : Type 0 where
  nobody : ((q : ℕ) → w.past q ≡ false) → (w.file ≡ none) ⊎ (w.file ≡ some []) → IsSingle w
  one :
      (p : ℕ)
      → ((q : ℕ) → w.past q ≡ (q == p))
      → w.lives p ≡ true
      → p < 2 ^ 31
      → w.file ≡ some (decimal p)
      → IsSingle w

-- what `CheckOnly` may do without a pid in the file
abbrev Clean : ℕ → Outcome × Option Bytes → Type 0
Clean pid r = (r ≡ (exits, none)) ⊎ ((r ≡ (exits, some [])) ⊎ (r ≡ (running, some (decimal pid))))

abbrev Writes : System → ℕ → Type 0
Writes sys pid =
    (sys.write (decimal pid) ≡ none)
    ⊎ ((sys.write (decimal pid) ≡ some 0) ⊎ (sys.write (decimal pid) ≡ some (length (decimal pid))))

write-empty :
    (sys : System) (pid : ℕ)
    → Writes sys pid
    → (write_pid_into_fd sys pid 0 [] ≡ (exits, []))
      ⊎ (write_pid_into_fd sys pid 0 [] ≡ (running, decimal pid))
unfolding write_pid_into_fd
write-empty sys pid (inl e) = inl (ground arith)
write-empty sys pid (inr (inl e)) = inl (ground arith)
write-empty sys pid (inr (inr e)) = inr (write_at_end sys pid [] e)

check_only-empty :
    (sys : System) (pid : ℕ) (file : Option Bytes)
    → (file ≡ none) ⊎ (file ≡ some [])
    → Writes sys pid
    → Clean pid (check_only sys pid file)
unfolding check_only create_pid_file check_pid_file
check_only-empty sys pid file (inl e) writes = elim (write-empty sys pid writes) [
  | inl w ↦ ground arith
  | inr w ↦ ground arith
]
check_only-empty sys pid file (inr e) writes = elim (write-empty sys pid writes) [
  | inl w ↦ ground arith
  | inr w ↦ ground arith
]

-- with the pid of a living process in the file the caller ends
check_only-one :
    (w : World) (sys : System) (pid p : ℕ)
    → Answers w pid sys
    → w.lives p ≡ true
    → p < 2 ^ 31
    → check_only sys pid (some (decimal p)) ≡ (exits, some (decimal p))
check_only-one w sys pid p answers living small =
    let short = length-decimal p 9 (omega arith) in
    let read : recorded (decimal p) ≡ p =
      recorded-digits (decimal p) (decimal-AllDigits p) (omega arith) ∙ atol-decimal p small in
    check_only_guard sys pid (decimal p) (decimal-IsSome p)
      (λ gone. ground (arith, answers.kills p, ap sys.kill read))

sig_removes :
    (sig : ℕ) (file : Option Bytes)
    → (sig ≡ sigint) ⊎ (sig ≡ sigterm)
    → (sig_handler true sig file).1 ≡ none
unfolding sig_handler remove_pid_file
sig_removes sig file (inl e) = ground arith
sig_removes sig file (inr e) = ground arith

-- nobody is left
finish-IsSingle :
    {w : World} (pid : ℕ) → w.past pid ≡ true → IsSingle w → IsSingle (finish none pid w)
unfolding finish
finish-IsSingle pid e (nobody free file) = nobody (λ q. ground (arith, free q)) (inl refl)
finish-IsSingle pid e (one p only living low file) =
    nobody (λ q. ground (arith, only q, only pid, ==_iff pid p)) (inl refl)

Step-IsSingle : {w v : World} → Step w v → IsSingle w → IsSingle v
unfolding begin finish sig_handler remove_pid_file
Step-IsSingle {w} (begins sys pid fresh small answers) (nobody free file) =
    elim (check_only-empty sys pid w.file file (answers.writes (decimal pid))) [
      | inl e ↦ rw e (nobody (λ q. ground (arith, free q)) (inl refl))
      | inr (inl e) ↦ rw e (nobody (λ q. ground (arith, free q)) (inr refl))
      | inr (inr e) ↦ rw e (one pid (λ q. ground (arith, free q)) (ground arith) small refl)
    ]
Step-IsSingle {w} (begins sys pid fresh small answers) (one p only living low file) =
    rw (file, check_only-one w sys pid p answers living low)
      (one p (λ q. ground (arith, only q, ==_iff q pid, ==_iff q p)) (ground (arith, ==_iff p pid))
        low refl)
Step-IsSingle {w} (is_signalled sig pid e h) i =
    rw (sig_removes sig w.file h) (finish-IsSingle pid e i)
Step-IsSingle (returns pid e) i = finish-IsSingle pid e i
Step-IsSingle (other_comes pid) (nobody free file) = nobody free file
Step-IsSingle (other_comes pid) (one p only living low file) = one p only (ground arith) low file
Step-IsSingle (other_goes pid e) (nobody free file) = nobody free file
Step-IsSingle (other_goes pid e) (one p only living low file) =
    one p only (ground (arith, only pid, ==_iff p pid)) low file

-- From a system without a pid file, for processes whose calls of CheckOnly take place one after
-- the other, and of which those that it lets go on end by returning, by SIGINT or by SIGTERM,
-- while other processes come and go: if kill knows the living processes, write takes all or
-- nothing and the removal of the file succeeds, then whatever other calls fail, at most one
-- process is there that CheckOnly let go on; it lives and its pid alone is in the file. Without
-- one the file is absent or empty.
pub Reach-IsSingle : {w : World} → Reach w → IsSingle w
unfolding new
Reach-IsSingle first = nobody (λ q. refl) (inl refl)
Reach-IsSingle (next r s) = Step-IsSingle s (Reach-IsSingle r)

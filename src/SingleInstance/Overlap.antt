-- ===== src/SingleInstance/Overlap.antt =====
-- Several processes in `CheckOnly` of single_instance_process/single_instance_process.cpp at the same
-- time, with the pid file that they share, as long as none of those that it lets go on ends. A step is
-- a call of `open`, or all that is done under the lock of the file.
pub mod Written
pub mod Pairs
use cpp_done.Prelude.{
  ℕ, ◌^◌, ◌<◌, ◌≡◌, ◌≢◌, ◌⊎◌, Bool, true, false, ◌||◌, Option, none, some, [], ◌==◌, if◌then◌else◌,
  length,
}
use cpp_done.SingleInstance.{System, Outcome, running, exits, esrch, fill_pid_file, check_pid_file}
use cpp_done.Std.Decimal.{decimal}
use cpp_done.Std.Text.{Bytes}

-- Where a process is: not there, behind an `open` that found no file, with the file that it made or
-- found and the lock to come, and behind `CheckOnly`.
pub data Place : Type 0 where
  absent opening made found past : Place

pub record World : Type 0 where
  pub file : Option Bytes
  pub place : ℕ → Place
  -- the living processes of other programs
  pub others : ℕ → Bool

unfoldable pub new : World
new = record { file = none; place = λ _. absent; others = λ _. false }

abbrev pub is_here : Place → Bool
is_here absent = false
is_here opening = true
is_here made = true
is_here found = true
is_here past = true

abbrev pub lives : World → ℕ → Bool
lives w n = is_here (w.place n) || w.others n

abbrev pub put_at {ℓ} : {A : Type ℓ} → ℕ → A → (ℕ → A) → ℕ → A
put_at pid a f other = if other == pid then a else f other

abbrev after : Outcome → Place
after running = past
after exits = absent

-- `open(kMyPidFile, O_RDWR)`
unfoldable pub open_file : System → ℕ → World → World
open_file sys pid w = record w {
  place =
      put_at pid (elim w.file [ none ↦ opening | some _ ↦ (if sys.opens then found else absent) ])
        w.place;
}

-- `open(kMyPidFile, O_WRONLY | O_CREAT | O_EXCL, 0666)`
unfoldable pub make_file : System → ℕ → World → World
make_file sys pid w = elim w.file [
  | none ↦
      if sys.creates
      then record w { file = some []; place = put_at pid made w.place }
      else record w { place = put_at pid absent w.place }
  | some _ ↦ record w { place = put_at pid absent w.place }
]

-- the part under the lock ends with this outcome and file
unfoldable pub leave : ℕ → Outcome × Bytes → World → World
leave pid (outcome, content) w = record w {
  file = some content;
  place = put_at pid (after outcome) w.place;
}

-- `kill` finds the living processes, and `write` takes all or nothing; any other call may fail.
pub record Answers (w : World) (sys : System) : Type 0 where
  pub kills : (n : ℕ) → lives w n ≡ true → sys.kill n ≢ esrch
  pub writes :
      (buf : Bytes)
      → (sys.write buf ≡ none) ⊎ ((sys.write buf ≡ some 0) ⊎ (sys.write buf ≡ some (length buf)))

-- The pids have `width` digits.
pub data Step (width : ℕ) (w : World) : World → Type 0 where
  opens_file :
      (sys : System) (pid : ℕ)
      → lives w pid ≡ false
      → pid < 2 ^ 31
      → length (decimal pid) ≡ width
      → Step width w (open_file sys pid w)
  makes_file : (sys : System) (pid : ℕ) → w.place pid ≡ opening → Step width w (make_file sys pid w)
  fills_file :
      (sys : System) (pid : ℕ) (content : Bytes)
      → w.place pid ≡ made
      → w.file ≡ some content
      → Answers w sys
      → Step width w (leave pid (fill_pid_file sys pid content) w)
  checks_file :
      (sys : System) (pid : ℕ) (content : Bytes)
      → w.place pid ≡ found
      → w.file ≡ some content
      → Answers w sys
      → Step width w (leave pid (check_pid_file sys pid content) w)
  other_comes : (pid : ℕ) → Step width w (record w { others = put_at pid true w.others })
  other_goes : (pid : ℕ) → Step width w (record w { others = put_at pid false w.others })

pub data Reach (width : ℕ) : World → Type 0 where
  first : Reach width new
  next : {w v : World} → Reach width w → Step width w v → Reach width v

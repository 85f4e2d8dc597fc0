-- ===== src/SingleInstance/Start.antt =====
-- `CheckOnly` of single_instance_process/single_instance_process.cpp on every state of the pid file.
use cpp_done.Prelude.{
  ℕ, zero, suc, ◌+◌, ◌-◌, ◌*◌, ◌^◌, ◌≤◌, ◌<◌, ◌≡◌, ◌≢◌, refl, ◌∙◌, ◌⊎◌, inl, inr, true, false,
  Option, none, some, [], ◌∷◌, ◌++◌, arith, ◌==◌, length, take, drop, take_all, append-nil,
}
use cpp_done.Std.Decimal.{
  decimal, atol, digits_from, AllDigits, atol-decimal, decimal-AllDigits, decimal-IsSome,
  digits_from-append, digits_from_shift,
}
use cpp_done.SingleInstance.{
  System, esrch, running, exits, buf_len_for_pid, write_pid_into_fd, create_pid_file,
  check_pid_file, check_only, sigint, sigterm, remove_pid_file, sig_handler,
}
use cpp_done.Std.Text.{Bytes, is_empty, c_str, Avoids, c_str-of-Avoids}

-- `write` takes all that it is given.
abbrev pub WritesAll : System → Type 0
WritesAll sys = (buf : Bytes) → sys.write buf ≡ some (length buf)

-- Every call but `kill` succeeds.
pub record IsCalm (sys : System) : Type 0 where
  pub opens : sys.opens ≡ true
  pub creates : sys.creates ≡ true
  pub locks : sys.locks ≡ true
  pub reads : sys.reads ≡ true
  pub writes : WritesAll sys

pub drop_past : (n : ℕ) (s : Bytes) → length s ≤ n → drop n s ≡ []
drop_past zero [] h = refl
drop_past zero (c ∷ s) h = absurd (omega arith)
drop_past (suc n) [] h = refl
drop_past (suc n) (c ∷ s) h = drop_past n s (omega arith)

pub IsSome-length : (s : Bytes) → is_empty s ≡ false → (length s == 0) ≡ false
IsSome-length [] e = ground arith
IsSome-length (c ∷ s) e = ground arith

-- A whole write at the end of the file.
pub write_at_end :
    (sys : System) (pid : ℕ) (content : Bytes)
    → sys.write (decimal pid) ≡ some (length (decimal pid))
    → write_pid_into_fd sys pid (length content) content ≡ (running, content ++ decimal pid)
unfolding write_pid_into_fd
write_at_end sys pid content w =
    let buf = decimal pid in
    rw (
      w,
      write_pid_into_fd,
      IsSome-length buf (decimal-IsSome pid),
      take_all (length content) content (omega arith),
      take_all (length buf) buf (omega arith),
      drop_past (length content + length buf) content (omega arith),
      append-nil,
    )

-- Without a pid file, or with an empty one, and if the calls of the system succeed, CheckOnly goes
-- on with a file that holds the digits of the pid, and these digits are read back as the pid if it
-- is below 2 ^ 31.
pub check_only-fresh :
    (sys : System) (pid : ℕ) (file : Option Bytes)
    → IsCalm sys
    → (file ≡ none) ⊎ (file ≡ some [])
    → pid < 2 ^ 31
    → (check_only sys pid file ≡ (running, some (decimal pid))) × (atol (decimal pid) ≡ pid)
unfolding check_only create_pid_file check_pid_file
check_only-fresh sys pid file c (inl absent) small =
    (ground (arith, write_at_end sys pid [] (c.writes (decimal pid))), atol-decimal pid small)
check_only-fresh sys pid file c (inr empty) small =
    (ground (arith, write_at_end sys pid [] (c.writes (decimal pid))), atol-decimal pid small)

-- The recorded pid, as the program reads it.
abbrev pub recorded : Bytes → ℕ
recorded content = atol (c_str (take (buf_len_for_pid - 1) content))

pub check_pid_file_guard :
    (sys : System) (pid : ℕ) (content : Bytes)
    → is_empty content ≡ false
    → sys.kill (recorded content) ≢ esrch
    → check_pid_file sys pid content ≡ (exits, content)
unfolding check_pid_file
check_pid_file_guard sys pid [] e k = absurd (cc)
check_pid_file_guard sys pid (c ∷ s) e k = ground arith

-- On a pid file that is not empty, CheckOnly ends the process and leaves the file as it was,
-- whichever other calls fail, unless kill answers for the recorded pid that there is no such
-- process.
pub check_only_guard :
    (sys : System) (pid : ℕ) (content : Bytes)
    → is_empty content ≡ false
    → sys.kill (recorded content) ≢ esrch
    → check_only sys pid (some content) ≡ (exits, some content)
unfolding check_only check_pid_file
check_only_guard sys pid [] e k = absurd (cc)
check_only_guard sys pid (c ∷ s) e k = ground arith

digit-Avoids : (s : Bytes) → AllDigits s → Avoids 0 s
digit-Avoids [] a = tt
digit-Avoids (c ∷ s) a = (ground arith, digit-Avoids s a.1)

pub recorded-digits : (s : Bytes) → AllDigits s → length s < buf_len_for_pid → recorded s ≡ atol s
recorded-digits s a h =
    rw (take_all (buf_len_for_pid - 1) s (omega arith), c_str-of-Avoids s (digit-Avoids s a))

-- On a pid file with at most 63 digits of a process that is gone, and if the other calls of the
-- system succeed, CheckOnly goes on, but the pid is written behind the old digits: the number in
-- the file is the old one shifted by the length of the new, plus the new.
pub check_only-stale :
    (sys : System) (pid : ℕ) (content : Bytes)
    → IsCalm sys
    → AllDigits content
    → is_empty content ≡ false
    → length content < buf_len_for_pid
    → sys.kill (atol content) ≡ esrch
    → (check_only sys pid (some content) ≡ (running, some (content ++ decimal pid)))
      × (digits_from 0 (content ++ decimal pid)
          ≡ digits_from 0 content * 10 ^ length (decimal pid) + digits_from 0 (decimal pid))
unfolding check_only check_pid_file
check_only-stale sys pid content c a e short gone =
    let got = take_all (buf_len_for_pid - 1) content (omega arith) in
    (
      ground (
        arith,
        got,
        c_str-of-Avoids content (digit-Avoids content a),
        write_at_end sys pid content (c.writes (decimal pid)),
      ),
      digits_from-append 0 content (decimal pid) a
          ∙ digits_from_shift (digits_from 0 content) (decimal pid) (decimal-AllDigits pid),
    )

-- On SIGINT and SIGTERM the handler ends the process and, where the call succeeds, removes the
-- pid file, so that a later CheckOnly whose calls succeed goes on with a file that holds only its own pid.
pub sig_handler-restart :
    (sys : System) (pid sig : ℕ) (file : Option Bytes)
    → IsCalm sys
    → pid < 2 ^ 31
    → (sig ≡ sigint) ⊎ (sig ≡ sigterm)
    → (sig_handler true sig file ≡ (exits, none))
      × (check_only sys pid (sig_handler true sig file).1 ≡ (running, some (decimal pid)))
unfolding sig_handler remove_pid_file
sig_handler-restart sys pid sig file c small h =
    let gone : sig_handler true sig file ≡ (exits, none) = ground arith in
    (gone, rw gone (check_only-fresh sys pid none c (inl refl) small).0)

-- ===== src/CrashHandler/Naming/Age.antt =====
-- The names of crash_handler/crash_handler.cpp in their order as texts, which `ClearCrashFiles` sorts
-- by, and the times that they carry.
use cpp_done.CrashHandler.Naming.{Tm, stamp, stamped, crash_file_path}
use cpp_done.CrashHandler.Oldest.{Unlinks, IsRoot, IsName, AllNames, clear_crash_files-is_old}
use cpp_done.CrashHandler.Sorting.{mem, rank, AreDistinct, bytes_less_irrefl}
use cpp_done.CrashHandler.{
  Files, System, crash_file_name, is_crash_file, is_process_maps, clear_crash_files,
}
use cpp_done.Prelude.{
  ℕ, suc, ◌+◌, ◌≤◌, ◌<◌, ◌^◌, ◌≡◌, refl, ap, ◌∙◌, Bool, true, false, not, ◌&&◌, ◌||◌, some, List,
  [], ◌∷◌, ◌++◌, arith, ltb, leb, ◌==◌, if◌then◌else◌, length, keep, map, Bool-cases, inl, inr, All,
  length-append, take_all, append-nil,
}
use cpp_done.Std.Decimal.Padded.{zero_pad, zero_pad-less, zero_pad-IsPadded}
use cpp_done.Std.Decimal.{AllDigits}
use cpp_done.Std.Text.{
  Bytes, c_str-of-Avoids, bytes_less, bytes_eq, bytes_eq_iff, Avoids, Avoids-append, starts_with,
}

-- What `localtime_r` gives, up to the year 9999.
pub record IsTime (t : Tm) : Type 0 where
  pub year : t.tm_year + 1900 < 10 ^ 4
  pub mon : t.tm_mon + 1 < 10 ^ 2
  pub mday : t.tm_mday < 10 ^ 2
  pub hour : t.tm_hour < 10 ^ 2
  pub min : t.tm_min < 10 ^ 2
  pub sec : t.tm_sec < 10 ^ 2

abbrev before : ℕ → ℕ → Bool → Bool
before n m rest = if ltb n m then true else if ltb m n then false else rest

-- one time is before another
unfoldable pub earlier : Tm → Tm → Bool
earlier a b = before a.tm_year b.tm_year (
    before a.tm_mon b.tm_mon (
      before a.tm_mday b.tm_mday
        (before a.tm_hour b.tm_hour (before a.tm_min b.tm_min (ltb a.tm_sec b.tm_sec)))))

zero_pad-less_end :
    (w n m : ℕ)
    → n < 10 ^ suc w
    → m < 10 ^ suc w
    → bytes_less (zero_pad (suc w) n) (zero_pad (suc w) m) ≡ ltb n m
unfolding bytes_less
zero_pad-less_end w n m h k = ground (
  arith,
  zero_pad-less w n m [] [] h k,
  append-nil (zero_pad (suc w) n),
  append-nil (zero_pad (suc w) m),
)

bytes_less-same : (p s t : Bytes) → bytes_less (p ++ s) (p ++ t) ≡ bytes_less s t
unfolding bytes_less
bytes_less-same [] s t = refl
bytes_less-same (c ∷ p) s t = ground (arith, bytes_less-same p s t)

stamp-earlier : (a b : Tm) → IsTime a → IsTime b → bytes_less (stamp a) (stamp b) ≡ earlier a b
unfolding stamp earlier bytes_less
stamp-earlier a b p q =
    rw
      (
        zero_pad-less 3 (a.tm_year + 1900) (b.tm_year + 1900) _ _ p.year q.year,
        zero_pad-less 1 (a.tm_mon + 1) (b.tm_mon + 1) _ _ p.mon q.mon,
        zero_pad-less 1 a.tm_mday b.tm_mday _ _ p.mday q.mday,
        zero_pad-less 1 a.tm_hour b.tm_hour _ _ p.hour q.hour,
        zero_pad-less 1 a.tm_min b.tm_min _ _ p.min q.min,
        zero_pad-less_end 1 a.tm_sec b.tm_sec p.sec q.sec,
      )
      (ground arith)

-- For times of the calendar up to the year 9999, the name of a file of one kind that is stamped
-- with the first time is before that of the second, by the order of std::string that std::sort
-- uses, exactly if the first time is earlier.
pub stamped-earlier :
    (kind : Bytes) (a b : Tm)
    → IsTime a
    → IsTime b
    → bytes_less (stamped kind a) (stamped kind b) ≡ earlier a b
unfolding stamped bytes_less
stamped-earlier kind a b p q = rw (bytes_less-same kind _ _) (ground (arith, stamp-earlier a b p q))

digits-Avoids : (s : Bytes) → AllDigits s → Avoids 0 s
digits-Avoids [] a = tt
digits-Avoids (c ∷ s) a = (ground (arith, a.0), digits-Avoids s a.1)

zero_pad-Avoids : (w n : ℕ) → n < 10 ^ suc w → Avoids 0 (zero_pad (suc w) n)
zero_pad-Avoids w n h = digits-Avoids _ (zero_pad-IsPadded w n h).all

-- a field, the mark behind it, and what follows
field-Avoids :
    (w n c : ℕ) (s : Bytes)
    → n < 10 ^ suc w
    → (c == 0) ≡ false
    → Avoids 0 s
    → Avoids 0 (zero_pad (suc w) n ++ c ∷ s)
field-Avoids w n c s h k a = Avoids-append 0 _ (c ∷ s) (zero_pad-Avoids w n h) (k, a)

stamp-Avoids : (t : Tm) → IsTime t → Avoids 0 (stamp t)
unfolding stamp
stamp-Avoids t i = field-Avoids 3 (t.tm_year + 1900) b'-' _ i.year refl (
    field-Avoids 1 (t.tm_mon + 1) b'-' _ i.mon refl (
      field-Avoids 1 t.tm_mday b'_' _ i.mday refl (
        field-Avoids 1 t.tm_hour b'_' _ i.hour refl
          (field-Avoids 1 t.tm_min b'_' _ i.min refl (zero_pad-Avoids 1 t.tm_sec i.sec)))))

abbrev trace_name : Tm → Bytes
trace_name t = stamped crash_file_name t

trace_name-IsName : (t : Tm) → IsTime t → IsName (trace_name t)
unfolding stamped
trace_name-IsName t i = record { some_byte = refl; no_nul = ground (arith, stamp-Avoids t i) }

-- how many of the times are before `t`
abbrev pub age_rank : Tm → List Tm → ℕ
age_rank t [] = 0
age_rank t (u ∷ us) = if earlier u t then suc (age_rank t us) else age_rank t us

-- of any two times, one is before the other
abbrev pub AreApart : List Tm → Type 0
AreApart [] = Unit
AreApart (t ∷ ts) = All (λ u. (earlier t u || earlier u t) ≡ true) ts × AreApart ts

rank-trace_name :
    (t : Tm) (ts : List Tm)
    → IsTime t
    → All IsTime ts
    → rank (trace_name t) (map trace_name ts) ≡ age_rank t ts
rank-trace_name t [] i a = refl
rank-trace_name t (u ∷ us) i a =
    ground (arith, rank-trace_name t us i a.1, stamped-earlier crash_file_name u t a.0 i)

mem-apart :
    (t : Tm) (ts : List Tm)
    → IsTime t
    → All IsTime ts
    → All (λ u. (earlier t u || earlier u t) ≡ true) ts
    → mem (trace_name t) (map trace_name ts) ≡ false
mem-apart t [] i a d = refl
mem-apart t (u ∷ us) i a d = ground (
  arith,
  mem-apart t us i a.1 d.1,
  d.0,
  stamped-earlier crash_file_name u t a.0 i,
  stamped-earlier crash_file_name t u i a.0,
  bytes_eq_iff (trace_name t) (trace_name u),
  bytes_less_irrefl (trace_name t),
)

map-AreDistinct : (ts : List Tm) → All IsTime ts → AreApart ts → AreDistinct (map trace_name ts)
map-AreDistinct [] a d = tt
map-AreDistinct (t ∷ ts) a d = (mem-apart t ts a.0 a.1 d.0, map-AreDistinct ts a.1 d.1)

map-AllNames : (ts : List Tm) → All IsTime ts → AllNames (map trace_name ts)
map-AllNames [] a n h = absurd cc
map-AllNames (t ∷ ts) a n h = elim (Bool-cases (bytes_eq n (trace_name t))) [
  | inl e ↦ rw ((bytes_eq_iff n (trace_name t)).0 e) (trace_name-IsName t a.0)
  | inr e ↦ map-AllNames ts a.1 n (ground (arith, e))
]

keep-trace_name :
    (ts : List Tm)
    → (keep is_crash_file (map trace_name ts) ≡ map trace_name ts)
      × (keep is_process_maps (map trace_name ts) ≡ [])
unfolding is_crash_file is_process_maps stamped starts_with
keep-trace_name [] = (refl, refl)
keep-trace_name (t ∷ ts) = ground (arith, keep-trace_name ts)

length-map : (ts : List Tm) → length (map trace_name ts) ≡ length ts
length-map [] = refl
length-map (t ∷ ts) = ap suc (length-map ts)

length-field :
    (w n c : ℕ) (s : Bytes)
    → n < 10 ^ suc w
    → length (zero_pad (suc w) n ++ c ∷ s) ≡ suc w + suc (length s)
length-field w n c s h =
    omega (arith, length-append (zero_pad (suc w) n) (c ∷ s), (zero_pad-IsPadded w n h).size)

length-stamp : (t : Tm) → IsTime t → length (stamp t) ≡ 19
unfolding stamp
length-stamp t i = rw (
  length-field 3 (t.tm_year + 1900) b'-' _ i.year,
  length-field 1 (t.tm_mon + 1) b'-' _ i.mon,
  length-field 1 t.tm_mday b'_' _ i.mday,
  length-field 1 t.tm_hour b'_' _ i.hour,
  length-field 1 t.tm_min b'_' _ i.min,
  (zero_pad-IsPadded 1 t.tm_sec i.sec).size,
)

-- a path that fits in the buffer is not cut off
crash_file_path_whole :
    (log_path : Bytes) (t : Tm)
    → IsRoot log_path
    → IsTime t
    → length log_path ≤ 223
    → crash_file_path log_path t ≡ log_path ++ trace_name t
unfolding crash_file_path stamped
crash_file_path_whole log_path t r i h = rw (c_str-of-Avoids log_path r.no_nul) (
    take_all 254 (log_path ++ trace_name t)
      (omega (arith, length-append log_path (trace_name t), length-stamp t i)))

-- With an absolute log path of at most 223 bytes without a NUL, unlink calls that succeed, and a
-- directory that holds the crash files of distinct times up to the year 9999 and nothing else,
-- ClearCrashFiles removes the crash file of a time exactly if there are at least six and fewer
-- than three of them are of an earlier time: the order of the names, by which it sorts, is the
-- order of the times.
pub clear_crash_files-earlier :
    (sys : System) (log_path : Bytes) (ts : List Tm) (fs : Files) (t : Tm)
    → Unlinks sys
    → IsRoot log_path
    → length log_path ≤ 223
    → All IsTime ts
    → AreApart ts
    → IsTime t
    → mem (stamped crash_file_name t) (map (stamped crash_file_name) ts) ≡ true
    → clear_crash_files sys log_path
        (some (map (stamped crash_file_name) ts))
        fs
        (crash_file_path log_path t)
      ≡ (fs (crash_file_path log_path t) && not (leb 6 (length ts) && ltb (age_rank t ts) 3))
clear_crash_files-earlier sys log_path ts fs t u r short a d i m =
    let names = map trace_name ts in
    rw (crash_file_path_whole log_path t r i short) (
      (clear_crash_files-is_old sys log_path names fs u r (map-AllNames ts a)
          (map-AreDistinct ts a d)).0
        (trace_name t)
      ∙ rw
          (
            (keep-trace_name ts).0,
            (keep-trace_name ts).1,
            length-map ts,
            m,
            rank-trace_name t ts i a,
          )
          (ground arith))

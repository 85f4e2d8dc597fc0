-- ===== src/Netlink/Rmem.antt =====
-- `SaveRmemSize` of netlink/netlink_proc_mon.cpp, which reads a number from a file.
use cpp_done.Prelude.{
  ℕ, zero, suc, ◌-◌, ◌^◌, ◌≤◌, ◌<◌, ◌≡◌, refl, ap, ◌∙◌, false, Option, none, some, [], ◌∷◌, ◌++◌,
  arith, if◌then◌else◌, length, take,
}
use cpp_done.Std.Decimal.Padded.{length-decimal}
use cpp_done.Std.Decimal.{decimal, AllDigits, atol_long, atol_long-decimal, decimal-AllDigits}
use cpp_done.Std.Text.{Bytes, is_empty, c_str}

-- -1 as a 64-bit `ssize_t`
abbrev minus_one : ℕ
minus_one = 2 ^ 64 - 1

abbrev buf_size : ℕ
buf_size = 1204

-- `read` gives the bytes for a count, or `none` for -1; without it the file does not open. The buffer is
-- zeroed, so that `atol` stops behind what was read.
unfoldable pub save_rmem_size : Option (ℕ → Option Bytes) → ℕ
save_rmem_size none = minus_one
save_rmem_size (some read) = elim (read (buf_size - 1)) [
  | none ↦ minus_one
  | some got ↦ if is_empty got then 0 else atol_long (c_str got)
]

take-append : (k : ℕ) (s t : Bytes) → length s ≤ k → take k (s ++ t) ≡ s ++ take (k - length s) t
take-append k [] t h = ap (λ n. take n t) (omega arith)
take-append zero (c ∷ s) t h = absurd (omega arith)
take-append (suc k) (c ∷ s) t h =
    ap (λ u. c ∷ u) (take-append k s t (omega arith) ∙ ap (λ n. s ++ take n t) (omega arith))

c_str-append : (s t : Bytes) → AllDigits s → c_str (s ++ t) ≡ s ++ c_str t
unfolding c_str
c_str-append [] t a = refl
c_str-append (c ∷ s) t a = ground (arith, c_str-append s t a.1)

append-IsSome : (s : Bytes) (c : ℕ) (t : Bytes) → is_empty (s ++ c ∷ t) ≡ false
append-IsSome [] c t = refl
append-IsSome (d ∷ s) c t = refl

-- A file that holds a number below 2 ^ 63 and a newline is read back as the number.
pub save_rmem_size-decimal :
    (n : ℕ) (rest : Bytes)
    → n < 2 ^ 63
    → save_rmem_size (some (λ k. some (take k (decimal n ++ 10 ∷ rest)))) ≡ n
unfolding save_rmem_size c_str
save_rmem_size-decimal n rest h =
    let short = length-decimal n 18 (omega arith) in
    let got = take-append (buf_size - 1) (decimal n) (10 ∷ rest) (omega arith) in
    let more : buf_size - 1 - length (decimal n) ≡ suc (buf_size - 2 - length (decimal n)) =
      omega arith in
    let tail = take (buf_size - 2 - length (decimal n)) rest in
    let start : take (buf_size - 1) (decimal n ++ 10 ∷ rest) ≡ decimal n ++ 10 ∷ tail =
      got ∙ ap (λ k. decimal n ++ take k (10 ∷ rest)) more in
    let read : c_str (decimal n ++ 10 ∷ tail) ≡ decimal n ++ 10 ∷ c_str tail =
      c_str-append (decimal n) (10 ∷ tail) (decimal-AllDigits n) in
    rw (start, append-IsSome (decimal n) 10 tail, read)
      (atol_long-decimal n (10 ∷ c_str tail) h refl)

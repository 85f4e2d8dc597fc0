-- ===== src/Std/Decimal/Padded.antt =====
-- Numbers in decimal with zeros in front, as `printf` writes them with "%0<w>d", and their order as texts.
use native.Mathlib.Nat.{pow-suc}
use cpp_done.Prelude.{
  ℕ, zero, suc, ◌+◌, ◌-◌, ◌*◌, ◌/◌, ◌%◌, ◌^◌, ◌<◌, ◌≡◌, refl, ◌∙◌, sym, true, false, [], ◌∷◌, ◌++◌,
  arith, ltb, if◌then◌else◌, length, All-append, replicate, length-append, length-replicate, ◌≤◌,
}
use cpp_done.Std.Text.{Bytes, bytes_less}
use cpp_done.Std.Decimal.{
  is_digit, decimal_fuel, decimal, digits_from, AllDigits, decimal-Writes, digits_from_shift,
}

abbrev zero_digit : ℕ
zero_digit = 48

-- `%0<w>d`
unfoldable pub zero_pad : ℕ → ℕ → Bytes
zero_pad w n = let s = decimal n in replicate (w - length s) zero_digit ++ s

length-decimal_fuel : (f n w : ℕ) → n < f → n < 10 ^ suc w → length (decimal_fuel f n) ≤ suc w
unfolding decimal_fuel
length-decimal_fuel zero n w h k = absurd (omega arith)
length-decimal_fuel (suc f) n zero h k = ground arith
length-decimal_fuel (suc f) n (suc w) h k = ground (
  arith,
  pow-suc 10 (suc w),
  length-decimal_fuel f (n / 10) w,
  length-append (decimal_fuel f (n / 10)) ((48 + n % 10) ∷ []),
)

pub length-decimal : (n w : ℕ) → n < 10 ^ suc w → length (decimal n) ≤ suc w
unfolding decimal
length-decimal n w h = length-decimal_fuel (n + 1) n w (omega arith) h

digits_from-zeros :
    (k : ℕ) (s : Bytes) → digits_from 0 (replicate k zero_digit ++ s) ≡ digits_from 0 s
unfolding digits_from
digits_from-zeros zero s = refl
digits_from-zeros (suc k) s = digits_from-zeros k s

replicate-AllDigits : (k : ℕ) → AllDigits (replicate k zero_digit)
replicate-AllDigits zero = tt
replicate-AllDigits (suc k) = (refl, replicate-AllDigits k)

-- `w` digits of the value `n`
pub record IsPadded (w n : ℕ) (s : Bytes) : Type 0 where
  pub size : length s ≡ w
  pub all : AllDigits s
  pub value : digits_from 0 s ≡ n

pub zero_pad-IsPadded : (w n : ℕ) → n < 10 ^ suc w → IsPadded (suc w) n (zero_pad (suc w) n)
unfolding zero_pad decimal
zero_pad-IsPadded w n h =
    let d = decimal-Writes n in
    let short = length-decimal_fuel (n + 1) n w (omega arith) h in
    let k = suc w - length (decimal n) in
    let zeros : Bytes = replicate k zero_digit in
    record {
      size = omega (arith, length-append zeros (decimal n), length-replicate k zero_digit);
      all = All-append (λ c. is_digit c ≡ true) zeros (decimal n) (replicate-AllDigits k) d.all;
      value = digits_from-zeros k (decimal n) ∙ d.value;
    }

digit_bound : (d v p : ℕ) → d < 10 → v < p → d * p + v < p * 10
digit_bound d v p h k = grind arith

digits_from-lt : (s : Bytes) → AllDigits s → digits_from 0 s < 10 ^ length s
unfolding digits_from
digits_from-lt [] a = omega arith
digits_from-lt (c ∷ s) a =
    rw (a.0, digits_from_shift (0 * 10 + (c - 48)) s a.1, pow-suc 10 (length s))
      (digit_bound (0 * 10 + (c - 48)) (digits_from 0 s) (10 ^ length s) (ground (arith, a.0))
        (digits_from-lt s a.1))

digit_order : (d e v w p : ℕ) → d < e → v < p → w < p → d * p + v < e * p + w
digit_order d e v w p h k l = grind arith

digit_equal : (d e v w p : ℕ) → d ≡ e → ltb (d * p + v) (e * p + w) ≡ ltb v w
digit_equal d e v w p h = rw h (ground arith)

digit_compare :
    (d e v w p : ℕ)
    → v < p
    → w < p
    → ltb (d * p + v) (e * p + w) ≡ (if ltb d e then true else if ltb e d then false else ltb v w)
digit_compare d e v w p k l =
    ground (arith, digit_order d e v w p, digit_order e d w v p, digit_equal d e v w p)

-- texts of digits of one length are ordered as their values
pub bytes_less-digits :
    (s t : Bytes)
    → AllDigits s
    → AllDigits t
    → length s ≡ length t
    → bytes_less s t ≡ ltb (digits_from 0 s) (digits_from 0 t)
unfolding digits_from bytes_less
bytes_less-digits [] [] a b e = refl
bytes_less-digits [] (d ∷ t) a b e = absurd (omega arith)
bytes_less-digits (c ∷ s) [] a b e = absurd (omega arith)
bytes_less-digits (c ∷ s) (d ∷ t) a b e =
    let same : length s ≡ length t = omega arith in
    rw
      (
        a.0,
        b.0,
        digits_from_shift (0 * 10 + (c - 48)) s a.1,
        digits_from_shift (0 * 10 + (d - 48)) t b.1,
        same,
        digit_compare (0 * 10 + (c - 48)) (0 * 10 + (d - 48)) (digits_from 0 s) (digits_from 0 t)
            (10 ^ length t) (rw (← same) (digits_from-lt s a.1)) (digits_from-lt t b.1),
      )
      (ground (arith, bytes_less-digits s t a.1 b.1 same, a.0, b.0))

bytes_less-append :
    (s t u v : Bytes)
    → length s ≡ length t
    → bytes_less (s ++ u) (t ++ v)
      ≡ (if bytes_less s t then true else if bytes_less t s then false else bytes_less u v)
unfolding bytes_less
bytes_less-append [] [] u v e = refl
bytes_less-append [] (d ∷ t) u v e = absurd (omega arith)
bytes_less-append (c ∷ s) [] u v e = absurd (omega arith)
bytes_less-append (c ∷ s) (d ∷ t) u v e = ground (arith, bytes_less-append s t u v (omega arith))

-- two fields of one width, with what follows them
pub zero_pad-less :
    (w n m : ℕ) (u v : Bytes)
    → n < 10 ^ suc w
    → m < 10 ^ suc w
    → bytes_less (zero_pad (suc w) n ++ u) (zero_pad (suc w) m ++ v)
      ≡ (if ltb n m then true else if ltb m n then false else bytes_less u v)
zero_pad-less w n m u v h k =
    let p = zero_pad-IsPadded w n h in
    let q = zero_pad-IsPadded w m k in
    let same = p.size ∙ sym q.size in
    rw (
      bytes_less-append (zero_pad (suc w) n) (zero_pad (suc w) m) u v same,
      bytes_less-digits (zero_pad (suc w) n) (zero_pad (suc w) m) p.all q.all same,
      bytes_less-digits (zero_pad (suc w) m) (zero_pad (suc w) n) q.all p.all (sym same),
      p.value,
      q.value,
    )

-- ===== src/Std/Decimal.antt =====
-- `printf` with "%d" and "%0<w>d" of a number that is not negative, and `atol` as the C library reads a long: spaces, a sign,
-- digits, with the value kept within the range of a long.
pub mod Padded
use mathlib.Core.Path.{ap₂}
use native.Mathlib.Nat.{pow-suc}
use cpp_done.Prelude.{
  ℕ, zero, suc, ◌+◌, ◌-◌, ◌*◌, ◌/◌, ◌%◌, ◌^◌, ◌<◌, ◌≡◌, refl, ◌∙◌, sym, Bool, true, false, ◌&&◌,
  ◌||◌, [], ◌∷◌, ◌++◌, arith, ◌==◌, ltb, leb, if◌then◌else◌, length, inl, inr, Bool-cases, All,
  All-append, append-nil, ap, replicate, length-append, length-replicate, ◌≤◌,
}
use cpp_done.Std.Text.{Bytes, is_empty, bytes_less, front}

abbrev pub is_digit : ℕ → Bool
is_digit c = leb 48 c && leb c 57

-- Enough fuel is one more than the number.
decimal_fuel : ℕ → ℕ → Bytes
decimal_fuel zero n = []
decimal_fuel (suc f) n =
    let rest = decimal_fuel f (n / 10) in
    if ltb n 10 then (48 + n) ∷ [] else rest ++ (48 + n % 10) ∷ []

unfoldable pub decimal : ℕ → Bytes
unfolding decimal_fuel
decimal n = decimal_fuel (n + 1) n

-- the digits from here on, after the value read so far
unfoldable pub digits_from : ℕ → Bytes → ℕ
digits_from v [] = v
digits_from v (c ∷ s) = if is_digit c then digits_from (v * 10 + (c - 48)) s else v

abbrev is_space : ℕ → Bool
is_space c = c == 32 || (leb 9 c && leb c 13)

skip_spaces : Bytes → Bytes
skip_spaces [] = []
skip_spaces (c ∷ s) = if is_space c then skip_spaces s else c ∷ s

abbrev clamp : ℕ → ℕ → ℕ
clamp limit v = if ltb limit v then limit else v

-- the value as the bit pattern of a 64-bit `long`
signed : Bytes → ℕ
unfolding digits_from
signed [] = 0
signed (c ∷ s) =
    if c == 45
    then (2 ^ 64 - clamp (2 ^ 63) (digits_from 0 s)) % 2 ^ 64
    else if c == 43
    then clamp (2 ^ 63 - 1) (digits_from 0 s)
    else clamp (2 ^ 63 - 1) (digits_from 0 (c ∷ s))

unfoldable pub atol_long : Bytes → ℕ
unfolding skip_spaces signed
atol_long s = signed (skip_spaces s)

-- the value in a 32-bit `pid_t`
unfoldable pub atol : Bytes → ℕ
unfolding atol_long
atol s = atol_long s % 2 ^ 32

abbrev pub AllDigits : Bytes → Type 0
AllDigits s = All (λ c. is_digit c ≡ true) s

digits_from-push :
    (v d : ℕ) (s : Bytes)
    → d < 10
    → AllDigits s
    → digits_from v (s ++ (48 + d) ∷ []) ≡ digits_from v s * 10 + d
unfolding digits_from
digits_from-push v d [] h a = ground arith
digits_from-push v d (c ∷ s) h a = ground (arith, digits_from-push (v * 10 + (c - 48)) d s h a.1)

append-IsSome : (s : Bytes) (c : ℕ) → is_empty (s ++ c ∷ []) ≡ false
append-IsSome [] c = refl
append-IsSome (d ∷ s) c = refl

-- What one call of `decimal` writes for `n`.
record Writes (n : ℕ) (s : Bytes) : Type 0 where
  all : AllDigits s
  value : digits_from 0 s ≡ n
  some_digit : is_empty s ≡ false

push-Writes : (n : ℕ) (s : Bytes) → Writes (n / 10) s → Writes n (s ++ (48 + n % 10) ∷ [])
push-Writes n s w = record {
  all = All-append (λ c. is_digit c ≡ true) s ((48 + n % 10) ∷ []) w.all (ground arith);
  value = rw (digits_from-push 0 (n % 10) s (omega arith) w.all, w.value) (omega arith);
  some_digit = append-IsSome s (48 + n % 10);
}

decimal_fuel-Writes : (f n : ℕ) → n < f → Writes n (decimal_fuel f n)
unfolding decimal_fuel
decimal_fuel-Writes zero n h = absurd (omega arith)
decimal_fuel-Writes (suc f) n h = elim (Bool-cases (ltb n 10)) [
  | inl e ↦ rw e (record {
    all = ground arith;
    value = unfold digits_from in (ground arith);
    some_digit = refl;
  })
  | inr e ↦
      rw e (push-Writes n (decimal_fuel f (n / 10)) (decimal_fuel-Writes f (n / 10) (ground arith)))
]

decimal-Writes : (n : ℕ) → Writes n (decimal n)
unfolding decimal
decimal-Writes n = decimal_fuel-Writes (n + 1) n (omega arith)

pub decimal-AllDigits : (n : ℕ) → AllDigits (decimal n)
decimal-AllDigits n = (decimal-Writes n).all

pub decimal-IsSome : (n : ℕ) → is_empty (decimal n) ≡ false
decimal-IsSome n = (decimal-Writes n).some_digit

pub digits_from-append :
    (v : ℕ) (s t : Bytes) → AllDigits s → digits_from v (s ++ t) ≡ digits_from (digits_from v s) t
unfolding digits_from
digits_from-append v [] t a = refl
digits_from-append v (c ∷ s) t a = ground (arith, digits_from-append (v * 10 + (c - 48)) s t a.1)

shift_out : (v x p d : ℕ) → (v * 10 + x) * p + d ≡ v * (p * 10) + ((0 + x) * p + d)
shift_out v x p d = omega arith

-- A value in front moves up by the length of the digits that follow.
pub digits_from_shift :
    (v : ℕ) (s : Bytes) → AllDigits s → digits_from v s ≡ v * 10 ^ length s + digits_from 0 s
unfolding digits_from
digits_from_shift v [] a = omega arith
digits_from_shift v (c ∷ s) a = rw a.0 (
    digits_from_shift (v * 10 + (c - 48)) s a.1
    ∙ shift_out v (c - 48) (10 ^ length s) (digits_from 0 s)
    ∙ ap₂ (λ p q. v * p + q) (sym (pow-suc 10 (length s)))
        (sym (digits_from_shift (0 + (c - 48)) s a.1)))

-- reading ends at what is no digit
digits_from-stop : (v : ℕ) (rest : Bytes) → is_digit (front rest) ≡ false → digits_from v rest ≡ v
unfolding digits_from
digits_from-stop v [] e = refl
digits_from-stop v (c ∷ s) e = ground arith

atol_long_digits :
    (s rest : Bytes)
    → AllDigits s
    → is_empty s ≡ false
    → is_digit (front rest) ≡ false
    → digits_from 0 s < 2 ^ 63
    → atol_long (s ++ rest) ≡ digits_from 0 s
unfolding atol_long
atol_long_digits [] rest a e f h = absurd cc
atol_long_digits (c ∷ s) rest a e f h =
    let whole : digits_from 0 (c ∷ s ++ rest) ≡ digits_from 0 (c ∷ s) =
      digits_from-append 0 (c ∷ s) rest a ∙ digits_from-stop (digits_from 0 (c ∷ s)) rest f in
    ground (arith, whole)

-- the digits of a number, and no digit behind them
pub atol_long-decimal :
    (n : ℕ) (rest : Bytes)
    → n < 2 ^ 63
    → is_digit (front rest) ≡ false
    → atol_long (decimal n ++ rest) ≡ n
atol_long-decimal n rest h e =
    let w = decimal-Writes n in
    atol_long_digits (decimal n) rest w.all w.some_digit e (rw w.value h) ∙ w.value

pub atol-decimal : (n : ℕ) → n < 2 ^ 31 → atol (decimal n) ≡ n
unfolding atol
atol-decimal n h =
    omega (arith, ap atol_long (append-nil (decimal n)), atol_long-decimal n [] (omega arith) refl)

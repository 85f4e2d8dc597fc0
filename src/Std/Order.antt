-- ===== src/Std/Order.antt =====
-- `std::less` on a key type: a strict weak order, as the ordered containers ask of it.
use cpp_done.Prelude.{ℕ, ◌≡◌, Bool, true, false, not, ◌&&◌, arith, ltb}

pub record Less {ℓ} (K : Type ℓ) : Type ℓ where
  pub less : K → K → Bool
  pub less_asymm : (a b : K) → less a b ≡ true → less b a ≡ false
  -- what is not smaller along two steps is not smaller along both
  pub less_cotrans : (a b c : K) → less a b ≡ false → less b c ≡ false → less a c ≡ false

module _ {ℓ} {K : Type ℓ} ⦃o : Less K⦄ where
  -- keys that an ordered container takes for one
  infix 50 ◌~◌
  abbrev pub ◌~◌ : K → K → Bool
  a ~ b = not (o.less a b) && not (o.less b a)

  pub less_irrefl : (a : K) → o.less a a ≡ false
  less_irrefl a = ground (arith, o.less_asymm a a)

  pub ~_refl : (a : K) → (a ~ a) ≡ true
  ~_refl a = ground (arith, less_irrefl a)

  pub ~_symm : (a b : K) → (a ~ b) ≡ true → (b ~ a) ≡ true
  ~_symm a b h = ground arith

  pub ~_congr : (a b c : K) → (a ~ b) ≡ true → (a ~ c) ≡ (b ~ c)
  ~_congr a b c h = ground (
    arith,
    o.less_cotrans a b c,
    o.less_cotrans b a c,
    o.less_cotrans c a b,
    o.less_cotrans c b a,
  )

  pub less_trans : (a b c : K) → o.less a b ≡ true → o.less b c ≡ true → o.less a c ≡ true
  less_trans a b c h k = ground (arith, o.less_cotrans a c b, o.less_asymm b c, o.less_asymm a c)

  -- a smaller key stays smaller when the larger one is exchanged for an equivalent one
  pub less-congr_right : (a b c : K) → (b ~ c) ≡ true → o.less a b ≡ o.less a c
  less-congr_right a b c h = ground (arith, o.less_cotrans a b c, o.less_cotrans a c b)

pub ltb_asymm : (a b : ℕ) → ltb a b ≡ true → ltb b a ≡ false
ltb_asymm a b h = ground arith

pub ltb_cotrans : (a b c : ℕ) → ltb a b ≡ false → ltb b c ≡ false → ltb a c ≡ false
ltb_cotrans a b c h k = ground arith

instance abbrev pub nat_less : Less ℕ
nat_less = record { less = ltb; less_asymm = ltb_asymm; less_cotrans = ltb_cotrans }

-- ===== src/Std/Ends.antt =====
-- Runs that end whichever way they go on, as those of a thread that is to be joined.
use cpp_done.Prelude.{ℕ, zero, suc, ◌+◌, ◌<◌, ◌⊎◌, inl, inr, arith}

module _ {ℓ} {S : Type ℓ} (Own : S → S → Type ℓ) (Over : S → Type ℓ) where
  -- There is a next step until the run is over, and it is over after finitely many steps, whichever
  -- they are.
  pub data Ends : S → Type ℓ where
    over : {p : S} → Over p → Ends p
    goes_on : {p : S} (q : S) → Own p q → ((r : S) → Own p r → Ends r) → Ends p

  -- a measure that falls, on the states of an invariant
  module _ (measure : S → ℕ) (Keeps : S → Type ℓ)
      (falls : (p q : S) → Keeps p → Own p q → (measure q < measure p) × Keeps q)
      (advances : (p : S) → Keeps p → Over p ⊎ ((q : S) × Own p q)) where
    within-Ends : (n : ℕ) (p : S) → measure p < n → Keeps p → Ends p
    within-Ends zero p m k = absurd (omega arith)
    within-Ends (suc n) p m k = elim (advances p k) [
      | inl e ↦ over e
      | inr (q, s) ↦
          goes_on q s
            (λ r t. let (less, still) = falls p r k t in within-Ends n r (omega arith) still)
    ]

    pub falling-Ends : (p : S) → Keeps p → Ends p
    falling-Ends p k = within-Ends (measure p + 1) p (omega arith) k

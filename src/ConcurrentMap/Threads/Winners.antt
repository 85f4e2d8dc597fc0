-- ===== src/ConcurrentMap/Threads/Winners.antt =====
-- Insertions by several threads into a `ConcurrentMap` (concurrent_map/concurrent_map.h) whose `Compare` is
-- a strict total order: the order in which they take place is not seen in the end.
use cpp_done.ConcurrentMap.Batches.{each, insert_one}
use cpp_done.ConcurrentMap.Bucket.Effects.{offer}
use cpp_done.ConcurrentMap.Placed.{IsValid, view, insert-Writes}
use cpp_done.ConcurrentMap.Threads.{AllDone, Merge, finished, runs}
use cpp_done.ConcurrentMap.{ConcurrentMap}
use cpp_done.Prelude.{
  ◌≡◌, refl, ap, sym, ◌∙◌, Bool, true, false, Option, none, some, List, [], ◌∷◌, ◌++◌,
  if◌then◌else◌, arith, fold, concat, append_assoc,
}
use cpp_done.Std.Map.{find_congr}
use cpp_done.Std.Order.{Less, ◌~◌, ~_congr, ~_symm}
use mathlib.Core.Path.{fun_ext}

-- `compare a b` says that `a` wins over `b`
pub record IsTotal {ℓ} {V : Type ℓ} (compare : V → V → Bool) : Type ℓ where
  pub asymm : (a b : V) → compare a b ≡ true → compare b a ≡ false
  pub total : (a b : V) → compare a b ≡ false → compare b a ≡ false → a ≡ b
  pub trans : (a b c : V) → compare a b ≡ true → compare b c ≡ true → compare a c ≡ true

module _ {κ} {X : Type κ} where
  concat-middle :
      (before after : List (List X)) (own : List X)
      → concat (before ++ own ∷ after) ≡ concat before ++ (own ++ concat after)
  concat-middle [] after own = refl
  concat-middle (l ∷ before) after own =
      ap (◌++◌ l) (concat-middle before after own)
      ∙ sym (append_assoc l (concat before) (own ++ concat after))

  concat-AllDone : (threads : List (List X)) → AllDone threads → concat threads ≡ []
  concat-AllDone [] d = refl
  concat-AllDone ([] ∷ threads) d = concat-AllDone threads d
  concat-AllDone ((x ∷ xs) ∷ threads) d = absurd d

-- A step that commutes with itself on the states of `P`, which it keeps.
module _ {ℓ κ} {S : Type ℓ} {X : Type κ} (f : S → X → S) (P : S → Type ℓ)
    (keeps : (s : S) (x : X) → P s → P (f s x))
    (commutes : (s : S) (x y : X) → P s → f (f s x) y ≡ f (f s y) x) where
  fold-middle :
      (xs ys : List X) (x : X) (s : S) → P s → fold f s (xs ++ x ∷ ys) ≡ fold f (f s x) (xs ++ ys)
  fold-middle [] ys x s p = refl
  fold-middle (z ∷ xs) ys x s p =
      fold-middle xs ys x (f s z) (keeps s z p) ∙ ap (λ t. fold f t (xs ++ ys)) (commutes s z x p)

  -- every order of the threads ends as the threads one after the other
  Merge-concat :
      {threads : List (List X)} {xs : List X}
      → Merge threads xs
      → (s : S) → P s
      → fold f s xs ≡ fold f s (concat threads)
  Merge-concat {threads} (finished d) s p = rw (concat-AllDone threads d)
  Merge-concat (runs before after x own e m) s p =
      Merge-concat m (f s x) (keeps s x p)
      ∙ ap (fold f (f s x)) (concat-middle before after own)
      ∙ sym (fold-middle (concat before) (own ++ concat after) x s p)
      ∙ ap (fold f s) (sym (concat-middle before after (x ∷ own)))
      ∙ ap (λ t. fold f s (concat t)) (sym e)

module _ {ℓ} {V : Type ℓ} (compare : V → V → Bool) (t : IsTotal compare) where
  offer_comm :
      (v w : V) (x : Option V)
      → offer compare v (offer compare w x) ≡ offer compare w (offer compare v x)
  offer_comm v w none = ground (arith, t.asymm v w, t.asymm w v, t.total v w)
  offer_comm v w (some x) = ground (
    arith,
    t.asymm v w,
    t.asymm w v,
    t.total v w,
    t.trans v w x,
    t.trans w v x,
    t.trans v x w,
    t.trans w x v,
    t.trans x v w,
    t.trans x w v,
    t.asymm v x,
    t.asymm w x,
    t.total v x,
    t.total w x,
  )

module _ {ℓ} {K V : Type ℓ} ⦃o : Less K⦄ (compare : V → V → Bool) where
  -- an insertion on what the map stands for
  abbrev pub offer_at : (K → Option V) → K × V → K → Option V
  offer_at f e q = if q ~ e.0 then offer compare e.1 (f e.0) else f q

  each-view :
      (xs : List (K × V)) {m : ConcurrentMap K V}
      → IsValid m
      → (m' : ConcurrentMap K V) × (each (insert_one compare) xs m ≡ some m')
        × (view m' ≡ fold offer_at (view m) xs)
        × IsValid m'
  each-view [] {m} v = (m, refl, refl, v)
  each-view (x ∷ xs) {m} v =
      let (next, run, w) = insert-Writes compare x.0 x.1 v in
      let (last, rest, same, valid) = each-view xs w.valid in
      let step : view next ≡ offer_at (view m) x = fun_ext w.reads in
      (last, rw run rest, same ∙ ap (λ g. fold offer_at g xs) step, valid)

  -- equivalent keys read alike
  abbrev Respects : (K → Option V) → Type ℓ
  Respects f = (a b : K) → (a ~ b) ≡ true → f a ≡ f b

  offer_at-Respects : (f : K → Option V) (e : K × V) → Respects f → Respects (offer_at f e)
  offer_at-Respects f e r a b h = ground (arith, r a b h, ~_congr a b e.0 h)

  view-Respects : {m : ConcurrentMap K V} → IsValid m → Respects (view m)
  unfolding view
  view-Respects {m} v a b h = rw (v.steady a b h) (find_congr a b _ h)

  module _ (t : IsTotal compare) where
    offer_at_comm :
        (f : K → Option V) (x y : K × V)
        → Respects f
        → offer_at (offer_at f x) y ≡ offer_at (offer_at f y) x
    offer_at_comm f x y r = fun_ext (λ q. ground (
      arith,
      r x.0 y.0,
      offer_comm compare t x.1 y.1 (f x.0),
      offer_comm compare t x.1 y.1 (f y.0),
      ~_congr x.0 y.0 q,
      ~_congr y.0 x.0 q,
      ~_congr q x.0 y.0,
      ~_congr q y.0 x.0,
      ~_symm x.0 y.0,
      ~_symm y.0 x.0,
      o.less_asymm x.0 y.0,
    ))

    -- If Compare is a strict total order, insertions by several threads into a valid map succeed
    -- and leave every key with the same value in every order in which the threads may take turns.
    pub Merge-view :
        (threads : List (List (K × V))) {xs ys : List (K × V)} {m : ConcurrentMap K V}
        → IsValid m
        → Merge threads xs
        → Merge threads ys
        → (a : ConcurrentMap K V) × (b : ConcurrentMap K V) × (each (insert_one compare) xs m
            ≡ some a)
          × (each (insert_one compare) ys m ≡ some b)
          × ((q : K) → view a q ≡ view b q)
    Merge-view threads {xs} {ys} {m} v one other =
        let (a, run_a, same_a, valid_a) = each-view xs v in
        let (b, run_b, same_b, valid_b) = each-view ys v in
        let whole = λ (zs : List (K × V)) (h : Merge threads zs).
          Merge-concat offer_at Respects offer_at-Respects offer_at_comm h (view m)
            (view-Respects v) in
        (
          a,
          b,
          run_a,
          run_b,
          λ q. ap (λ g. g q) (same_a ∙ whole xs one ∙ sym (whole ys other) ∙ sym same_b),
        )

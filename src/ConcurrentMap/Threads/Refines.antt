-- ===== src/ConcurrentMap/Threads/Refines.antt =====
-- Every order of the calls of threads on a `ConcurrentMap` (concurrent_map/concurrent_map.h), against the
-- specification of the single calls.
use mathlib.Core.Path.{fun_ext}
use cpp_done.ConcurrentMap.Placed.{
  IsValid, view, lookup-view, contain-view, delete-Writes, insert-Writes, update-Writes,
}
use cpp_done.ConcurrentMap.Threads.{
  Call, looks_up, contains, inserts, updates, deletes, call, run, ideal, run_ideal,
}
use cpp_done.ConcurrentMap.{ConcurrentMap}
use cpp_done.Prelude.{◌≡◌, refl, Bool, some, List, [], ◌∷◌, Option-cases, inl, inr}
use cpp_done.Std.Order.{Less}

module _ {ℓ} {K V : Type ℓ} ⦃o : Less K⦄ (compare : V → V → Bool) where
  -- the call returned what the specification says, and left a valid map that stands for the result
  pub record Refines (c : Call K V) (m m' : ConcurrentMap K V) : Type ℓ where
    pub valid : IsValid m'
    pub result : call compare c m ≡ some (m', (ideal compare c (view m)).1)
    pub effect : view m' ≡ (ideal compare c (view m)).0

  call-Refines :
      (c : Call K V) {m : ConcurrentMap K V} → IsValid m → (m' : ConcurrentMap K V) × Refines c m m'
  unfolding call ideal
  call-Refines (looks_up key value) {m} v = (
    m,
    record {
      valid = v;
      result = elim (Option-cases (view m key)) [
        | inl e ↦ rw (lookup-view key value v, ideal, e)
        | inr (w, e) ↦ rw (lookup-view key value v, ideal, e)
      ];
      effect = refl;
    },
  )
  call-Refines (contains key) {m} v = (
    m,
    record {
      valid = v;
      result = elim (Option-cases (view m key)) [
        | inl e ↦ rw (contain-view key v, ideal, e)
        | inr (w, e) ↦ rw (contain-view key v, ideal, e)
      ];
      effect = refl;
    },
  )
  call-Refines (inserts key value) {m} v =
      let (m', run, w) = insert-Writes compare key value v in
      (m', record { valid = w.valid; result = rw run; effect = fun_ext w.reads })
  call-Refines (updates key value) {m} v =
      let (m', run, w) = update-Writes compare key value v in
      (m', record { valid = w.valid; result = rw run; effect = fun_ext w.reads })
  call-Refines (deletes key) {m} v =
      let (m', run, w) = delete-Writes key v in
      (m', record { valid = w.valid; result = rw run; effect = fun_ext w.reads })

  -- On a valid map, any calls of LookUp, Contain, Insert, Update and Delete, in the order in which
  -- threads take the locks of the buckets, give the answers that a partial function from keys to
  -- values gives: a key that is present keeps its value where Compare does not prefer the new one,
  -- and the output of LookUp keeps what the variable of the caller held where the key is absent.
  -- The map stays valid and ends as that function.
  pub run-refines :
      (cs : List (Call K V)) {m : ConcurrentMap K V}
      → IsValid m
      → (m' : ConcurrentMap K V) × (run compare cs m ≡ some (m', (run_ideal compare cs (view m)).1))
        × (view m' ≡ (run_ideal compare cs (view m)).0)
        × IsValid m'
  unfolding run run_ideal
  run-refines [] {m} v = (m, refl, refl, v)
  run-refines (c ∷ cs) {m} v =
      let (next, r) = call-Refines c v in
      let (last, runs, same, valid) = run-refines cs r.valid in
      (last, rw (r.result, runs, r.effect), rw (same, r.effect), valid)

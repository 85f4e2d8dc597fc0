-- ===== src/ConcurrentMap/Threads.antt =====
-- Calls of several threads on one `ConcurrentMap` (concurrent_map/concurrent_map.h). A method that works
-- on one key holds the lock of the key's bucket from its first access to its last, so that it is one step;
-- the calls of the threads happen in some order. A method that visits every bucket sees each at a time
-- of its own.
pub mod Refines
pub mod Winners
pub mod Snapshot
use cpp_done.ConcurrentMap.Bucket
use cpp_done.ConcurrentMap.Bucket.Effects.{offer, renew, offered, renewed}
use cpp_done.ConcurrentMap.{ConcurrentMap, bucket, lookup, contain, delete, insert, update}
use cpp_done.Prelude.{
  ℕ, zero, suc, ◌≡◌, Bool, true, false, Option, none, some, List, [], ◌∷◌, ◌++◌, if◌then◌else◌,
  ◌>>=◌,
}
use cpp_done.Std.Order.{Less, ◌~◌}

-- A call on one key, with what the caller's variable holds where it is an output.
pub data Call {ℓ} (K V : Type ℓ) : Type ℓ where
  looks_up : K → V → Call K V
  contains : K → Call K V
  inserts : K → V → Call K V
  updates : K → V → Call K V
  deletes : K → Call K V

-- What the call returned, and the output of `LookUp`.
pub record Answer {ℓ} (V : Type ℓ) : Type ℓ where
  pub flag : Bool
  pub output : Option V

abbrev pub answer {ℓ} : {V : Type ℓ} → Bool → Answer V
answer b = record { flag = b; output = none }

module _ {ℓ} {K V : Type ℓ} ⦃o : Less K⦄ (compare : V → V → Bool) where
  unfoldable pub call : Call K V → ConcurrentMap K V → Option (ConcurrentMap K V × Answer V)
  call (looks_up key value) m =
      lookup key value m >>= λ r. some (m, record { flag = r.0; output = some r.1 })
  call (contains key) m = contain key m >>= λ b. some (m, answer b)
  call (inserts key value) m = insert compare key value m >>= λ r. some (r.0, answer r.1)
  call (updates key value) m = update compare key value m >>= λ r. some (r.0, answer r.1)
  call (deletes key) m = delete key m >>= λ r. some (r.0, answer r.1)

  -- calls in the order in which they take their locks
  unfoldable pub run :
      List (Call K V) → ConcurrentMap K V → Option (ConcurrentMap K V × List (Answer V))
  unfolding call
  run [] m = some (m, [])
  run (c ∷ cs) m = call c m >>= λ r. run cs r.0 >>= λ rest. some (rest.0, r.1 ∷ rest.1)

  -- The specification: a partial function from keys to values.
  unfoldable pub ideal : Call K V → (K → Option V) → (K → Option V) × Answer V
  ideal (looks_up key value) f = (
    f,
    elim (f key) [
      | none ↦ record { flag = false; output = some value }
      | some v ↦ record { flag = true; output = some v }
    ],
  )
  ideal (contains key) f = (f, elim (f key) [ none ↦ answer false | some _ ↦ answer true ])
  ideal (inserts key value) f = (
    λ q. if q ~ key then offer compare value (f key) else f q,
    answer (offered compare value (f key)),
  )
  ideal (updates key value) f = (
    λ q. if q ~ key then renew compare value (f key) else f q,
    answer (renewed compare value (f key)),
  )
  ideal (deletes key) f = (λ q. if q ~ key then none else f q, answer true)

  unfoldable pub run_ideal : List (Call K V) → (K → Option V) → (K → Option V) × List (Answer V)
  unfolding ideal
  run_ideal [] f = (f, [])
  run_ideal (c ∷ cs) f = let (g, a) = ideal c f in let (h, rest) = run_ideal cs g in (h, a ∷ rest)

-- No thread has an item left.
abbrev pub AllDone {ℓ} : {X : Type ℓ} → List (List X) → Type 0
AllDone [] = Unit
AllDone ([] ∷ threads) = AllDone threads
AllDone ((x ∷ xs) ∷ threads) = ⊥

-- One order of the items of several threads, each of which keeps its own order.
pub data Merge {ℓ} {X : Type ℓ} : List (List X) → List X → Type ℓ where
  finished : {threads : List (List X)} → AllDone threads → Merge threads []
  runs :
      {threads : List (List X)} {xs : List X} (before after : List (List X)) (x : X) (own : List X)
      → threads ≡ before ++ (x ∷ own) ∷ after
      → Merge (before ++ own ∷ after) xs
      → Merge threads (x ∷ xs)

-- `GetAllKey` with the state of the map at each of its visits, from the bucket `i` on.
unfoldable pub get_all_key_visits {ℓ} :
    {K V : Type ℓ} ⦃o : Less K⦄ → ℕ → List (ConcurrentMap K V) → List (K × V) → List (K × V)
get_all_key_visits i [] list = list
get_all_key_visits i (m ∷ ms) list =
    get_all_key_visits (suc i) ms (Bucket.get_all_key (bucket m i) list)

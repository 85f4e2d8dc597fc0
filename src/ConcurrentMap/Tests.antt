-- ===== src/ConcurrentMap/Tests.antt =====
-- The table of concurrent_map/test.cpp with 3 buckets, numbers for its texts, and `MyComp` as there
-- (two values that are equal); the theorems at such a table.
use cpp_done.ConcurrentMap.Batches.{each, insert_one, update_one, delete_one, batches-each}
use cpp_done.ConcurrentMap.Bucket
use cpp_done.ConcurrentMap.Contents.{get_all_key-view}
use cpp_done.ConcurrentMap.Placed.{IsValid, view, new-IsValid, insert-Writes}
use cpp_done.ConcurrentMap.{
  ConcurrentMap, new, lookup, contain, delete, insert, update, get_all_key, size, clear,
  insert_key_batch, update_key_batch, remove_key_batch,
}
use cpp_done.ConcurrentMap.Threads.Refines.{run-refines}
use cpp_done.ConcurrentMap.Threads.Snapshot.{IsState, get_all_key_visits-view}
use cpp_done.ConcurrentMap.Threads.Winners.{IsTotal, Merge-view}
use cpp_done.ConcurrentMap.Threads.{
  Call, looks_up, contains, inserts, updates, deletes, answer, call, run, run_ideal, Merge,
  finished, runs, get_all_key_visits,
}
use mathlib.Core.Option
use mathlib.Core.Path.{subst}
use cpp_done.Prelude.{
  ℕ, ◌%◌, ◌^◌, ◌≡◌, refl, Bool, true, false, Option, none, some, List, [], ◌∷◌, arith, ◌==◌, ltb,
  ◌>>=◌, length,
}
use cpp_done.Std.Map
use cpp_done.Std.Order.{nat_less, ◌~◌}

abbrev my_comp : ℕ → ℕ → Bool
my_comp a b = a == b

-- a comparison that lets larger values win
abbrev larger : ℕ → ℕ → Bool
larger a b = ltb b a

abbrev same_hash : ℕ → ℕ
same_hash k = k

same_hash_steady : (a b : ℕ) → (a ~ b) ≡ true → same_hash a ≡ same_hash b
same_hash_steady a b h = ground arith

program : Unit {0}
unfolding Map.find Map.insert Map.erase Bucket.lookup Bucket.contain Bucket.insert Bucket.update
    Bucket.remove Bucket.size Bucket.get_all_key Bucket.clear Bucket.insert_key_batch
    Bucket.update_key_batch Bucket.remove_key_batch new lookup contain delete insert update
    get_all_key size clear insert_key_batch update_key_batch remove_key_batch
program = tt

abbrev empty : ConcurrentMap ℕ ℕ
empty = new 3 same_hash

-- the same key twice: the second value is refused by `MyComp`, and taken where it is larger
abbrev session : (ℕ → ℕ → Bool) → Option (Bool × Bool × List (ℕ × ℕ) × ℕ)
session compare = insert compare 4 456 empty >>= λ r. insert compare 4 789 r.0 >>= λ s.
    insert compare 1 5 s.0 >>= λ t. some (r.1, s.1, get_all_key t.0 [], size t.0)

session-my_comp : session my_comp ≡ some (true, false, (1, 5) ∷ (4, 456) ∷ [], 2)
unfolding program
session-my_comp = refl

session-larger : session larger ≡ some (true, true, (1, 5) ∷ (4, 789) ∷ [], 2)
unfolding program
session-larger = refl

no_buckets : insert my_comp 1 2 (new 0 same_hash) ≡ none
unfolding program
no_buckets = refl

empty-IsValid : IsValid empty
empty-IsValid = (new-IsValid 3 same_hash (omega arith) same_hash_steady).0

abbrev filled : ConcurrentMap ℕ ℕ
filled = (insert-Writes larger 4 456 empty-IsValid).0

filled-IsValid : IsValid filled
filled-IsValid = (insert-Writes larger 4 456 empty-IsValid).2.valid

get_all_key-view_example :
    ((q : ℕ) → Map.find q (get_all_key filled []) ≡ view filled q)
    × (size filled ≡ length (get_all_key filled []) % 2 ^ 64)
get_all_key-view_example = get_all_key-view [] filled-IsValid

abbrev batch : List (ℕ × ℕ)
batch = (4, 456) ∷ (1, 5) ∷ (4, 789) ∷ (3, 6) ∷ []

batches-each_example :
    (insert_key_batch larger batch filled ≡ each (insert_one larger) batch filled)
    × (update_key_batch larger batch filled ≡ each (update_one larger) batch filled)
    × (remove_key_batch (1 ∷ 4 ∷ []) filled ≡ each delete_one (1 ∷ 4 ∷ []) filled)
batches-each_example = batches-each larger batch (1 ∷ 4 ∷ []) filled filled-IsValid.pos

-- one thread inserts, another one looks up and deletes
abbrev calls : List (Call ℕ ℕ)
calls = inserts 4 456 ∷ looks_up 4 0 ∷ updates 4 900 ∷ contains 7 ∷ deletes 4 ∷ []

calls_answers :
    Option.map (λ r. r.1) (run larger calls empty)
    ≡ some (
        answer true
        ∷ record { flag = true; output = some 456 }
        ∷ answer true
        ∷ answer false
        ∷ answer true
        ∷ [])
unfolding program run call
calls_answers = refl

run-refines_example :
    (m' : ConcurrentMap ℕ ℕ) × (run larger calls empty
      ≡ some (m', (run_ideal larger calls (view empty)).1))
    × (view m' ≡ (run_ideal larger calls (view empty)).0)
    × IsValid m'
run-refines_example = run-refines larger calls empty-IsValid

larger-IsTotal : IsTotal larger
larger-IsTotal = record {
  asymm = λ a b h. ground arith;
  total = λ a b h k. ground arith;
  trans = λ a b c h k. ground arith;
}

abbrev threads : List (List (ℕ × ℕ))
threads = ((4, 456) ∷ []) ∷ ((4, 789) ∷ []) ∷ []

one_order : Merge threads ((4, 456) ∷ (4, 789) ∷ [])
one_order =
    runs [] (((4, 789) ∷ []) ∷ []) (4, 456) [] refl
      (runs ([] ∷ []) [] (4, 789) [] refl (finished tt))

other_order : Merge threads ((4, 789) ∷ (4, 456) ∷ [])
other_order =
    runs (((4, 456) ∷ []) ∷ []) [] (4, 789) [] refl
      (runs [] ([] ∷ []) (4, 456) [] refl (finished tt))

Merge-view_example :
    (a : ConcurrentMap ℕ ℕ) × (b : ConcurrentMap ℕ ℕ) × (each
        (insert_one larger)
        ((4, 456) ∷ (4, 789) ∷ [])
        empty
      ≡ some a)
    × (each (insert_one larger) ((4, 789) ∷ (4, 456) ∷ []) empty ≡ some b)
    × ((q : ℕ) → view a q ≡ view b q)
Merge-view_example = Merge-view larger larger-IsTotal threads empty-IsValid one_order other_order

empty-IsState : IsState same_hash 3 empty
unfolding new
empty-IsState = record { valid = empty-IsValid; hash = refl; size = refl }

abbrev stored : ConcurrentMap ℕ ℕ
stored = record { buckets = [] ∷ ((4, 456) ∷ []) ∷ [] ∷ []; hasher = same_hash }

inserts_stored : insert larger 4 456 empty ≡ some (stored, true)
unfolding program
inserts_stored = refl

filled-stored : filled ≡ stored
filled-stored = cc ((insert-Writes larger 4 456 empty-IsValid).1, inserts_stored)

stored-IsState : IsState same_hash 3 stored
stored-IsState = record {
  valid = subst IsValid filled-stored filled-IsValid;
  hash = refl;
  size = refl;
}

-- the key 4 is inserted after the visit of the first bucket, and before that of the second
get_all_key_visits-view_example :
    Map.find 4 (get_all_key_visits 0 (empty ∷ stored ∷ stored ∷ []) []) ≡ view stored 4
get_all_key_visits-view_example =
    get_all_key_visits-view same_hash 3 (empty ∷ stored ∷ stored ∷ []) 4 stored
      (empty-IsState, (stored-IsState, (stored-IsState, tt))) refl

-- ===== src/CrashHandler/Sorting.antt =====
-- `std::sort` of file names, by the bytewise order of `std::string`, and the place of a name in the
-- sorted list.
use cpp_done.Prelude.{
  ℕ, zero, suc, ◌≡◌, refl, ap, ◌∙◌, Bool, true, false, ◌&&◌, ◌||◌, List, [], ◌∷◌, arith, ltb,
  if◌then◌else◌, take,
}
use cpp_done.Std.Text.{Bytes, bytes_eq, bytes_eq_iff, bytes_less}

unfoldable pub insert_name : Bytes → List Bytes → List Bytes
insert_name n [] = n ∷ []
insert_name n (m ∷ ms) = if bytes_less n m then n ∷ m ∷ ms else m ∷ insert_name n ms

unfoldable pub sort : List Bytes → List Bytes
unfolding insert_name
sort [] = []
sort (n ∷ ns) = insert_name n (sort ns)

pub bytes_less_irrefl : (s : Bytes) → bytes_less s s ≡ false
unfolding bytes_less
bytes_less_irrefl [] = refl
bytes_less_irrefl (c ∷ s) = ground (arith, bytes_less_irrefl s)

pub bytes_less_asymm : (s t : Bytes) → bytes_less s t ≡ true → bytes_less t s ≡ false
unfolding bytes_less
bytes_less_asymm [] [] h = refl
bytes_less_asymm [] (d ∷ t) h = refl
bytes_less_asymm (c ∷ s) [] h = absurd cc
bytes_less_asymm (c ∷ s) (d ∷ t) h = ground (arith, bytes_less_asymm s t)

bytes_less_trans :
    (s t u : Bytes) → bytes_less s t ≡ true → bytes_less t u ≡ true → bytes_less s u ≡ true
unfolding bytes_less
bytes_less_trans s [] u h k = absurd cc
bytes_less_trans s (d ∷ t) [] h k = absurd cc
bytes_less_trans [] (d ∷ t) (e ∷ u) h k = refl
bytes_less_trans (c ∷ s) (d ∷ t) (e ∷ u) h k = ground (arith, bytes_less_trans s t u)

-- neither is smaller: the names are one
bytes_less_total :
    (s t : Bytes) → bytes_less s t ≡ false → bytes_less t s ≡ false → bytes_eq s t ≡ true
unfolding bytes_less bytes_eq
bytes_less_total [] [] h k = refl
bytes_less_total [] (d ∷ t) h k = absurd cc
bytes_less_total (c ∷ s) [] h k = absurd cc
bytes_less_total (c ∷ s) (d ∷ t) h k = ground (arith, bytes_less_total s t)

abbrev pub mem : Bytes → List Bytes → Bool
mem n [] = false
mem n (m ∷ ms) = bytes_eq n m || mem n ms

-- how many names of the list are smaller
abbrev pub rank : Bytes → List Bytes → ℕ
rank n [] = 0
rank n (m ∷ ms) = if bytes_less m n then suc (rank n ms) else rank n ms

abbrev pub AreDistinct : List Bytes → Type 0
AreDistinct [] = Unit
AreDistinct (m ∷ ms) = (mem m ms ≡ false) × AreDistinct ms

abbrev pub AllAbove : Bytes → List Bytes → Type 0
AllAbove n [] = Unit
AllAbove n (m ∷ ms) = (bytes_less n m ≡ true) × AllAbove n ms

abbrev pub IsRising : List Bytes → Type 0
IsRising [] = Unit
IsRising (m ∷ ms) = AllAbove m ms × IsRising ms

mem-insert_name : (q n : Bytes) (ms : List Bytes) → mem q (insert_name n ms) ≡ mem q (n ∷ ms)
unfolding insert_name
mem-insert_name q n [] = refl
mem-insert_name q n (m ∷ ms) = ground (arith, mem-insert_name q n ms)

rank-insert_name : (q n : Bytes) (ms : List Bytes) → rank q (insert_name n ms) ≡ rank q (n ∷ ms)
unfolding insert_name
rank-insert_name q n [] = refl
rank-insert_name q n (m ∷ ms) = ground (arith, rank-insert_name q n ms)

AllAbove-weaken :
    (l n : Bytes) (ms : List Bytes) → bytes_less l n ≡ true → AllAbove n ms → AllAbove l ms
AllAbove-weaken l n [] h a = tt
AllAbove-weaken l n (m ∷ ms) h a = (bytes_less_trans l n m h a.0, AllAbove-weaken l n ms h a.1)

AllAbove-insert_name :
    (l n : Bytes) (ms : List Bytes)
    → bytes_less l n ≡ true
    → AllAbove l ms
    → AllAbove l (insert_name n ms)
unfolding insert_name
AllAbove-insert_name l n [] h a = (h, tt)
AllAbove-insert_name l n (m ∷ ms) h a = ground (arith, AllAbove-insert_name l n ms h)

insert_name-IsRising :
    (n : Bytes) (ms : List Bytes) → mem n ms ≡ false → IsRising ms → IsRising (insert_name n ms)
unfolding insert_name
insert_name-IsRising n [] h r = (tt, tt)
insert_name-IsRising n (m ∷ ms) h r = ground (
  arith,
  insert_name-IsRising n ms,
  AllAbove-weaken n m ms,
  AllAbove-insert_name m n ms,
  bytes_less_total n m,
)

pub mem-sort : (q : Bytes) (ns : List Bytes) → mem q (sort ns) ≡ mem q ns
unfolding sort
mem-sort q [] = refl
mem-sort q (n ∷ ns) = mem-insert_name q n (sort ns) ∙ ap (◌||◌ (bytes_eq q n)) (mem-sort q ns)

pub rank-sort : (q : Bytes) (ns : List Bytes) → rank q (sort ns) ≡ rank q ns
unfolding sort
rank-sort q [] = refl
rank-sort q (n ∷ ns) = ground (arith, rank-insert_name q n (sort ns), rank-sort q ns)

pub sort-IsRising : (ns : List Bytes) → AreDistinct ns → IsRising (sort ns)
unfolding sort
sort-IsRising [] d = tt
sort-IsRising (n ∷ ns) d =
    insert_name-IsRising n (sort ns) (mem-sort n ns ∙ d.0) (sort-IsRising ns d.1)

-- nothing above a name is that name, or smaller
above-mem :
    (q n : Bytes) (ms : List Bytes)
    → AllAbove n ms
    → bytes_eq q n ≡ true
    → (mem q ms ≡ false) × (rank q ms ≡ 0)
above-mem q n [] a e = (refl, refl)
above-mem q n (m ∷ ms) a e =
    let same : q ≡ n = (bytes_eq_iff q n).0 e in
    ground
      (arith, above-mem q n ms a.1 e, bytes_less_asymm n m, bytes_less_irrefl n, bytes_eq_iff q m)

pub mem-AllAbove :
    (q n : Bytes) (ms : List Bytes) → AllAbove n ms → mem q ms ≡ true → bytes_less n q ≡ true
mem-AllAbove q n [] a h = absurd cc
mem-AllAbove q n (m ∷ ms) a h = ground (arith, mem-AllAbove q n ms a.1, bytes_eq_iff q m)

take-IsRising :
    (k : ℕ) (q : Bytes) (ms : List Bytes)
    → IsRising ms
    → mem q (take k ms) ≡ (mem q ms && ltb (rank q ms) k)
take-IsRising zero q [] r = refl
take-IsRising (suc k) q [] r = refl
take-IsRising zero q (m ∷ ms) r = ground arith
take-IsRising (suc k) q (m ∷ ms) r = ground (
  arith,
  take-IsRising k q ms,
  above-mem q m ms,
  mem-AllAbove q m ms,
  bytes_less_irrefl m,
  bytes_eq_iff q m,
)

pub take-sort :
    (k : ℕ) (q : Bytes) (ns : List Bytes)
    → AreDistinct ns
    → mem q (take k (sort ns)) ≡ (mem q ns && ltb (rank q ns) k)
take-sort k q ns d =
    ground (arith, take-IsRising k q (sort ns) (sort-IsRising ns d), mem-sort q ns, rank-sort q ns)

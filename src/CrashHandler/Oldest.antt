-- ===== src/CrashHandler/Oldest.antt =====
-- Which files `ClearCrashFiles` of crash_handler/crash_handler.cpp removes.
use cpp_done.CrashHandler.Sorting.{sort, mem, rank, AreDistinct, take-sort}
use cpp_done.CrashHandler.{
  Files, System, crash_file_max_num, slash, remove_single_file, remove_each, clear_old,
  is_crash_file, is_process_maps, clear_crash_files, check_dir_exist_or_make,
}
use cpp_done.Prelude.{
  ◌/◌, ◌≡◌, refl, ap, ◌∙◌, Bool, true, false, not, ◌&&◌, ◌||◌, none, some, List, [], ◌∷◌, ◌++◌,
  arith, ltb, leb, ◌==◌, length, take, keep, Bool-cases, inl, inr,
}
use cpp_done.Std.Text.{
  Bytes, bytes_eq, bytes_eq_iff, bytes_eq_refl, is_empty, front, c_str, c_str-of-Avoids, Avoids,
  Avoids-append,
}

-- A name of a directory's entry.
pub record IsName (n : Bytes) : Type 0 where
  pub some_byte : is_empty n ≡ false
  pub no_nul : Avoids 0 n

pub record IsRoot (log_path : Bytes) : Type 0 where
  pub absolute : (front log_path == b'/') ≡ true
  pub no_nul : Avoids 0 log_path

abbrev pub Unlinks : System → Type 0
Unlinks sys = (path : Bytes) → sys.unlinks path ≡ true

abbrev pub AllNames : List Bytes → Type 0
AllNames ns = (n : Bytes) → mem n ns ≡ true → IsName n

path_eq : (p n m : Bytes) → bytes_eq (p ++ n) (p ++ m) ≡ bytes_eq n m
unfolding bytes_eq
path_eq [] n m = refl
path_eq (c ∷ p) n m = ground (arith, path_eq p n m)

not_slash :
    (p n : Bytes)
    → IsRoot p
    → IsName n
    → (bytes_eq (p ++ n) slash ≡ false) × ((front (p ++ n) == b'/') ≡ true)
unfolding bytes_eq
not_slash [] n r i = absurd (ground (arith, r.absolute))
not_slash (c ∷ []) [] r i = absurd (ground (arith, i.some_byte))
not_slash (c ∷ []) (d ∷ n) r i = ground (arith, r.absolute)
not_slash (c ∷ d ∷ p) n r i = ground (arith, r.absolute)

remove_one :
    (sys : System) (p n q : Bytes) (fs : Files)
    → Unlinks sys
    → IsRoot p
    → IsName n
    → (remove_single_file sys (c_str (p ++ n)) fs).1 q ≡ (fs q && not (bytes_eq q (p ++ n)))
unfolding remove_single_file
remove_one sys p n q fs u r i = ground (
  arith,
  not_slash p n r i,
  c_str-of-Avoids (p ++ n) (Avoids-append 0 p n r.no_nul i.no_nul),
  u (p ++ n),
  bytes_eq_iff q (p ++ n),
)

remove_each_lem :
    (sys : System) (p n : Bytes) (ns : List Bytes) (fs : Files)
    → Unlinks sys
    → IsRoot p
    → AllNames ns
    → remove_each sys p ns fs (p ++ n) ≡ (fs (p ++ n) && not (mem n ns))
unfolding remove_each
remove_each_lem sys p n [] fs u r i = ground arith
remove_each_lem sys p n (m ∷ ns) fs u r i = ground (
  arith,
  remove_each_lem sys p n ns (remove_single_file sys (c_str (p ++ m)) fs).1 u r
      (λ k h. i k (ground arith)),
  remove_one sys p m (p ++ n) fs u r (i m (ground (arith, bytes_eq_refl m))),
  path_eq p n m,
)

remove_each-other :
    (sys : System) (p q : Bytes) (ns : List Bytes) (fs : Files)
    → Unlinks sys
    → IsRoot p
    → AllNames ns
    → ((n : Bytes) → bytes_eq q (p ++ n) ≡ false)
    → remove_each sys p ns fs q ≡ fs q
unfolding remove_each
remove_each-other sys p q [] fs u r i o = refl
remove_each-other sys p q (m ∷ ns) fs u r i o = ground (
  arith,
  remove_each-other sys p q ns (remove_single_file sys (c_str (p ++ m)) fs).1 u r
      (λ k h. i k (ground arith)) o,
  remove_one sys p m q fs u r (i m (ground (arith, bytes_eq_refl m))),
  o m,
)

pub mem-keep :
    (f : Bytes → Bool) (q : Bytes) (ns : List Bytes) → mem q (keep f ns) ≡ (mem q ns && f q)
mem-keep f q [] = refl
mem-keep f q (n ∷ ns) = elim (Bool-cases (bytes_eq q n)) [
  | inl e ↦ let same : f q ≡ f n = ap f ((bytes_eq_iff q n).0 e) in ground (arith, mem-keep f q ns)
  | inr e ↦ ground (arith, mem-keep f q ns)
]

pub keep-AreDistinct :
    (f : Bytes → Bool) (ns : List Bytes) → AreDistinct ns → AreDistinct (keep f ns)
keep-AreDistinct f [] d = tt
keep-AreDistinct f (n ∷ ns) d = ground (arith, keep-AreDistinct f ns, mem-keep f n ns)

-- one of the three smallest of at least six names
abbrev pub is_old : Bytes → List Bytes → Bool
is_old n ns = leb 6 (length ns) && (mem n ns && ltb (rank n ns) 3)

clear_old_lem :
    (sys : System) (p : Bytes) (ns : List Bytes) (fs : Files)
    → Unlinks sys
    → IsRoot p
    → AllNames ns
    → AreDistinct ns
    → ((n : Bytes) → clear_old sys p ns fs (p ++ n) ≡ (fs (p ++ n) && not (is_old n ns)))
      × ((q : Bytes) → ((n : Bytes) → bytes_eq q (p ++ n) ≡ false) → clear_old sys p ns fs q ≡ fs q)
unfolding clear_old
clear_old_lem sys p ns fs u r i d =
    let oldest = take (crash_file_max_num / 2) (sort ns) in
    let named : AllNames oldest = λ m h. i m (ground (arith, take-sort 3 m ns d)) in
    (
      λ n. ground (arith, remove_each_lem sys p n oldest fs u r named, take-sort 3 n ns d),
      λ q o. ground (arith, remove_each-other sys p q oldest fs u r named o),
    )

-- With an absolute log path, a listing of distinct names and unlink calls that succeed,
-- ClearCrashFiles removes from the log directory exactly the three smallest names of the crash
-- files if there are at least six of them, and the same of the process maps, and removes no other
-- path.
pub clear_crash_files-is_old :
    (sys : System) (log_path : Bytes) (names : List Bytes) (fs : Files)
    → Unlinks sys
    → IsRoot log_path
    → AllNames names
    → AreDistinct names
    → let fs' = clear_crash_files sys log_path (some names) fs in
      ((n : Bytes)
        → fs' (log_path ++ n) ≡ (
            fs (log_path ++ n)
            && not (is_old n (keep is_crash_file names) || is_old n (keep is_process_maps names))))
      × ((q : Bytes) → ((n : Bytes) → bytes_eq q (log_path ++ n) ≡ false) → fs' q ≡ fs q)
unfolding clear_crash_files
clear_crash_files-is_old sys p names fs u r i d =
    let within = λ (f : Bytes → Bool) (n : Bytes) (h : mem n (keep f names) ≡ true).
      i n (ground (arith, mem-keep f n names)) in
    let first =
      clear_old_lem sys p (keep is_crash_file names) fs u r (within is_crash_file)
        (keep-AreDistinct is_crash_file names d) in
    let fs1 = clear_old sys p (keep is_crash_file names) fs in
    let second =
      clear_old_lem sys p (keep is_process_maps names) fs1 u r (within is_process_maps)
        (keep-AreDistinct is_process_maps names d) in
    (λ n. ground (arith, first.0 n, second.0 n), λ q o. second.1 q o ∙ first.1 q o)

relative-remove_each :
    (sys : System) (ns : List Bytes) (fs : Files)
    → ((n : Bytes) → mem n ns ≡ true → (front (c_str n) == b'/') ≡ false)
    → remove_each sys [] ns fs ≡ fs
unfolding remove_each remove_single_file
relative-remove_each sys [] fs h = refl
relative-remove_each sys (n ∷ ns) fs h = ground (
  arith,
  h n (ground (arith, bytes_eq_refl n)),
  relative-remove_each sys ns fs (λ k m. h k (ground arith)),
)

relative-clear_old :
    (sys : System) (ns : List Bytes) (fs : Files)
    → AreDistinct ns
    → ((n : Bytes) → mem n ns ≡ true → (front (c_str n) == b'/') ≡ false)
    → clear_old sys [] ns fs ≡ fs
unfolding clear_old
relative-clear_old sys ns fs d h = ground (
  arith,
  relative-remove_each sys (take (crash_file_max_num / 2) (sort ns)) fs
      (λ n m. h n (ground (arith, take-sort 3 n ns d))),
)

-- With the empty log path, a listing of distinct names none of which starts with a slash, and no
-- file of the empty name, ClearCrashFiles removes nothing and CheckDirExistOrMake reads before the
-- start of its argument.
pub empty_path-clear :
    (sys : System) (names : List Bytes) (fs : Files)
    → AreDistinct names
    → ((n : Bytes) → mem n names ≡ true → (front (c_str n) == b'/') ≡ false)
    → fs [] ≡ false
    → (clear_crash_files sys [] (some names) fs ≡ fs) × (check_dir_exist_or_make sys [] fs ≡ none)
unfolding clear_crash_files check_dir_exist_or_make
empty_path-clear sys names fs d h gone =
    let within = λ (f : Bytes → Bool) (n : Bytes) (m : mem n (keep f names) ≡ true).
      h n (ground (arith, mem-keep f n names)) in
    (
      ap (clear_old sys [] (keep is_process_maps names)) (
            relative-clear_old sys (keep is_crash_file names) fs
              (keep-AreDistinct is_crash_file names d) (within is_crash_file))
          ∙ relative-clear_old sys (keep is_process_maps names) fs
              (keep-AreDistinct is_process_maps names d) (within is_process_maps),
      ground (arith, gone),
    )

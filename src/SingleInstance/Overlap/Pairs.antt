-- ===== src/SingleInstance/Overlap/Pairs.antt =====
-- How many processes `CheckOnly` of single_instance_process/single_instance_process.cpp lets go on when
-- its calls overlap.
use cpp_done.Prelude.{
  ℕ, ◌^◌, ◌≤◌, ◌<◌, ◌≡◌, ◌≢◌, refl, ap, ◌⊎◌, inl, inr, true, false, none, some, [], arith, ==_iff,
  length, Bool-cases,
}
use cpp_done.SingleInstance.Overlap.{
  absent, opening, made, found, past, World, new, is_here, lives, put_at, open_file, make_file,
  leave, Answers, Step, opens_file, makes_file, fills_file, checks_file, other_comes, other_goes,
  Reach, first, next,
}
use cpp_done.SingleInstance.{System, running, exits, fill_pid_file, check_pid_file}
use cpp_done.Std.Decimal.{decimal}
use cpp_done.Std.Text.{Bytes}
use cpp_done.SingleInstance.Overlap.Written.{fill-Written, check-Written, check-living}

-- What holds of the file and of the processes.
data Crowd (w : World) : Type 0 where
  nothing :
      w.file ≡ none
      → ((q : ℕ) → (w.place q ≢ made) × (w.place q ≢ found) × (w.place q ≢ past))
      → Crowd w
  empty :
      (c : ℕ)
      → w.file ≡ some []
      → ((q : ℕ) → w.place q ≢ past)
      → ((q : ℕ) → w.place q ≡ made → q ≡ c)
      → Crowd w
  one :
      (p c : ℕ)
      → w.file ≡ some (decimal p)
      → w.place p ≡ past
      → ((q : ℕ) → w.place q ≡ past → q ≡ p)
      → ((q : ℕ) → w.place q ≡ made → q ≡ c)
      → Crowd w
  two :
      (p r : ℕ)
      → w.file ≡ some (decimal p)
      → w.place p ≡ past
      → ((q : ℕ) → w.place q ≡ past → (q ≡ p) ⊎ (q ≡ r))
      → ((q : ℕ) → w.place q ≢ made)
      → Crowd w

abbrev Sized : ℕ → World → Type 0
Sized width w = (q : ℕ) → is_here (w.place q) ≡ true → (q < 2 ^ 31) × (length (decimal q) ≡ width)

open_file-Crowd :
    {w : World} (sys : System) (pid : ℕ)
    → lives w pid ≡ false
    → Crowd w
    → Crowd (open_file sys pid w)
unfolding open_file
open_file-Crowd {w} sys pid l (nothing f none_there) =
    rw f (nothing refl (λ q. ground (arith, none_there q)))
open_file-Crowd {w} sys pid l (empty c f free m) =
    rw f (empty c refl (λ q. ground (arith, free q)) (λ q. ground (arith, m q)))
open_file-Crowd {w} sys pid l (one p c f at only m) = rw f (
    one p c refl (ground (arith, ==_iff p pid)) (λ q. ground (arith, only q))
      (λ q. ground (arith, m q)))
open_file-Crowd {w} sys pid l (two p r f at only m) = rw f (
    two p r refl (ground (arith, ==_iff p pid)) (λ q. ground (arith, only q))
      (λ q. ground (arith, m q)))

-- a process ends in `CheckOnly`
away-Crowd :
    {w : World} (pid : ℕ)
    → w.place pid ≢ past
    → Crowd w
    → Crowd (record w { place = put_at pid absent w.place })
away-Crowd pid l (nothing f none_there) = nothing f (λ q. ground (arith, none_there q))
away-Crowd pid l (empty c f free m) =
    empty c f (λ q. ground (arith, free q)) (λ q. ground (arith, m q))
away-Crowd {w} pid l (one p c f at only m) =
    one p c f (ground (arith, ==_iff p pid)) (λ q. ground (arith, only q))
      (λ q. ground (arith, m q))
away-Crowd pid l (two p r f at only m) =
    two p r f (ground (arith, ==_iff p pid)) (λ q. ground (arith, only q))
      (λ q. ground (arith, m q))

make_file-Crowd :
    {w : World} (sys : System) (pid : ℕ)
    → w.place pid ≡ opening
    → Crowd w
    → Crowd (make_file sys pid w)
unfolding make_file
make_file-Crowd {w} sys pid l (nothing f none_there) = elim (Bool-cases sys.creates) [
  | inl e ↦
      rw (f, e)
        (empty pid refl (λ q. ground (arith, none_there q))
          (λ q. ground (arith, none_there q, ==_iff q pid)))
  | inr e ↦ rw (f, e) (nothing refl (λ q. ground (arith, none_there q)))
]
make_file-Crowd {w} sys pid l (empty c f free m) =
    rw f (empty c refl (λ q. ground (arith, free q)) (λ q. ground (arith, m q)))
make_file-Crowd {w} sys pid l (one p c f at only m) = rw f (
    one p c refl (ground (arith, ==_iff p pid)) (λ q. ground (arith, only q))
      (λ q. ground (arith, m q)))
make_file-Crowd {w} sys pid l (two p r f at only m) = rw f (
    two p r refl (ground (arith, ==_iff p pid)) (λ q. ground (arith, only q))
      (λ q. ground (arith, m q)))

-- a process goes on from the empty file
first-Crowd :
    (w : World) (pid c : ℕ)
    → ((q : ℕ) → w.place q ≢ past)
    → ((q : ℕ) → w.place q ≡ made → q ≡ c)
    → Crowd (leave pid (running, decimal pid) w)
unfolding leave
first-Crowd w pid c free m =
    one pid c refl (ground (arith, ==_iff pid pid)) (λ q. ground (arith, free q, ==_iff q pid))
      (λ q. ground (arith, m q))

-- the one that made the file goes on beside the one that found it empty
second-Crowd :
    (w : World) (pid p c : ℕ)
    → w.place pid ≡ made
    → ((q : ℕ) → w.place q ≡ past → q ≡ p)
    → ((q : ℕ) → w.place q ≡ made → q ≡ c)
    → Crowd (leave pid (running, decimal pid) w)
unfolding leave
second-Crowd w pid p c l only m =
    two pid p refl (ground (arith, ==_iff pid pid)) (λ q h. ground (arith, only q, ==_iff q pid))
      (λ q. ground (arith, m q, m pid, ==_iff q pid))

-- a process ends under the lock, and the file stays
kept-Crowd :
    {w : World} (pid : ℕ) (content : Bytes)
    → w.file ≡ some content
    → w.place pid ≢ past
    → Crowd w
    → Crowd (leave pid (exits, content) w)
unfolding leave
kept-Crowd {w} pid content f l k = rw (← f) (away-Crowd pid l k)

fill-Crowd :
    {w : World} (width : ℕ) (sys : System) (pid : ℕ) (content : Bytes)
    → w.place pid ≡ made
    → w.file ≡ some content
    → Answers w sys
    → Sized width w
    → Crowd w
    → Crowd (leave pid (fill_pid_file sys pid content) w)
fill-Crowd width sys pid content l f a s (nothing g none_there) = absurd ((none_there pid).0 l)
fill-Crowd {w} width sys pid content l f a s (empty c g free m) =
    let blank : content ≡ [] = cc in
    elim (fill-Written sys pid content (a.writes (decimal pid)) (omega (arith, ap length blank))) [
      | inl e ↦ rw e (kept-Crowd pid content f (free pid) (empty c g free m))
      | inr e ↦ rw e (first-Crowd w pid c free m)
    ]
fill-Crowd {w} width sys pid content l f a s (one p c g at only m) =
    let same : content ≡ decimal p = cc in
    let equal : length content ≤ length (decimal pid) =
      omega (arith, ap length same, (s p (ground arith)).1, (s pid (ground arith)).1) in
    elim (fill-Written sys pid content (a.writes (decimal pid)) equal) [
      | inl e ↦ rw e (kept-Crowd pid content f (ground arith) (one p c g at only m))
      | inr e ↦ rw e (second-Crowd w pid p c l only m)
    ]
fill-Crowd width sys pid content l f a s (two p r g at only m) = absurd (m pid l)

check-Crowd :
    {w : World} (width : ℕ) (sys : System) (pid : ℕ) (content : Bytes)
    → w.place pid ≡ found
    → w.file ≡ some content
    → Answers w sys
    → Sized width w
    → Crowd w
    → Crowd (leave pid (check_pid_file sys pid content) w)
check-Crowd width sys pid content l f a s (nothing g none_there) = absurd ((none_there pid).1 l)
check-Crowd {w} width sys pid content l f a s (empty c g free m) =
    let blank : content ≡ [] = cc in
    elim (check-Written sys pid (a.writes (decimal pid))) [
      | inl e ↦ rw (blank, e) (kept-Crowd pid [] g (free pid) (empty c g free m))
      | inr e ↦ rw (blank, e) (first-Crowd w pid c free m)
    ]
check-Crowd {w} width sys pid content l f a s (one p c g at only m) =
    let same : content ≡ decimal p = cc in
    rw (same, check-living sys pid p (s p (ground arith)).0 (a.kills p (ground arith)))
      (kept-Crowd pid (decimal p) g (ground arith) (one p c g at only m))
check-Crowd {w} width sys pid content l f a s (two p r g at only m) =
    let same : content ≡ decimal p = cc in
    rw (same, check-living sys pid p (s p (ground arith)).0 (a.kills p (ground arith)))
      (kept-Crowd pid (decimal p) g (ground arith) (two p r g at only m))

Step-Sized : {width : ℕ} {w v : World} → Step width w v → Sized width w → Sized width v
unfolding open_file make_file leave
Step-Sized (opens_file sys pid l small size) s q h = ground (arith, s q, ==_iff q pid)
Step-Sized {w = w} (makes_file sys pid l) s q h = ground (arith, s q, ==_iff q pid)
Step-Sized (fills_file sys pid content l f a) s q h = ground (arith, s q, ==_iff q pid)
Step-Sized (checks_file sys pid content l f a) s q h = ground (arith, s q, ==_iff q pid)
Step-Sized (other_comes pid) s q h = s q h
Step-Sized (other_goes pid) s q h = s q h

Step-Crowd : {width : ℕ} {w v : World} → Step width w v → Sized width w → Crowd w → Crowd v
Step-Crowd (opens_file sys pid l small size) s k = open_file-Crowd sys pid l k
Step-Crowd (makes_file sys pid l) s k = make_file-Crowd sys pid l k
Step-Crowd {width} (fills_file sys pid content l f a) s k =
    fill-Crowd width sys pid content l f a s k
Step-Crowd {width} (checks_file sys pid content l f a) s k =
    check-Crowd width sys pid content l f a s k
Step-Crowd (other_comes pid) s (nothing f n) = nothing f n
Step-Crowd (other_comes pid) s (empty c f free m) = empty c f free m
Step-Crowd (other_comes pid) s (one p c f at only m) = one p c f at only m
Step-Crowd (other_comes pid) s (two p r f at only m) = two p r f at only m
Step-Crowd (other_goes pid) s (nothing f n) = nothing f n
Step-Crowd (other_goes pid) s (empty c f free m) = empty c f free m
Step-Crowd (other_goes pid) s (one p c f at only m) = one p c f at only m
Step-Crowd (other_goes pid) s (two p r f at only m) = two p r f at only m

reach : {width : ℕ} {w : World} → Reach width w → Sized width w × Crowd w
unfolding new
reach first = (λ q h. absurd cc, nothing refl (λ q. ground arith))
reach (next r t) = let (s, k) = reach r in (Step-Sized t s, Step-Crowd t s k)

-- Those that `CheckOnly` let go on: nobody, with an absent or empty file, or at most two, with the pid
-- of one of them alone in the file.
pub data IsPair (w : World) : Type 0 where
  nobody : ((q : ℕ) → w.place q ≢ past) → (w.file ≡ none) ⊎ (w.file ≡ some []) → IsPair w
  pair :
      (p r : ℕ)
      → w.file ≡ some (decimal p)
      → w.place p ≡ past
      → ((q : ℕ) → w.place q ≡ past → (q ≡ p) ⊎ (q ≡ r))
      → IsPair w

Crowd-IsPair : {w : World} → Crowd w → IsPair w
Crowd-IsPair (nothing f n) = nobody (λ q. (n q).2) (inl f)
Crowd-IsPair (empty c f free m) = nobody free (inr f)
Crowd-IsPair (one p c f at only m) = pair p p f at (λ q h. inl (only q h))
Crowd-IsPair (two p r f at only m) = pair p r f at only

-- From a system without a pid file, for processes whose calls of CheckOnly overlap in any order of
-- their opens and locked parts, with pids below 2 ^ 31 of one number of digits, of which those
-- that it lets go on do not end, while other processes come and go: if kill never misses a living
-- process and write takes all or nothing, then whatever other calls fail, at most two processes go
-- on, and the file then holds the pid of one of them alone; before any goes on, the file is absent
-- or empty.
pub Reach-IsPair : {width : ℕ} {w : World} → Reach width w → IsPair w
Reach-IsPair r = Crowd-IsPair (reach r).1

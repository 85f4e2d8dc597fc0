-- ===== src/WorkPool/Calls.antt =====
-- The pool of thread_pool/thread_pool.cpp from outside: how many workers it starts, which of them a post
-- goes to, what a deletion marks, and that a pool refuses every post.
use cpp_done.Prelude.{
  ℕ, zero, suc, ◌+◌, ◌-◌, ◌%◌, ◌^◌, ◌≤◌, ◌<◌, ◌≡◌, refl, ap, ◌⊎◌, inl, inr, true, false, none, some,
  List, [], ◌∷◌, ltb, arith, length, get_elem?, modify, replicate, length-replicate, fold,
}
use cpp_done.Std.Map
use cpp_done.Std.Map.{Map, find-insert}
use cpp_done.Std.Order.{nat_less}
use cpp_done.WorkPool.{
  invalid, ThreadPool, set_status, new, started_worker, push_work, make_work_thread, start_pool,
  stop_pool, refused, out_of_range, posted, post_work, delete_work,
}

-- A call of a public method.
pub data Call : Type 0 where
  starts : ℕ → ℕ → Call
  stops : Call
  posts : ℕ → Call
  deletes : ℕ → Call

unfoldable pub call : ThreadPool → Call → ThreadPool
call p (starts hardware num) = start_pool hardware num p
call p stops = stop_pool p
call p (posts work_id) = (post_work work_id p).1
call p (deletes id) = delete_work id p

pub record IsRefusing (p : ThreadPool) : Type 0 where
  pub stop : p.stop ≡ true
  pub unnamed : p.name_works ≡ []
  pub no_object : p.next_work ≡ 0

call-IsRefusing : (p : ThreadPool) (c : Call) → IsRefusing p → IsRefusing (call p c)
unfolding call start_pool make_work_thread stop_pool post_work delete_work Map.find
call-IsRefusing p (starts hardware num) v = ground arith
call-IsRefusing p stops v = ground arith
call-IsRefusing p (posts work_id) v = ground arith
call-IsRefusing p (deletes id) v = ground arith

calls-IsRefusing : (cs : List Call) (p : ThreadPool) → IsRefusing p → IsRefusing (fold call p cs)
calls-IsRefusing [] p v = v
calls-IsRefusing (c ∷ cs) p v = calls-IsRefusing cs (call p c) (call-IsRefusing p c v)

-- After any calls of StartPool, StopPool, PostWork and DeleteWork on a new pool, PostWork refuses,
-- and no object was made or named.
pub new-refuses :
    (cs : List Call) (work_id : ℕ)
    → let p = fold call new cs in
      (post_work work_id p ≡ (refused, p)) × (p.name_works ≡ []) × (p.next_work ≡ 0)
unfolding post_work new
new-refuses cs work_id =
    let v : IsRefusing (fold call new cs) = calls-IsRefusing cs new (ground arith) in
    (ground (arith, v.stop), v.unnamed, v.no_object)

none_or_one : (n : ℕ) → (n ≡ 0) ⊎ (1 ≤ n)
none_or_one zero = inl refl
none_or_one (suc n) = inr (omega arith)

-- StartPool of a new pool with n threads on h cores, both below 2 ^ 32, records n. If n < h and 2
-- n <= h it starts h + 1 - 2 n workers, and if 2 n > h it starts none.
pub start_pool-length :
    (hardware num : ℕ)
    → hardware < 2 ^ 32
    → num < 2 ^ 32
    → let p = start_pool hardware num new in
      (p.threads_size ≡ num)
      × ((num < hardware → num + num ≤ hardware → length p.workers + (num + num) ≡ hardware + 1))
      × (hardware < num + num → p.workers ≡ [])
unfolding start_pool make_work_thread new
start_pool-length hardware num small few =
    let fits : num % 2 ^ 32 ≡ num = omega arith in
    let count = hardware - num + 1 - num in
    (
      ground (arith, fits),
      λ some_left room. ground (arith, fits, length-replicate count started_worker),
      λ none_left. elim (none_or_one count) [
        | inl e ↦ ground (arith, fits, ap (λ n. replicate n started_worker) e)
        | inr l ↦ absurd (omega arith)
      ],
    )

get_elem?-inside :
    {A : Type 0} (xs : List A) (i : ℕ) → i < length xs → (x : A) × (get_elem? xs i ≡ some x)
get_elem?-inside [] i h = absurd (omega arith)
get_elem?-inside (x ∷ xs) zero h = (x, refl)
get_elem?-inside (x ∷ xs) (suc i) h = get_elem?-inside xs i (omega arith)

get_elem?-length : {A : Type 0} (xs : List A) → get_elem? xs (length xs) ≡ none
get_elem?-length [] = refl
get_elem?-length (x ∷ xs) = get_elem?-length xs

-- On a pool that is not stopped, with as many workers as it records (fewer than 2 ^ 32 - 1) and an
-- offset within their number, PostWork pushes the work to the worker at the offset and moves on by
-- one; when the offset has come to their number, it indexes past the end.
pub post_work-offset :
    (work_id : ℕ) (p : ThreadPool)
    → p.stop ≡ false
    → p.threads_size ≡ length p.workers
    → p.offset ≤ length p.workers
    → length p.workers + 1 < 2 ^ 32
    → let r = post_work work_id p in
      (p.offset < length p.workers
        → (r.0 ≡ posted work_id p.offset)
          × (r.1.offset ≡ p.offset + 1)
          × (r.1.workers ≡ modify p.workers p.offset (push_work (some p.next_work))))
      × (p.offset ≡ length p.workers → r.0 ≡ out_of_range (length p.workers))
unfolding post_work
post_work-offset work_id p up size place small =
    let kept : ltb p.threads_size p.offset ≡ false = ground arith in
    (
      λ inside.
          let (w, found) = get_elem?-inside p.workers p.offset inside in
          let next : (p.offset + 1) % 2 ^ 32 ≡ p.offset + 1 = omega arith in
          ground (arith, up, kept, found, next),
      λ at_end. ground (arith, up, kept, at_end, get_elem?-length p.workers),
    )

-- On a pool that is not stopped, DeleteWork with the identifier of the last post makes the posted
-- object invalid if the identifier was new, and the older object of that name if it was not.
pub delete_work-post_work :
    (work_id : ℕ) (p : ThreadPool)
    → p.stop ≡ false
    → let q = (post_work work_id p).1 in
      (Map.find work_id p.name_works ≡ none
        → (delete_work work_id q).status ≡ set_status p.next_work invalid q.status)
      × ((old : ℕ)
          → Map.find work_id p.name_works ≡ some old
          → (delete_work work_id q).status ≡ set_status old invalid q.status)
unfolding post_work delete_work
delete_work-post_work work_id p up = (
  λ absent. ground (arith, up, absent, find-insert work_id work_id p.next_work p.name_works),
  λ old present. ground (arith, up, present),
)

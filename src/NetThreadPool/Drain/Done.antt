-- ===== src/NetThreadPool/Drain/Done.antt =====
-- The steps of the threads and callers of http_client/thread_pool.cpp go on until all tasks are done.
use cpp_done.NetThreadPool.Conserved.{given, all_given, weigh, Step-total, Reach-total}
use cpp_done.NetThreadPool.Safety.{Step-IsSafe, Reach-IsSafe}
use cpp_done.NetThreadPool.{
  ThreadPool, new, set_max_queue_size, start, run, is_full, notify_not_empty, push, stop, pop, Step,
  calls, pushes, blocks, rouses, stops, enters, exits, sleeps, wakes, takes_none, takes,
  takes_and_notifies, finishes, Reach, here, next,
}
use cpp_done.Prelude.{
  ℕ, ◌<◌, ◌≡◌, refl, ap, ◌∙◌, ◌⊎◌, inl, inr, true, false, List, [], ◌∷◌, arith, length,
  length-append,
}
use cpp_done.Std.Ends.{Ends, falling-Ends}
use cpp_done.NetThreadPool.Shutdown.{zero_or_pos}
use cpp_done.NetThreadPool.Drain.{is_inner, Inner, AllDone, IsActive, measure, inner-Nears}

module _ {T : Type 0} where
  -- a thread takes the front of the queue, and notifies a caller that waits
  front_next :
      (p : ThreadPool T) (task : T) (rest blocked : List T)
      → p.queue ≡ task ∷ rest
      → p.blocked ≡ blocked
      → 0 < p.taking
      → (p.blocked ≡ []) ⊎ (0 < p.max_queue_size)
      → (q : ThreadPool T) × Inner p q
  front_next p task rest [] e b h l = (_, (takes task rest h e (inr b), refl))
  front_next p task rest (waiter ∷ after) e b h (inl none) = absurd (cc)
  front_next p task rest (waiter ∷ after) e b h (inr m) =
      (_, (takes_and_notifies task rest [] after waiter h e m b, refl))

  room : (p : ThreadPool T) → p.queue ≡ [] → is_full p ≡ false
  unfolding is_full
  room p e = ground (arith, ap length e)

  calling_next :
      (p : ThreadPool T) (calling : List T)
      → p.calling ≡ calling
      → p.queue ≡ []
      → (calling ≡ []) ⊎ ((q : ThreadPool T) × Inner p q)
  calling_next p [] c e = inl refl
  calling_next p (task ∷ rest) c e = inr (_, (pushes [] rest task c (room p e), refl))

  all_done :
      (tasks : List T) (p : ThreadPool T)
      → p.queue ≡ []
      → p.executing ≡ []
      → p.calling ≡ []
      → IsActive tasks p
      → AllDone tasks p
  all_done tasks p e x idle v =
      let none_blocked : p.blocked ≡ [] = ground (arith, ap length e, ap length idle) in
      record {
        none_left = ground arith;
        each_once = λ f. omega (
          arith,
          v.kept f,
          ap (weigh f) x,
          ap (weigh f) e,
          ap (weigh f) idle,
          ap (weigh f) none_blocked,
        );
      }

  pub go_on :
      (tasks : List T) (p : ThreadPool T) (queue executing : List T)
      → p.queue ≡ queue
      → p.executing ≡ executing
      → IsActive tasks p
      → AllDone tasks p ⊎ ((q : ThreadPool T) × Inner p q)
  go_on tasks p queue (task ∷ rest) e x v = inr (_, (finishes [] rest task x, refl))
  go_on tasks p (task ∷ rest) [] e x v = elim (zero_or_pos p.at_test) [
    | inr h ↦ inr (_, (enters h v.up, refl))
    | inl no_test ↦ inr (
        front_next p task rest p.blocked e refl (ground (arith, ap length e, ap length x))
          v.limited)
  ]
  go_on tasks p [] [] e x v = elim (calling_next p p.calling refl e) [
    | inr more ↦ inr more
    | inl idle ↦ inl (all_done tasks p e x idle v)
  ]

  pub Inner-given : {p q : ThreadPool T} (s : Step p q) → is_inner s ≡ true → given s ≡ []
  Inner-given (calls task) o = absurd cc
  Inner-given (pushes before after task e f) o = refl
  Inner-given (blocks before after task e f) o = refl
  Inner-given (rouses before after task e) o = absurd cc
  Inner-given stops o = absurd cc
  Inner-given (enters h r) o = refl
  Inner-given (exits h r) o = refl
  Inner-given (sleeps h e r) o = refl
  Inner-given (wakes h) o = absurd cc
  Inner-given (takes_none h e r) o = refl
  Inner-given (takes task rest h e f) o = refl
  Inner-given (takes_and_notifies task rest before after waiter h e m b) o = refl
  Inner-given (finishes before after task e) o = refl

  pub Inner-IsActive :
      (tasks : List T) (p q : ThreadPool T)
      → IsActive tasks p
      → Inner p q
      → (measure q < measure p) × IsActive tasks q
  Inner-IsActive tasks p q v (s, o) =
      let n = inner-Nears s o v.up v.limited in
      (
        n.falls,
        record {
          safe = Step-IsSafe s v.safe;
          up = n.up;
          manned = omega (arith, n.threads, v.manned);
          limited = n.limited;
          kept = λ f. omega (arith, Step-total f s, ap (weigh f) (Inner-given s o), v.kept f);
        },
      )

  -- what every step keeps
  Step-limited :
      {p q : ThreadPool T}
      → Step p q
      → (p.blocked ≡ []) ⊎ (0 < p.max_queue_size)
      → ((q.blocked ≡ []) ⊎ (0 < q.max_queue_size)) × (q.threads ≡ p.threads)
  unfolding run push notify_not_empty is_full pop stop
  Step-limited (calls task) l = ground arith
  Step-limited (pushes before after task e f) l = ground arith
  Step-limited (blocks before after task e f) l = ground arith
  Step-limited (rouses before after task e) l =
      ground (arith, ap length e, length-append before (task ∷ after))
  Step-limited stops l = (l, refl)
  Step-limited (enters m r) l = (l, refl)
  Step-limited (exits m r) l = (l, refl)
  Step-limited (sleeps m e r) l = (l, refl)
  Step-limited (wakes m) l = (l, refl)
  Step-limited (takes_none m e r) l = (l, refl)
  Step-limited (takes task rest m e f) l = (l, refl)
  Step-limited (takes_and_notifies task rest before after waiter m e n b) l = (inr n, refl)
  Step-limited (finishes before after task e) l = (l, refl)

  Reach-limited :
      (num_threads size : ℕ) {p : ThreadPool T}
      → Reach (start num_threads (set_max_queue_size size new)) p
      → ((p.blocked ≡ []) ⊎ (0 < p.max_queue_size)) × (p.threads ≡ num_threads)
  unfolding start set_max_queue_size new
  Reach-limited num_threads size here = (inl refl, omega arith)
  Reach-limited num_threads size (next r s) =
      let (l, n) = Reach-limited num_threads size r in
      let (l', n') = Step-limited s l in (l', n' ∙ n)

  pub Reach-IsActive :
      (num_threads size : ℕ) {p : ThreadPool T}
      (r : Reach (start num_threads (set_max_queue_size size new)) p)
      → 0 < num_threads
      → p.running ≡ true
      → IsActive (all_given r) p
  unfolding start set_max_queue_size new
  Reach-IsActive num_threads size {p} r h up =
      let (l, n) = Reach-limited num_threads size r in
      record {
        safe = Reach-IsSafe num_threads size r;
        up = up;
        manned = omega (arith, n);
        limited = l;
        kept = λ f. omega (arith, Reach-total f r);
      }

  -- From any state that the steps of the callers and threads of a new pool with at least one
  -- thread and any queue limit reach, and in which the pool runs: if no task is given and the pool
  -- is not stopped from then on, and no wait ends without a notification, then in whatever order
  -- the threads and callers take their steps, there is a next step until every task that was given
  -- to run is done, each as often as it was given, and that is so after finitely many steps.
  pub Reach-AllDone :
      (num_threads size : ℕ) {p : ThreadPool T}
      (r : Reach (start num_threads (set_max_queue_size size new)) p)
      → 0 < num_threads
      → p.running ≡ true
      → Ends Inner (AllDone (all_given r)) p
  Reach-AllDone num_threads size {p} r h up =
      falling-Ends Inner (AllDone (all_given r)) measure (IsActive (all_given r))
        (λ q v k t. Inner-IsActive (all_given r) q v k t)
        (λ q k. go_on (all_given r) q q.queue q.executing refl refl k) p
        (Reach-IsActive num_threads size r h up)

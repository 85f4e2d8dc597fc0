-- ===== src/HttpClient/Closing/Late.antt =====
-- The requests that the threads of http_client/thread_pool.cpp answer while the client is destroyed.
use cpp_done.HttpClient.{HttpRequest}
use cpp_done.NetThreadPool.Conserved.{weigh, weigh-append, weigh-middle}
use cpp_done.NetThreadPool.Shutdown.{is_own}
use cpp_done.NetThreadPool.{
  ThreadPool, pop, Step, calls, pushes, blocks, rouses, stops, enters, exits, sleeps, wakes,
  takes_none, takes, takes_and_notifies, finishes,
}
use cpp_done.Prelude.{
  ℕ, ◌+◌, ◌≡◌, refl, ap, sym, ◌∙◌, true, List, [], ◌∷◌, ◌++◌, arith, append_assoc, append-nil,
}

-- What the threads did from the pool `p` to the pool `q`: the front `taken` of the queue was taken,
-- and of it and the tasks executing at first those in `late` are done, the others still executing.
pub record IsLate (p q : ThreadPool HttpRequest) (late taken : List HttpRequest) : Type 0 where
  pub answered : q.done ≡ p.done ++ late
  pub in_order : p.queue ≡ taken ++ q.queue
  pub each_once :
      (g : HttpRequest → ℕ)
      → weigh g late + weigh g q.executing ≡ weigh g p.executing + weigh g taken

abbrev pub Late : ThreadPool HttpRequest → ThreadPool HttpRequest → Type 0
Late p q = (late : List HttpRequest) × (taken : List HttpRequest) × IsLate p q late taken

-- a step that leaves the lists as they are
pub kept-Late :
    {p q r : ThreadPool HttpRequest} {late taken : List HttpRequest}
    → IsLate p q late taken
    → r.done ≡ q.done
    → r.queue ≡ q.queue
    → r.executing ≡ q.executing
    → Late p r
kept-Late {late = late} {taken = taken} l d q e = (
  late,
  taken,
  record {
    answered = d ∙ l.answered;
    in_order = l.in_order ∙ ap (λ xs. taken ++ xs) (sym q);
    each_once = λ g. omega (arith, l.each_once g, ap (weigh g) e);
  },
)

-- a thread takes the front of the queue
taken-Late :
    {p q r : ThreadPool HttpRequest} {late taken : List HttpRequest} (task : HttpRequest)
    → IsLate p q late taken
    → q.queue ≡ task ∷ r.queue
    → r.done ≡ q.done
    → r.executing ≡ q.executing ++ task ∷ []
    → Late p r
taken-Late {q = q} {r = r} {late = late} {taken = taken} task l front d e = (
  late,
  taken ++ task ∷ [],
  record {
    answered = d ∙ l.answered;
    in_order =
        l.in_order ∙ ap (λ xs. taken ++ xs) front ∙ sym (append_assoc taken (task ∷ []) r.queue);
    each_once = λ g. omega (
      arith,
      l.each_once g,
      ap (weigh g) e,
      weigh-append g q.executing (task ∷ []),
      weigh-append g taken (task ∷ []),
    );
  },
)

-- a task ends
finished-Late :
    {p q r : ThreadPool HttpRequest} {late taken : List HttpRequest}
    (before after : List HttpRequest) (task : HttpRequest)
    → IsLate p q late taken
    → q.executing ≡ before ++ task ∷ after
    → r.executing ≡ before ++ after
    → r.done ≡ q.done ++ task ∷ []
    → r.queue ≡ q.queue
    → Late p r
finished-Late {p = p} {q = q} {late = late} {taken = taken} before after task l e e' d w = (
  late ++ task ∷ [],
  taken,
  record {
    answered = d ∙ ap (λ xs. xs ++ task ∷ []) l.answered ∙ append_assoc p.done late (task ∷ []);
    in_order = l.in_order ∙ ap (λ xs. taken ++ xs) (sym w);
    each_once = λ g. omega (
      arith,
      l.each_once g,
      ap (weigh g) e',
      weigh-middle g q.executing before after task e,
      weigh-append g late (task ∷ []),
    );
  },
)

pub step-Late :
    {p q r : ThreadPool HttpRequest} {late taken : List HttpRequest} (s : Step q r)
    → is_own s ≡ true
    → IsLate p q late taken
    → Late p r
unfolding pop
step-Late (calls task) o l = absurd cc
step-Late (pushes before after task e f) o l = absurd cc
step-Late (blocks before after task e f) o l = absurd cc
step-Late (rouses before after task e) o l = absurd cc
step-Late stops o l = absurd cc
step-Late (enters m r) o l = kept-Late l refl refl refl
step-Late (exits m r) o l = kept-Late l refl refl refl
step-Late (sleeps m e r) o l = kept-Late l refl refl refl
step-Late (wakes m) o l = kept-Late l refl refl refl
step-Late (takes_none m e r) o l = kept-Late l refl refl refl
step-Late (takes task rest m e f) o l = taken-Late task l e refl refl
step-Late (takes_and_notifies task rest before after waiter m e n b) o l =
    taken-Late task l e refl refl
step-Late (finishes before after task e) o l = finished-Late before after task l e refl refl refl

pub none_yet : (p : ThreadPool HttpRequest) → Late p p
none_yet p = (
  [],
  [],
  record { answered = sym (append-nil p.done); in_order = refl; each_once = λ g. omega arith },
)

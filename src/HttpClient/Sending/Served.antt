-- ===== src/HttpClient/Sending/Served.antt =====
-- All requests that a client of http_client/http_client.cpp sends are answered in the end.
use cpp_done.HttpClient.Curl.{Libcurl}
use cpp_done.HttpClient.Sending.{
  Client, new, init_threadpool, answer, finish_detached, callbacks, ClientStep, sends, syn_sends,
  sends_immediate, ends, works, ClientReach,
}
use cpp_done.HttpClient.Sending.Answers.{
  request_of, all_sent, pending, weight, balance, step-balance, reach-balance, weigh-pending,
}
use cpp_done.HttpClient.Sending.Pool.{client_pool}
use cpp_done.HttpClient.Methods.{process_response}
use cpp_done.HttpClient.{HttpRequest, HttpResponse, HttpClient}
use cpp_done.NetThreadPool.Conserved.{all_given, weigh}
use cpp_done.NetThreadPool.Drain.{is_inner, AllDone, IsActive, measure, unfinished}
use cpp_done.NetThreadPool.Drain.Done.{go_on, Inner-given, Inner-IsActive, Reach-IsActive}
use cpp_done.NetThreadPool.{ThreadPool, Step}
use cpp_done.NetThreadPool
use cpp_done.Prelude.{
  ℕ, ◌+◌, ◌<◌, ◌≡◌, refl, ap, ◌∙◌, ◌⊎◌, inl, inr, Bool, true, false, Option, List, [], ◌∷◌, ◌++◌,
  arith, length, length-append,
}
use cpp_done.Std.Ends.{Ends, falling-Ends}
use cpp_done.Std.Text.{Bytes}

nil_parts {ℓ} : {A : Type ℓ} (xs ys : List A) → xs ++ ys ≡ [] → (xs ≡ []) × (ys ≡ [])
nil_parts [] ys e = (refl, e)
nil_parts (x ∷ xs) ys e = absurd cc

module _ (lib : Libcurl) (files : Bytes → Option Bytes) where
  -- a step of a thread of the pool, of a caller in `run`, or of a detached thread
  abbrev is_serving : {c d : Client} → ClientStep lib files c d → Bool
  is_serving (sends request) = false
  is_serving (syn_sends request) = false
  is_serving (sends_immediate request) = false
  is_serving (ends before after request e) = true
  is_serving (works s e) = is_inner s

  abbrev pub Serving : Client → Client → Type 0
  Serving c d = (s : ClientStep lib files c d) × (is_serving s ≡ true)

  -- no request is without an answer, and the callbacks got the answer to each request once
  pub record AllAnswered (requests : List HttpRequest) (c : Client) : Type 0 where
    pub none_left : pending lib files c ≡ []
    pub each_once :
        (g : Option HttpResponse → ℕ)
        → weigh g (callbacks lib files c)
          ≡ weigh (λ request. g (answer lib files c request)) requests

  record IsServing (requests tasks : List HttpRequest) (settings : HttpClient) (c : Client)
      : Type 0 where
    active : IsActive tasks c.pool
    same : c.settings ≡ settings
    kept :
        (g : Option HttpResponse → ℕ)
        → balance lib files g c ≡ weigh (weight lib files g c) requests

  abbrev client_measure : Client → ℕ
  client_measure c = measure c.pool + length c.detached

  pool_step :
      (tasks : List HttpRequest) {c d : Client}
      → IsActive tasks c.pool
      → (s : ClientStep lib files c d) → is_serving s ≡ true
      → (client_measure d < client_measure c) × IsActive tasks d.pool
  unfolding finish_detached
  pool_step tasks v (sends request) o = absurd cc
  pool_step tasks v (syn_sends request) o = absurd cc
  pool_step tasks v (sends_immediate request) o = absurd cc
  pool_step tasks {c} v (ends before after request e) o = (
    omega (arith, ap length e, length-append before (request ∷ after), length-append before after),
    v,
  )
  pool_step tasks {c} {d} v (works s e) o =
      let (less, still) = Inner-IsActive tasks c.pool d.pool v (s, o) in
      (omega (arith, less), still)

  none_sent :
      {c d : Client} (s : ClientStep lib files c d)
      → is_serving s ≡ true
      → request_of lib files s ≡ []
  none_sent (sends request) o = absurd cc
  none_sent (syn_sends request) o = absurd cc
  none_sent (sends_immediate request) o = absurd cc
  none_sent (ends before after request e) o = refl
  none_sent (works s e) o = refl

  step-IsServing :
      (requests tasks : List HttpRequest) (settings : HttpClient) (c d : Client)
      → IsServing requests tasks settings c
      → Serving c d
      → (client_measure d < client_measure c) × IsServing requests tasks settings d
  step-IsServing requests tasks settings c d v (s, o) =
      let (less, still) = pool_step tasks v.active s o in
      (
        less,
        record {
          active = still;
          same = (step-balance lib files (λ a. 0) s).0 ∙ v.same;
          kept = λ g.
              let (kept, after) = step-balance lib files g s in
              let then_weight : weight lib files g d ≡ weight lib files g c =
                ap (λ settings request. g (process_response lib files settings request)) kept in
              omega (
                arith,
                v.kept g,
                after,
                ap (weigh (weight lib files g c)) (none_sent s o),
                ap (λ f. weigh f requests) then_weight,
              );
        },
      )

  detached_next :
      (c : Client) (detached : List HttpRequest)
      → c.detached ≡ detached
      → (detached ≡ []) ⊎ ((d : Client) × Serving c d)
  detached_next c [] e = inl refl
  detached_next c (request ∷ rest) e = inr (_, (ends [] rest request e, refl))

  pending_none : (c : Client) → unfinished c.pool ≡ [] → c.detached ≡ [] → pending lib files c ≡ []
  pending_none c e d =
      let (x, more) =
        nil_parts c.pool.executing (c.pool.queue ++ (c.pool.calling ++ c.pool.blocked)) e in
      let (q, callers) = nil_parts c.pool.queue (c.pool.calling ++ c.pool.blocked) more in
      let (waiting, blocked) = nil_parts c.pool.calling c.pool.blocked callers in ground arith

  all_answered :
      (requests tasks : List HttpRequest) (settings : HttpClient) (c : Client)
      → IsServing requests tasks settings c
      → AllDone tasks c.pool
      → c.detached ≡ []
      → AllAnswered requests c
  all_answered requests tasks settings c v done e =
      let none : pending lib files c ≡ [] = pending_none c done.none_left e in
      record {
        none_left = none;
        each_once = λ g.
            omega (
              arith,
              weigh-pending lib files g c,
              v.kept g,
              ap (weigh (weight lib files g c)) none,
            );
      }

  client_goes_on :
      (requests tasks : List HttpRequest) (settings : HttpClient) (c : Client)
      → IsServing requests tasks settings c
      → AllAnswered requests c ⊎ ((d : Client) × Serving c d)
  client_goes_on requests tasks settings c v = elim (detached_next c c.detached refl) [
    | inr more ↦ inr more
    | inl idle ↦ elim (go_on tasks c.pool c.pool.queue c.pool.executing refl refl v.active) [
      | inl done ↦ inl (all_answered requests tasks settings c v done idle)
      | inr (p, (s, o)) ↦ inr (record c { pool = p }, (works s (Inner-given s o), o))
    ]
  ]

  -- On a new client whose pool was started with at least one thread and runs, after any calls of
  -- send, synSend and sendImmediate and any steps of the threads: if no request is sent and the
  -- pool is not stopped from then on, and no wait of the pool ends without a notification, then in
  -- whatever order the threads of the pool, the callers in run and the detached threads take their
  -- steps, there is a next step until no request is without an answer and the callbacks got the
  -- answer to each request once, and that is so after finitely many steps.
  pub reach-AllAnswered :
      (threadnum : ℕ) {c : Client} (r : ClientReach lib files (init_threadpool threadnum new) c)
      → 0 < threadnum
      → c.pool.running ≡ true
      → Ends Serving (AllAnswered (all_sent lib files r)) c
  unfolding new init_threadpool NetThreadPool.new NetThreadPool.start
  reach-AllAnswered threadnum {c} r h up =
      let pooled = client_pool lib files threadnum r in
      let requests = all_sent lib files r in
      let tasks = all_given pooled in
      falling-Ends Serving (AllAnswered requests) client_measure
        (IsServing requests tasks c.settings)
        (λ d v k t. step-IsServing requests tasks c.settings d v k t)
        (λ d k. client_goes_on requests tasks c.settings d k) c
        (record {
          active = Reach-IsActive threadnum 0 pooled h up;
          same = refl;
          kept = λ g.
              let (kept, balanced) = reach-balance lib files g r in
              let then_weight : weight lib files g c
                  ≡ weight lib files g (init_threadpool threadnum new) =
                ap (λ settings request. g (process_response lib files settings request)) kept in
              omega (arith, balanced, ap (λ f. weigh f requests) then_weight);
        })

-- ===== src/HttpClient/Sending/Answers.antt =====
-- Every request that a client of http_client/http_client.cpp sends gets one answer, whichever way it is sent.
use cpp_done.HttpClient.Curl.{Libcurl}
use cpp_done.HttpClient.Sending.{
  Client, new, init_threadpool, send, answer, syn_send, send_immediate, finish_detached, callbacks,
  ClientStep, sends, syn_sends, sends_immediate, ends, works, ClientReach, begin, then_step,
}
use cpp_done.HttpClient.Methods.{process_response}
use cpp_done.HttpClient.{HttpRequest, HttpResponse}
use cpp_done.NetThreadPool.Conserved.{weigh, weigh-append, weigh-middle, total, Step-total}
use cpp_done.NetThreadPool.{Step, run, calls}
use cpp_done.NetThreadPool
use cpp_done.Prelude.{ℕ, ◌+◌, ◌≡◌, refl, ap, ◌∙◌, Option, List, [], ◌∷◌, ◌++◌, map, arith}
use cpp_done.Std.Text.{Bytes}

weigh-map {ℓ κ} :
    {A : Type ℓ} {B : Type κ} (g : B → ℕ) (h : A → B) (xs : List A)
    → weigh g (map h xs) ≡ weigh (λ x. g (h x)) xs
weigh-map g h [] = refl
weigh-map g h (x ∷ xs) = ap (λ n. g (h x) + n) (weigh-map g h xs)

module _ (lib : Libcurl) (files : Bytes → Option Bytes) where
  abbrev pub request_of : {c d : Client} → ClientStep lib files c d → List HttpRequest
  request_of (sends request) = request ∷ []
  request_of (syn_sends request) = request ∷ []
  request_of (sends_immediate request) = request ∷ []
  request_of (ends before after request e) = []
  request_of (works s e) = []

  abbrev pub all_sent : {c d : Client} → ClientReach lib files c d → List HttpRequest
  all_sent begin = []
  all_sent (then_step r s) = all_sent r ++ request_of s

  -- the requests without an answer
  abbrev pub pending : Client → List HttpRequest
  pending c =
      c.pool.executing ++ (c.pool.queue ++ (c.pool.calling ++ (c.pool.blocked ++ c.detached)))

  module _ (g : Option HttpResponse → ℕ) where
    -- the weight of the answer to a request
    abbrev pub weight : Client → HttpRequest → ℕ
    weight c request = g (answer lib files c request)

    -- answers and requests without one, together
    abbrev pub balance : Client → ℕ
    balance c = total (weight c) c.pool + weigh (weight c) c.detached + weigh g c.answered

    pub step-balance :
        {c d : Client} (s : ClientStep lib files c d)
        → (d.settings ≡ c.settings) × (balance d ≡ balance c + weigh (weight c) (request_of s))
    unfolding send syn_send send_immediate finish_detached
    step-balance {c} (sends request) =
        let s : Step c.pool (run request c.pool) = calls request in
        (refl, omega (arith, Step-total (weight c) s))
    step-balance {c} (syn_sends request) =
        (refl, omega (arith, weigh-append g c.answered (answer lib files c request ∷ [])))
    step-balance {c} (sends_immediate request) =
        (refl, omega (arith, weigh-append (weight c) c.detached (request ∷ [])))
    step-balance {c} (ends before after request e) = (
      refl,
      omega (
        arith,
        weigh-middle (weight c) c.detached before after request e,
        weigh-append g c.answered (answer lib files c request ∷ []),
      ),
    )
    step-balance {c} (works s e) =
        (refl, omega (arith, Step-total (weight c) s, ap (weigh (weight c)) e))

    pub reach-balance :
        {c d : Client} (r : ClientReach lib files c d)
        → (d.settings ≡ c.settings) × (balance d ≡ balance c + weigh (weight c) (all_sent r))
    reach-balance begin = (refl, omega arith)
    reach-balance {c} (then_step {d} r s) =
        let (kept, before) = reach-balance r in
        let (same, after) = step-balance s in
        let then_weight : weight d ≡ weight c =
          ap (λ settings request. g (process_response lib files settings request)) kept in
        (
          same ∙ kept,
          omega (
            arith,
            before,
            after,
            ap (λ f. weigh f (request_of s)) then_weight,
            weigh-append (weight c) (all_sent r) (request_of s),
          ),
        )

    pub weigh-pending :
        (c : Client) → weigh g (callbacks lib files c) + weigh (weight c) (pending c) ≡ balance c
    weigh-pending c = omega (
      arith,
      weigh-append g (map (answer lib files c) c.pool.done) c.answered,
      weigh-map g (answer lib files c) c.pool.done,
      weigh-append (weight c) c.pool.executing
          (c.pool.queue ++ (c.pool.calling ++ (c.pool.blocked ++ c.detached))),
      weigh-append (weight c) c.pool.queue (c.pool.calling ++ (c.pool.blocked ++ c.detached)),
      weigh-append (weight c) c.pool.calling (c.pool.blocked ++ c.detached),
      weigh-append (weight c) c.pool.blocked c.detached,
    )

    -- On a new client whose pool was started with any number of threads, none included, and after
    -- any calls of send, synSend and sendImmediate and any steps of the threads, stopping the pool
    -- included, the answers that the callbacks got and the requests without an answer yet are
    -- together exactly the requests sent, each once: by every weight of answers, both weigh the
    -- same.
    pub reach-answers :
        (threadnum : ℕ) {c : Client} (r : ClientReach lib files (init_threadpool threadnum new) c)
        → weigh g (callbacks lib files c)
            + weigh (λ request. g (answer lib files c request)) (pending c)
          ≡ weigh (λ request. g (answer lib files c request)) (all_sent r)
    unfolding new init_threadpool NetThreadPool.new NetThreadPool.start
    reach-answers threadnum {c} r =
        let (kept, balanced) = reach-balance r in
        let then_weight : weight c ≡ weight (init_threadpool threadnum new) =
          ap (λ settings request. g (process_response lib files settings request)) kept in
        omega (arith, weigh-pending c, balanced, ap (λ f. weigh f (all_sent r)) then_weight)

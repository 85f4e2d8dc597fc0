-- ===== src/HttpClient/Closing/Joined.antt =====
-- The destructor of the client of http_client/http_client.cpp joins the threads of its pool, which
-- answer requests until then.
use cpp_done.HttpClient.Closing.{
  Closing, clean_up, opened, cleaned, joining, gone, destroy_pool, ClosingStep, cleans, destroys,
  joins, goes_on, ClosingReach, at_start, further,
}
use cpp_done.HttpClient.Curl.{Libcurl}
use cpp_done.HttpClient.Sending.{Client, new, init_threadpool, ClientReach}
use cpp_done.HttpClient.Sending.Pool.{client_pool}
use cpp_done.HttpClient.{HttpRequest}
use cpp_done.NetThreadPool.Safety.{IsSafe, Step-IsSafe, Reach-IsSafe}
use cpp_done.NetThreadPool.Shutdown.{
  Prompted, own_running, returned_rest, AllReturned, stopped-AllReturned,
}
use cpp_done.NetThreadPool.{ThreadPool, stop, stops}
use cpp_done.Prelude.{ℕ, ◌≡◌, refl, ◌∙◌, true, false, Option, List, [], ◌∷◌, arith, length}
use cpp_done.Std.Ends.{Ends}
use cpp_done.Std.Text.{Bytes}
use cpp_done.HttpClient.Closing.Late.{Late, kept-Late, step-Late, none_yet}

-- What holds of the pool while the client, whose pool was `p`, is destroyed.
record IsClosing (p : ThreadPool HttpRequest) (c : Closing) : Type 0 where
  safe : IsSafe c.pool
  late : Late p c.pool
  up : c.stage ≡ cleaned → c.pool.running ≡ true
  down : c.stage ≡ joining → c.pool.running ≡ false
  over : c.stage ≡ gone → AllReturned c.pool
  past : ¬ (c.stage ≡ opened)

step-IsClosing :
    (p : ThreadPool HttpRequest) {c d : Closing} → ClosingStep c d → IsClosing p c → IsClosing p d
unfolding clean_up destroy_pool stop
step-IsClosing p (cleans e) k = absurd (k.past e)
step-IsClosing p {c} (destroys e) k = rw (k.up e) (record {
  safe = Step-IsSafe stops k.safe;
  late = let (late, taken, l) = k.late in kept-Late l refl refl refl;
  up = λ h. absurd cc;
  down = λ h. refl;
  over = λ h. absurd cc;
  past = λ h. absurd cc;
})
step-IsClosing p (joins e r) k = record {
  safe = k.safe;
  late = k.late;
  up = λ h. absurd cc;
  down = λ h. absurd cc;
  over = λ h. r;
  past = λ h. absurd cc;
}
step-IsClosing p {c} (goes_on (s, o)) k = record {
  safe = Step-IsSafe s k.safe;
  late = let (late, taken, l) = k.late in step-Late s o l;
  up = λ h. own_running s o ∙ k.up h;
  down = λ h. own_running s o ∙ k.down h;
  over = λ h. absurd (returned_rest k.safe.counted (k.over h) s o);
  past = k.past;
}

reach-IsClosing :
    (p : ThreadPool HttpRequest) {c d : Closing} → IsClosing p c → ClosingReach c d → IsClosing p d
reach-IsClosing p k at_start = k
reach-IsClosing p k (further r s) = step-IsClosing p s (reach-IsClosing p k r)

length_nil : {T : Type 0} (xs : List T) → length xs ≡ 0 → xs ≡ []
length_nil [] h = refl
length_nil (x ∷ xs) h = absurd cc

module _ (lib : Libcurl) (files : Bytes → Option Bytes) where
  -- On a new client whose pool was started with any number of threads and is not stopped before,
  -- after any calls and any steps of the threads, from curl_global_cleanup to the end of the
  -- destructor: whatever the threads do, only tasks that they execute at the cleanup and a front
  -- of the queue end after it, each once, and the others stay in the queue; in the joins the
  -- threads have a next step that needs no wait to end without a notification, until all have
  -- returned, and return after finitely many of these steps, the end of a task being one; at the
  -- end no task is executing, so that all of the former have ended.
  pub clean_up-Late :
      (threadnum : ℕ) {c : Client}
      → ClientReach lib files (init_threadpool threadnum new) c
      → c.pool.running ≡ true
      → {d : Closing} → ClosingReach (clean_up (record { pool = c.pool; stage = opened })) d
      → Late c.pool d.pool
        × (d.stage ≡ joining → Ends Prompted AllReturned d.pool)
        × (d.stage ≡ gone → d.pool.executing ≡ [])
  unfolding clean_up
  clean_up-Late threadnum {c} reached up {d} r =
      let began : IsClosing c.pool (clean_up (record { pool = c.pool; stage = opened })) = record {
        safe = Reach-IsSafe threadnum 0 (client_pool lib files threadnum reached);
        late = none_yet c.pool;
        up = λ h. up;
        down = λ h. absurd cc;
        over = λ h. absurd cc;
        past = λ h. absurd cc;
      } in
      let k : IsClosing c.pool d = reach-IsClosing c.pool began r in
      (
        k.late,
        λ h. stopped-AllReturned d.pool (k.down h) k.safe,
        λ h. length_nil d.pool.executing (omega (arith, k.safe.counted, k.over h)),
      )

-- ===== src/HttpClient/Closing.antt =====
-- The destructor of the client of http_client/http_client.cpp, with that of its pool in
-- http_client/thread_pool.cpp, which comes after the body of the former.
pub mod Late
pub mod Joined
use cpp_done.HttpClient.{HttpRequest}
use cpp_done.NetThreadPool.Shutdown.{Own, AllReturned}
use cpp_done.NetThreadPool.{ThreadPool, stop}
use cpp_done.Prelude.{◌≡◌, if◌then◌else◌}

-- where the destructor stands: before `curl_global_cleanup`, before that of the pool, in the joins of
-- `stop`, and at its end
pub data Stage : Type 0 where
  opened : Stage
  cleaned : Stage
  joining : Stage
  gone : Stage

pub record Closing : Type 0 where
  pub pool : ThreadPool HttpRequest
  pub stage : Stage

-- the body of `~HttpClient`, which is `curl_global_cleanup`
unfoldable pub clean_up : Closing → Closing
clean_up c = record c { stage = cleaned }

-- `~ThreadPool` up to the joins
unfoldable pub destroy_pool : Closing → Closing
destroy_pool c =
    if c.pool.running
    then record c { pool = stop c.pool; stage = joining }
    else record c { stage = gone }

-- A step of the destructor, or of a thread of the pool.
pub data ClosingStep (c : Closing) : Closing → Type 0 where
  cleans : c.stage ≡ opened → ClosingStep c (clean_up c)
  destroys : c.stage ≡ cleaned → ClosingStep c (destroy_pool c)
  joins : c.stage ≡ joining → AllReturned c.pool → ClosingStep c (record c { stage = gone })
  goes_on : {p : ThreadPool HttpRequest} → Own c.pool p → ClosingStep c (record c { pool = p })

pub data ClosingReach (c : Closing) : Closing → Type 0 where
  at_start : ClosingReach c c
  further : {d e : Closing} → ClosingReach c d → ClosingStep d e → ClosingReach c e

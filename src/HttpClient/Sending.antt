-- ===== src/HttpClient/Sending.antt =====
-- `send`, `synSend` and `sendImmediate` of http_client/http_client.cpp, on the pool of
-- http_client/thread_pool.cpp. A task of the pool is the request whose `processResponse` it calls.
pub mod Answers
pub mod Pool
pub mod Right
pub mod Served
use cpp_done.HttpClient.Curl.{Libcurl}
use cpp_done.HttpClient.Methods.{process_response}
use cpp_done.HttpClient.{HttpClient, HttpRequest, HttpResponse}
use cpp_done.HttpClient
use cpp_done.NetThreadPool.Conserved.{given}
use cpp_done.NetThreadPool.{ThreadPool, Step}
use cpp_done.NetThreadPool
use cpp_done.Prelude.{ℕ, ◌≡◌, Option, List, [], ◌∷◌, ◌++◌, map}
use cpp_done.Std.Text.{Bytes}

pub record Client : Type 0 where
  pub settings : HttpClient
  pub pool : ThreadPool HttpRequest
  -- the requests of the detached threads of `sendImmediate`
  pub detached : List HttpRequest
  -- what was given to the callbacks by `synSend` and by the detached threads
  pub answered : List (Option HttpResponse)

unfoldable pub new : Client
new = record { settings = HttpClient.new; pool = NetThreadPool.new; detached = []; answered = [] }

unfoldable pub init_threadpool : ℕ → Client → Client
init_threadpool threadnum c = record c { pool = NetThreadPool.start threadnum c.pool }

unfoldable pub send : HttpRequest → Client → Client
send request c = record c { pool = NetThreadPool.run request c.pool }

module _ (lib : Libcurl) (files : Bytes → Option Bytes) where
  -- `none` ends the process, by undefined behaviour or by the exception of an empty callback, and is no
  -- answer
  abbrev pub answer : Client → HttpRequest → Option HttpResponse
  answer c request = process_response lib files c.settings request

  unfoldable pub syn_send : HttpRequest → Client → Client
  syn_send request c = record c { answered = c.answered ++ answer c request ∷ [] }

  unfoldable pub send_immediate : HttpRequest → Client → Client
  send_immediate request c = record c { detached = c.detached ++ request ∷ [] }

  -- a detached thread ends
  unfoldable pub finish_detached :
      List HttpRequest → HttpRequest → List HttpRequest → Client → Client
  finish_detached before request after c = record c {
    detached = before ++ after;
    answered = c.answered ++ answer c request ∷ [];
  }

  -- all that the callbacks were given
  abbrev pub callbacks : Client → List (Option HttpResponse)
  callbacks c = map (answer c) c.pool.done ++ c.answered

  -- A call of the client, or a step of its threads.
  pub data ClientStep (c : Client) : Client → Type 0 where
    sends : (request : HttpRequest) → ClientStep c (send request c)
    syn_sends : (request : HttpRequest) → ClientStep c (syn_send request c)
    sends_immediate : (request : HttpRequest) → ClientStep c (send_immediate request c)
    ends :
        (before after : List HttpRequest) (request : HttpRequest)
        → c.detached ≡ before ++ request ∷ after
        → ClientStep c (finish_detached before request after c)
    works :
        {p : ThreadPool HttpRequest} (s : Step c.pool p)
        → given s ≡ []
        → ClientStep c (record c { pool = p })

  pub data ClientReach (c : Client) : Client → Type 0 where
    begin : ClientReach c c
    then_step : {d e : Client} → ClientReach c d → ClientStep d e → ClientReach c e

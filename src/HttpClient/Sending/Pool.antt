-- ===== src/HttpClient/Sending/Pool.antt =====
-- What the calls of the client of http_client/http_client.cpp do to its pool.
use cpp_done.HttpClient.Curl.{Libcurl}
use cpp_done.HttpClient.Sending.{
  Client, new, init_threadpool, send, syn_send, send_immediate, finish_detached, sends, syn_sends,
  sends_immediate, ends, works, ClientReach, begin, then_step,
}
use cpp_done.NetThreadPool.{Reach, here, next, calls, start, set_max_queue_size}
use cpp_done.NetThreadPool
use cpp_done.Prelude.{ℕ, Option}
use cpp_done.Std.Text.{Bytes}

module _ (lib : Libcurl) (files : Bytes → Option Bytes) where
  -- the pool of the client is a pool without a limit
  pub client_pool :
      (threadnum : ℕ) {c : Client}
      → ClientReach lib files (init_threadpool threadnum new) c
      → Reach (start threadnum (set_max_queue_size 0 NetThreadPool.new)) c.pool
  unfolding new init_threadpool NetThreadPool.new start set_max_queue_size send syn_send
      send_immediate finish_detached
  client_pool threadnum begin = here
  client_pool threadnum (then_step r (sends request)) =
      next (client_pool threadnum r) (calls request)
  client_pool threadnum (then_step r (syn_sends request)) = client_pool threadnum r
  client_pool threadnum (then_step r (sends_immediate request)) = client_pool threadnum r
  client_pool threadnum (then_step r (ends before after request e)) = client_pool threadnum r
  client_pool threadnum (then_step r (works s e)) = next (client_pool threadnum r) s

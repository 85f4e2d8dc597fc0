-- ===== src/HttpClient/Tests.antt =====
-- Tests of http_client/http_client.cpp, and the theorem about it at a concrete input.
use cpp_done.HttpClient.Outcome.{IsOutcome, accepts_all, options_of, process_response-IsOutcome}
use cpp_done.HttpClient.Curl.{
  CurlOption, upload, readfunction, readdata, infilesize_large, Libcurl, write_callback, new_curl,
  set_option, set_options, try_options, init_options, init, perform,
}
use cpp_done.HttpClient.Closing.Joined.{clean_up-Late}
use cpp_done.HttpClient.Closing.Late.{Late}
use cpp_done.HttpClient.Closing.{
  Closing, opened, joining, gone, clean_up, destroy_pool, destroys, joins, goes_on, ClosingReach,
  at_start, further,
}
use cpp_done.NetThreadPool.{ThreadPool, pushes, enters, takes, finishes, exits}
use cpp_done.NetThreadPool.Shutdown.{Prompted, AllReturned}
use cpp_done.Std.Ends.{Ends}
use cpp_done.HttpClient.Sending
use cpp_done.HttpClient.Sending.{
  init_threadpool, send, send_immediate, callbacks, ClientReach, begin, then_step, sends,
  sends_immediate, works, Client,
}
use cpp_done.HttpClient.Stream.{Stream, fopen, read_callback, all_read}
use cpp_done.HttpClient.Upload.Kept.{Passes}
use cpp_done.HttpClient.Upload.Nothing.{gives_nothing}
use cpp_done.HttpClient.Upload.{
  file_options, put_options, IsPutOutcome, process_response-IsPutOutcome,
}
use cpp_done.NetThreadPool
use mathlib.Core.List.{Sublist}
use cpp_done.HttpClient.Methods.{finish, exchange, do_get, do_put, process_response}
use cpp_done.HttpClient.{
  RequestType, get, put, HttpRequest, HttpResponse, new_response, new, new_request,
  set_request_type, set_url, set_callback, response_data_as_string, unknown,
}
use mathlib.Core.Option
use cpp_done.Prelude.{
  inl, arith, ℕ, ◌<◌, List, ◌≡◌, refl, true, false, Option, none, some, [], ◌∷◌, ◌++◌,
}
use cpp_done.Std.Text.{Bytes, codes, c_str}

-- every option is accepted, and the server answers 200 in two pieces
abbrev answering : ℕ → Libcurl
answering code = record {
  easy_init = true;
  accepts = λ os o. true;
  performs = λ os. record {
    ok = true;
    info = some code;
    body = codes "he" ∷ codes "llo" ∷ [];
    header = [];
  };
  error = λ os. codes "error";
}

abbrev request_of : RequestType → HttpRequest
request_of t = record new_request { request_type = t; url = codes "http://a"; callback = true }

built_by_setters :
    set_callback true (set_url (codes "http://a") (set_request_type get new_request))
    ≡ request_of get
unfolding set_callback set_url set_request_type
built_by_setters = refl

abbrev no_file : Bytes → Option Bytes
no_file path = none

got_200 :
    process_response (answering 200) no_file new (request_of get)
    ≡ some (record {
      succeed = true;
      response_data = codes "hello";
      response_header = [];
      response_code = some 200;
      response_data_string = [];
      error_buffer = [];
    })
unfolding process_response do_get exchange init set_options set_option perform finish new_curl
    new_response new new_request write_callback
got_200 = refl

put_404 :
    process_response (answering 404) no_file new (request_of put)
    ≡ some (record {
      succeed = false;
      response_data = codes "hello";
      response_header = [];
      response_code = some 404;
      response_data_string = [];
      error_buffer = codes "error";
    })
unfolding process_response do_put init set_options set_option try_options perform finish new_curl
    new_response new new_request write_callback c_str
put_404 = refl

-- the file of an upload that cannot be opened is used all the same
put_no_file :
    process_response
      (answering 200)
      no_file
      new
      (record (request_of put) { upload_file_path = codes "gone" })
    ≡ none
unfolding process_response do_put new_request fopen c_str
put_no_file = refl

no_data :
    Option.map response_data_as_string
      (process_response (answering 200) no_file new (record (request_of unknown) { tag = [] }))
    ≡ some (codes "receive data is empty!")
unfolding process_response response_data_as_string new_response new_request
no_data = refl

process_response-IsOutcome_example :
    (r : HttpResponse) × (process_response (answering 200) no_file new (request_of get) ≡ some r)
    × IsOutcome
        (answering 200)
        (init_options (answering 200) new (request_of get) ++ options_of get (request_of get))
        r
unfolding new_request
process_response-IsOutcome_example =
    process_response-IsOutcome (answering 200) no_file new (request_of get) refl (λ e. absurd cc)
      (λ e. absurd cc)

-- refuses every option of an upload
abbrev refusing : Libcurl
refusing = record (answering 200) { accepts = λ os o. elim o [ upload ↦ false | _ ↦ true ] }

abbrev put_file : HttpRequest
put_file = record (request_of put) { upload_file_path = codes "up" }

abbrev two_bytes : Bytes → Option Bytes
two_bytes path = some (codes "ab")

-- the stream that `doPut` hands over
abbrev at_end : Stream
at_end = record { content = codes "ab"; position = 2 }

-- at the start of the file it would give the bytes
read_from_start :
    all_read ((1, 16384) ∷ []) (record { content = codes "ab"; position = 0 }) ≡ codes "ab"
unfolding all_read read_callback
read_from_start = refl

process_response-IsPutOutcome_example :
    let file = upload ∷ readfunction ∷ readdata at_end ∷ infilesize_large 2 ∷ [] in
    let whole = init_options refusing new put_file ++ put_options put_file file in
    (r : HttpResponse) × (os : List CurlOption) × (process_response refusing two_bytes new put_file
      ≡ some r)
    × Sublist os whole
    × (accepts_all refusing [] whole ≡ true → os ≡ whole)
    × IsPutOutcome refusing os r
    × Passes (gives_nothing ((1, 16384) ∷ [])) os
unfolding file_options new_request
process_response-IsPutOutcome_example =
    process_response-IsPutOutcome refusing two_bytes new put_file
      (upload ∷ readfunction ∷ readdata at_end ∷ infilesize_large 2 ∷ []) ((1, 16384) ∷ []) refl
      refl refl

-- a request before `initThreadpool` is answered by the caller
abbrev first_sent : Sending.Client
first_sent = Sending.send (request_of get) Sending.new

sent_at_once :
    Sending.callbacks (answering 200) no_file first_sent
    ≡ process_response (answering 200) no_file new (request_of get) ∷ []
unfolding Sending.send Sending.new NetThreadPool.run NetThreadPool.new new
sent_at_once = refl

abbrev lib : Libcurl
lib = answering 200

abbrev two_sent : ClientReach lib no_file (init_threadpool 1 Sending.new) (
    send_immediate lib no_file
      (request_of get)
      (send (request_of put) (init_threadpool 1 Sending.new)))
two_sent = then_step (then_step begin (sends (request_of put))) (sends_immediate (request_of get))

abbrev one_each : Option HttpResponse → ℕ
one_each r = 1

-- one thread, which is executing a request when the client is destroyed
abbrev busy_pool : ThreadPool HttpRequest
busy_pool = record {
  running = true;
  max_queue_size = 0;
  threads = 1;
  queue = [];
  at_test = 0;
  taking = 0;
  sleeping = 0;
  executing = request_of get ∷ [];
  exited = 0;
  calling = [];
  blocked = [];
  accepted = request_of get ∷ [];
  taken = request_of get ∷ [];
  done = [];
}

abbrev busy : Client
busy = record (init_threadpool 1 Sending.new) { pool = busy_pool }

one_left : 0 < 1
one_left = omega arith

gets_busy : ClientReach lib no_file (init_threadpool 1 Sending.new) busy
unfolding init_threadpool Sending.new NetThreadPool.new NetThreadPool.start send NetThreadPool.run
    NetThreadPool.is_full NetThreadPool.push NetThreadPool.notify_not_empty NetThreadPool.pop
gets_busy =
    let sent = then_step begin (sends (request_of get)) in
    let pushed = then_step sent (works (pushes [] [] (request_of get) refl refl) refl) in
    let entered = then_step pushed (works (enters one_left refl) refl) in
    then_step entered (works (takes (request_of get) [] one_left refl (inl refl)) refl)

abbrev closed : Closing
closed = record {
  pool = record busy_pool {
    running = false;
    executing = [];
    exited = 1;
    done = request_of get ∷ [];
  };
  stage = gone;
}

closes : ClosingReach (clean_up (record { pool = busy_pool; stage = opened })) closed
unfolding clean_up destroy_pool NetThreadPool.stop
closes =
    let stopped = further at_start (destroys refl) in
    let answered = further stopped (goes_on (finishes [] [] (request_of get) refl, refl)) in
    further (further answered (goes_on (exits one_left refl, refl))) (joins refl refl)

clean_up-Late_example :
    Late busy_pool closed.pool
    × (gone ≡ joining → Ends Prompted AllReturned closed.pool)
    × (gone ≡ gone → closed.pool.executing ≡ [])
clean_up-Late_example = clean_up-Late lib no_file 1 gets_busy refl closes

abbrev sent_both : Client
sent_both =
    send_immediate lib no_file (request_of get)
      (send (request_of put) (init_threadpool 1 Sending.new))

-- ===== src/HttpClient/Outcome.antt =====
-- What the callback of a request of http_client/http_client.cpp is told, for every answer of libcurl.
use cpp_done.HttpClient.Curl.{
  CurlOption, posting, postfields, postfieldsize, followlocation, custom_request, Performed,
  Libcurl, write_callback, new_curl, set_option, set_options, init_options, init, perform,
}
use cpp_done.HttpClient.Methods.{finish, exchange, do_get, do_post, do_delete, process_response}
use cpp_done.HttpClient.{
  RequestType, get, post, put, delete, unknown, HttpRequest, HttpResponse, new_response, HttpClient,
}
use cpp_done.Prelude.{
  ◌≡◌, ◌≢◌, refl, sym, ap, ◌∙◌, Bool, true, false, ◌&&◌, Option, none, some, List, [], ◌∷◌, ◌++◌,
  arith, ltb, leb, if◌then◌else◌, length, fold, concat, append_assoc, append-nil,
}
use cpp_done.Std.Text.{Bytes, codes, is_empty}

-- every option is accepted after those before it
unfoldable pub accepts_all : Libcurl → List CurlOption → List CurlOption → Bool
accepts_all lib done [] = true
accepts_all lib done (o ∷ os) = lib.accepts done o && accepts_all lib (done ++ o ∷ []) os

-- the transfer succeeds with a code from 200 to 299
unfoldable pub is_good : Performed → Bool
is_good p = p.ok && elim p.info [ none ↦ false | some code ↦ leb 200 code && ltb code 300 ]

unfoldable pub options_of : RequestType → HttpRequest → List CurlOption
options_of get request = followlocation ∷ []
options_of post request =
    posting
    ∷ postfields (if is_empty request.request_data then none else some request.request_data)
    ∷ postfieldsize (length request.request_data)
    ∷ []
options_of put request = []
options_of delete request = custom_request (codes "DELETE") ∷ followlocation ∷ []
options_of unknown request = []

-- The response after an exchange with the options `os`.
pub record IsOutcome (lib : Libcurl) (os : List CurlOption) (r : HttpResponse) : Type 0 where
  pub success : r.succeed ≡ (lib.easy_init && (accepts_all lib [] os && is_good (lib.performs os)))
  pub code : r.response_code ≡ (
      if lib.easy_init && (accepts_all lib [] os && (lib.performs os).ok)
      then (lib.performs os).info
      else none)
  pub received :
      r.succeed ≡ true
      → (r.response_data ≡ concat (lib.performs os).body)
        × (r.response_header ≡ concat (lib.performs os).header)

pub set_options_lem :
    (lib : Libcurl) (done os : List CurlOption)
    → let r = set_options lib os (some done) in
      (r.1 ≡ accepts_all lib done os) × (r.1 ≡ true → r.0 ≡ some (done ++ os))
unfolding set_options set_option accepts_all
set_options_lem lib done [] = (refl, λ e. ap some (sym (append-nil done)))
set_options_lem lib done (o ∷ os) =
    ground (arith, set_options_lem lib (done ++ o ∷ []) os, append_assoc done (o ∷ []) os)

pub accepts_all-append :
    (lib : Libcurl) (done os more : List CurlOption)
    → accepts_all lib done (os ++ more)
      ≡ (accepts_all lib done os && accepts_all lib (done ++ os) more)
unfolding accepts_all
accepts_all-append lib done [] more = ground (arith, append-nil done)
accepts_all-append lib done (o ∷ os) more =
    ground (arith, accepts_all-append lib (done ++ o ∷ []) os more, append_assoc done (o ∷ []) os)

fold-write_callback :
    (recv : Bytes) (chunks : List Bytes) → fold write_callback recv chunks ≡ recv ++ concat chunks
unfolding write_callback
fold-write_callback recv [] = sym (append-nil recv)
fold-write_callback recv (c ∷ cs) =
    fold-write_callback (recv ++ c) cs ∙ append_assoc recv c (concat cs)

exchange-IsOutcome :
    (lib : Libcurl) (options : List CurlOption) (client : HttpClient) (request : HttpRequest)
    → IsOutcome lib
        (init_options lib client request ++ options)
        (exchange lib options client request new_response)
unfolding exchange init new_curl perform finish new_response is_good set_options
exchange-IsOutcome lib options client request =
    let first = init_options lib client request in
    ground (
      arith,
      set_options_lem lib [] first,
      set_options_lem lib first options,
      accepts_all-append lib [] first options,
      fold-write_callback [] (lib.performs (first ++ options)).body,
      fold-write_callback [] (lib.performs (first ++ options)).header,
    )

-- For a GET, POST or DELETE request with a callback, and any answers of libcurl, the callback gets
-- a response that succeeded exactly when the handle was made, every option of init and of the
-- method was accepted in its turn, and the transfer ended well with a code from 200 to 299; its
-- code is the reported one if the transfer was made and ended well and -1 if not; and on success
-- its data and header are the pieces received, in order. The options of a DELETE request hold none
-- of its data.
pub process_response-IsOutcome :
    (lib : Libcurl) (files : Bytes → Option Bytes) (client : HttpClient) (request : HttpRequest)
    → request.callback ≡ true
    → request.request_type ≢ put
    → request.request_type ≢ unknown
    → (r : HttpResponse) × (process_response lib files client request ≡ some r)
      × IsOutcome lib (init_options lib client request ++ options_of request.request_type request) r
unfolding process_response do_get do_post do_delete options_of
process_response-IsOutcome lib files client request called not_put known =
    let options = options_of request.request_type request in
    (
      exchange lib options client request new_response,
      by_type request.request_type refl,
      exchange-IsOutcome lib options client request,
    )
  where
    by_type :
        (t : RequestType)
        → request.request_type ≡ t
        → process_response lib files client request
          ≡ some
              (exchange lib (options_of request.request_type request) client request new_response)
    by_type get e = ground arith
    by_type post e = ground arith
    by_type put e = absurd (not_put e)
    by_type delete e = ground arith
    by_type unknown e = absurd (known e)

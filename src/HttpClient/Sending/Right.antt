-- ===== src/HttpClient/Sending/Right.antt =====
-- What the callbacks of the requests sent with http_client/http_client.cpp are given, where each request
-- has a callback and the upload file of each PUT request opens.
use cpp_done.HttpClient.Curl.{CurlOption, Libcurl, init_options}
use cpp_done.HttpClient.Methods.{process_response}
use cpp_done.HttpClient.Outcome.{options_of, IsOutcome}
use cpp_done.HttpClient.Upload.{file_options, IsPutOutcome}
use cpp_done.HttpClient.{
  RequestType, get, post, put, delete, unknown, HttpClient, HttpRequest, HttpResponse, new_response,
}
use cpp_done.Prelude.{◌≡◌, true, Option, some, List, ◌++◌}
use cpp_done.Std.Ends.{Ends}
use cpp_done.Std.Text.{Bytes}

-- the request has a callback, and its upload file opens
pub record IsAnswerable (files : Bytes → Option Bytes) (request : HttpRequest) : Type 0 where
  pub called : request.callback ≡ true
  pub opens :
      request.request_type ≡ put
      → (file : List CurlOption) × (file_options files request.upload_file_path ≡ some file)

-- The response to a request of a type, by what libcurl does with the options.
abbrev pub IsRight : Libcurl → HttpClient → HttpRequest → RequestType → HttpResponse → Type 0
IsRight lib settings request get r =
    IsOutcome lib (init_options lib settings request ++ options_of get request) r
IsRight lib settings request post r =
    IsOutcome lib (init_options lib settings request ++ options_of post request) r
IsRight lib settings request delete r =
    IsOutcome lib (init_options lib settings request ++ options_of delete request) r
IsRight lib settings request put r = (os : List CurlOption) × IsPutOutcome lib os r
IsRight lib settings request unknown r = r ≡ new_response

-- the callback of the request is given such a response
abbrev pub Answered : Libcurl → (Bytes → Option Bytes) → HttpClient → HttpRequest → Type 0
Answered lib files settings request =
    (r : HttpResponse) × (process_response lib files settings request ≡ some r)
    × IsRight lib settings request request.request_type r

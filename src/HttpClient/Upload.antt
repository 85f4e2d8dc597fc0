-- ===== src/HttpClient/Upload.antt =====
-- PUT requests of http_client/http_client.cpp, which go on when an option is refused.
pub mod Kept
pub mod Nothing
use mathlib.Core.List.Sublist
use mathlib.Core.List.{Sublist, nil-sublist}
use cpp_done.HttpClient.Curl.{
  CurlOption, custom_request, verbose, postfields, postfieldsize, upload, readfunction, readdata,
  infilesize_large, Libcurl, Handle, new_curl, set_option, set_options, try_options, init_options,
  init, perform,
}
use cpp_done.HttpClient.Stream.{Stream, fopen, seek_end, ftell, read_callback, all_read}
use cpp_done.HttpClient.Upload.Kept.{Passes, Passes-split, Sets, set_options-Sets, try_options-Sets}
use cpp_done.HttpClient.Upload.Nothing.{gives_nothing, gives_nothing-end, init_options-Passes}
use cpp_done.HttpClient.Methods.{finish, do_put, process_response}
use cpp_done.HttpClient.Outcome.{accepts_all, is_good, accepts_all-append}
use cpp_done.HttpClient.{put, HttpRequest, HttpResponse, new_response, HttpClient}
use mathlib.Core.Path.{subst}
use cpp_done.Prelude.{
  ℕ, ◌≡◌, refl, sym, ap, ◌∙◌, Bool, true, false, ◌&&◌, Option, none, some, List, [], ◌∷◌, ◌++◌,
  arith, if◌then◌else◌, length, drop, take, All, All-append, append_assoc, append-nil, Bool-cases,
  Option-cases, inl, inr,
}
use cpp_done.Std.Text.{Bytes, codes, is_empty, c_str}

-- the options of the method itself
unfoldable pub put_options : HttpRequest → List CurlOption → List CurlOption
put_options request file =
    custom_request (codes "PUT")
    ∷ verbose
    ∷ postfields (if is_empty request.request_data then none else some request.request_data)
    ∷ postfieldsize (length request.request_data)
    ∷ file

-- those of the file, of a path that is empty or a file that `fopen` opens
unfoldable pub file_options : (Bytes → Option Bytes) → Bytes → Option (List CurlOption)
file_options files path = if is_empty path then some [] else elim (files (c_str path)) [
  | none ↦ none
  | some content ↦
      let size = length content in
      let fp : Stream = record { content = content; position = size } in
      some (upload ∷ readfunction ∷ readdata fp ∷ infilesize_large size ∷ [])
]

-- The response after a transfer with the options `os`, whatever was refused.
pub record IsPutOutcome (lib : Libcurl) (os : List CurlOption) (r : HttpResponse) : Type 0 where
  pub success : r.succeed ≡ (lib.easy_init && is_good (lib.performs os))
  pub code :
      r.response_code
      ≡ (if lib.easy_init && (lib.performs os).ok then (lib.performs os).info else none)

put_handle-Sets :
    (lib : Libcurl) (first more : List CurlOption)
    → Sets lib [] (first ++ more) (try_options lib more (set_options lib first (some [])).0)
put_handle-Sets lib first more =
    let one = set_options-Sets lib [] first in
    let two = try_options-Sets lib one.kept more in
    record {
      kept = one.kept ++ two.kept;
      result = ap (try_options lib more) one.result ∙ two.result;
      among = Sublist.append one.among two.among;
      all = λ a. ground (arith, accepts_all-append lib [] first more, one.all, two.all);
      each = λ p a.
          let (of_first, of_more) = Passes-split p first more a in
          All-append (λ o. p o ≡ true) one.kept two.kept (one.each p of_first) (two.each p of_more);
    }

-- the end of `doPut`
abbrev answer_of : Libcurl → Handle → HttpResponse
answer_of lib h =
    let (ok, code, received) = perform lib h new_response in finish lib h ok code received

answer_of-IsPutOutcome :
    (lib : Libcurl) (os : List CurlOption) (h : Handle)
    → h ≡ (if lib.easy_init then some os else none)
    → IsPutOutcome lib os (answer_of lib h)
unfolding perform finish is_good
answer_of-IsPutOutcome lib os h e = ground arith

try_options-null : (lib : Libcurl) (os : List CurlOption) → try_options lib os none ≡ none
unfolding try_options set_option
try_options-null lib [] = refl
try_options-null lib (o ∷ os) = try_options-null lib os

abbrev put_handle : Libcurl → HttpClient → HttpRequest → List CurlOption → Handle
put_handle lib client request file =
    try_options lib (put_options request file) (init lib client request (new_curl lib)).0

put_handle_from :
    (lib : Libcurl) (client : HttpClient) (request : HttpRequest) (more kept : List CurlOption)
    (made : Bool)
    → try_options lib more (set_options lib (init_options lib client request) (some [])).0
      ≡ some kept
    → try_options lib more (init lib client request (if made then some [] else none)).0
      ≡ (if made then some kept else none)
unfolding init
put_handle_from lib client request more kept true e = e
put_handle_from lib client request more kept false e = try_options-null lib more

put_handle_lem :
    (lib : Libcurl) (client : HttpClient) (request : HttpRequest) (file : List CurlOption)
    → (os : List CurlOption) × (put_handle lib client request file
        ≡ (if lib.easy_init then some os else none))
      × Sublist os (init_options lib client request ++ put_options request file)
      × (accepts_all lib [] (init_options lib client request ++ put_options request file) ≡ true
          → os ≡ init_options lib client request ++ put_options request file)
      × ((p : CurlOption → Bool)
          → Passes p (init_options lib client request ++ put_options request file)
          → Passes p os)
unfolding new_curl
put_handle_lem lib client request file =
    let s = put_handle-Sets lib (init_options lib client request) (put_options request file) in
    (
      s.kept,
      put_handle_from lib client request (put_options request file) s.kept lib.easy_init s.result,
      s.among,
      s.all,
      s.each,
    )

process_response_put :
    (lib : Libcurl) (files : Bytes → Option Bytes) (client : HttpClient) (request : HttpRequest)
    (file : List CurlOption)
    → request.callback ≡ true
    → request.request_type ≡ put
    → file_options files request.upload_file_path ≡ some file
    → process_response lib files client request
      ≡ some (answer_of lib (put_handle lib client request file))
unfolding process_response do_put file_options put_options fopen seek_end ftell
process_response_put lib files client request file called typed opened = ground arith

-- the options of a file, if it opens, give no byte of it
abbrev IfAny : (CurlOption → Bool) → Option (List CurlOption) → Type 0
IfAny p none = Unit
IfAny p (some os) = Passes p os

file_options-IfAny :
    (calls : List (ℕ × ℕ)) (files : Bytes → Option Bytes) (path : Bytes)
    → IfAny (gives_nothing calls) (file_options files path)
unfolding file_options gives_nothing
file_options-IfAny calls files path = elim (Bool-cases (is_empty path)) [
  | inl e ↦ rw e tt
  | inr e ↦ elim (Option-cases (files (c_str path))) [
    | inl e' ↦ rw (e, e') tt
    | inr (content, e') ↦ rw (e, e') (refl, (refl, (gives_nothing-end calls content, (refl, tt))))
  ]
]

put_options-Passes :
    (calls : List (ℕ × ℕ)) (request : HttpRequest) (file : List CurlOption)
    → Passes (gives_nothing calls) file
    → Passes (gives_nothing calls) (put_options request file)
unfolding put_options gives_nothing
put_options-Passes calls request file a = (refl, (refl, (refl, (refl, a))))

-- For a PUT request with a callback whose upload path is empty or opens, and any answers of
-- libcurl, the transfer is made with some of the options of init, of the method and of the file,
-- in their order, and with all of them if libcurl accepts each; the callback gets a response that
-- succeeded exactly when the handle was made and the transfer ended well with a code from 200 to
-- 299, even where an option was refused. Whatever calls libcurl makes of the read callback in the
-- transfer, the stream of an option among them gives no byte.
pub process_response-IsPutOutcome :
    (lib : Libcurl) (files : Bytes → Option Bytes) (client : HttpClient) (request : HttpRequest)
    (file : List CurlOption) (calls : List (ℕ × ℕ))
    → request.callback ≡ true
    → request.request_type ≡ put
    → file_options files request.upload_file_path ≡ some file
    → let whole = init_options lib client request ++ put_options request file in
      (r : HttpResponse) × (os : List CurlOption) × (process_response lib files client request
        ≡ some r)
      × Sublist os whole
      × (accepts_all lib [] whole ≡ true → os ≡ whole)
      × IsPutOutcome lib os r
      × Passes (gives_nothing calls) os
process_response-IsPutOutcome lib files client request file calls called typed opened =
    let (os, whole, among, all, each) = put_handle_lem lib client request file in
    let h = put_handle lib client request file in
    (
      answer_of lib h,
      os,
      process_response_put lib files client request file called typed opened,
      among,
      all,
      answer_of-IsPutOutcome lib os h whole,
      each (gives_nothing calls) (
          All-append (λ o. gives_nothing calls o ≡ true) (init_options lib client request)
            (put_options request file) (init_options-Passes calls lib client request)
            (put_options-Passes calls request file (
              subst (IfAny (gives_nothing calls)) opened
                (file_options-IfAny calls files request.upload_file_path)))),
    )

-- ===== src/HttpClient/Methods.antt =====
-- The methods of http_client/http_client.cpp, from the request to the response that the callback gets.
use cpp_done.HttpClient.Curl.{
  CurlOption, custom_request, followlocation, verbose, posting, postfields, postfieldsize, upload,
  readfunction, readdata, infilesize_large, Libcurl, Handle, new_curl, set_options, try_options,
  init, perform, error_of,
}
use cpp_done.HttpClient.Stream.{fopen, seek_end, ftell}
use cpp_done.HttpClient.{
  get, post, put, delete, unknown, HttpRequest, HttpResponse, new_response, HttpClient,
  set_response_code, set_succeed, set_error_buffer,
}
use cpp_done.Prelude.{
  ℕ, Bool, true, false, not, Option, none, some, List, [], ◌∷◌, if◌then◌else◌, length,
}
use cpp_done.Std.Text.{Bytes, codes, is_empty, c_str}

module _ (lib : Libcurl) where
  -- the end of `doGet` and its likes
  unfoldable pub finish : Handle → Bool → Option ℕ → HttpResponse → HttpResponse
  unfolding set_response_code set_succeed set_error_buffer
  finish h ok code response =
      let coded = set_response_code code response in
      if ok
      then set_succeed true coded
      else set_error_buffer (error_of lib h) (set_succeed false coded)

  -- `init` and the other options, `perform`, and the end
  unfoldable pub exchange : List CurlOption → HttpClient → HttpRequest → HttpResponse → HttpResponse
  exchange options client request response =
      let (h, ready) = init lib client request (new_curl lib) in
      let (full, accepted) = set_options lib options h in
      let (ok, code, received) = perform lib full response in
      if not ready
      then finish h false none response
      else if not accepted
      then finish full false none response
      else finish full ok code received

  unfoldable pub do_get : HttpClient → HttpRequest → HttpResponse → HttpResponse
  do_get client request response = exchange (followlocation ∷ []) client request response

  -- `getRequestData`, which is null for no data
  abbrev pub data_of : HttpRequest → Option Bytes
  data_of request = if is_empty request.request_data then none else some request.request_data

  unfoldable pub do_post : HttpClient → HttpRequest → HttpResponse → HttpResponse
  do_post client request response =
      exchange
        (posting ∷ postfields (data_of request) ∷ postfieldsize (length request.request_data) ∷ [])
        client request response

  unfoldable pub do_delete : HttpClient → HttpRequest → HttpResponse → HttpResponse
  do_delete client request response =
      exchange (custom_request (codes "DELETE") ∷ followlocation ∷ []) client request response

  -- `files` are those that `fopen` opens; a null pointer is given to `fseek` otherwise
  unfoldable pub do_put :
      (Bytes → Option Bytes) → HttpClient → HttpRequest → HttpResponse → Option HttpResponse
  do_put files client request response =
      let path = request.upload_file_path in
      let put_with = λ (file : List CurlOption).
        let h = (init lib client request (new_curl lib)).0 in
        let options =
          custom_request (codes "PUT")
          ∷ verbose
          ∷ postfields (data_of request)
          ∷ postfieldsize (length request.request_data)
          ∷ file in
        let full = try_options lib options h in
        let (ok, code, received) = perform lib full response in finish full ok code received in
      if is_empty path then some (put_with []) else elim (fopen files (c_str path)) [
        | none ↦ none
        | some fp ↦
            let at_end = seek_end fp in
            let size = ftell at_end in
            some (put_with (upload ∷ readfunction ∷ readdata at_end ∷ infilesize_large size ∷ []))
      ]

  -- the response that the callback gets; `none` is undefined behaviour, or the exception of an
  -- empty callback
  unfoldable pub process_response :
      (Bytes → Option Bytes) → HttpClient → HttpRequest → Option HttpResponse
  process_response files client request =
      let response : Option HttpResponse = elim request.request_type [
        | get ↦ some (do_get client request new_response)
        | post ↦ some (do_post client request new_response)
        | put ↦ do_put files client request new_response
        | delete ↦ some (do_delete client request new_response)
        | unknown ↦ some new_response
      ] in
      if request.callback then response else none

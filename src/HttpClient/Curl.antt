-- ===== src/HttpClient/Curl.antt =====
-- The class `Curl` of http_client/http_client.cpp. libcurl is a parameter: whether `curl_easy_setopt`
-- accepts an option after those that were set, and what `curl_easy_perform` then does. A handle is the
-- list of the options set, or `none` for null.
use cpp_done.HttpClient.{HttpRequest, HttpResponse, HttpClient}
use cpp_done.HttpClient.Stream.{Stream}
use cpp_done.Prelude.{
  ℕ, Bool, true, false, not, ◌&&◌, Option, none, some, List, [], ◌∷◌, ◌++◌, ltb, leb, if◌then◌else◌,
  fold, map,
}
use cpp_done.Std.Text.{Bytes, is_empty, c_str}

-- An option with its argument; those with a pointer to the model's own buffers have none.
pub data CurlOption : Type 0 where
  nosignal accept_encoding : CurlOption
  cookiefile cookiejar : Bytes → CurlOption
  timeout connecttimeout ssl_verifypeer ssl_verifyhost : ℕ → CurlOption
  cainfo : Bytes → CurlOption
  httpheader : List Bytes → CurlOption
  url : Bytes → CurlOption
  writefunction writedata headerfunction headerdata errorbuffer : CurlOption
  followlocation verbose : CurlOption
  custom_request : Bytes → CurlOption
  posting : CurlOption
  postfields : Option Bytes → CurlOption
  postfieldsize : ℕ → CurlOption
  upload readfunction : CurlOption
  -- the stream as it stands when the transfer begins
  readdata : Stream → CurlOption
  infilesize_large : ℕ → CurlOption

-- What `curl_easy_perform` returned, `curl_easy_getinfo` after it, and the data of the callbacks.
pub record Performed : Type 0 where
  pub ok : Bool
  pub info : Option ℕ
  pub body : List Bytes
  pub header : List Bytes

pub record Libcurl : Type 0 where
  pub easy_init : Bool
  pub accepts : List CurlOption → CurlOption → Bool
  pub performs : List CurlOption → Performed
  -- the text in the error buffer at the end
  pub error : List CurlOption → Bytes

abbrev pub Handle : Type 0
Handle = Option (List CurlOption)

unfoldable pub write_callback : Bytes → Bytes → Bytes
write_callback recv_buf chunk = recv_buf ++ chunk

module _ (lib : Libcurl) where
  -- the constructor of `Curl`
  unfoldable pub new_curl : Handle
  new_curl = if lib.easy_init then some [] else none

  -- libcurl refuses a null handle
  unfoldable pub set_option : CurlOption → Handle → Handle × Bool
  set_option o none = (none, false)
  set_option o (some os) =
      if lib.accepts os o then (some (os ++ o ∷ []), true) else (some os, false)

  -- options up to the first that is refused
  unfoldable pub set_options : List CurlOption → Handle → Handle × Bool
  set_options [] h = (h, true)
  set_options (o ∷ os) h =
      let (next, ok) = set_option o h in
      let rest = set_options os next in if ok then rest else (next, false)

  -- options whose results are dropped
  unfoldable pub try_options : List CurlOption → Handle → Handle
  try_options [] h = h
  try_options (o ∷ os) h = try_options os (set_option o h).0

  abbrev pub init_options : HttpClient → HttpRequest → List CurlOption
  init_options client request =
      let cookie = c_str client.cookie_filename in
      let ca = c_str client.ssl_ca_filename in
      nosignal
      ∷ accept_encoding
      ∷ ((if is_empty client.cookie_filename then [] else cookiefile cookie ∷ cookiejar cookie ∷ [])
          ++ (timeout client.timeout_for_read
              ∷ connecttimeout client.timeout_for_connect
              ∷ ((if is_empty client.ssl_ca_filename
                    then ssl_verifypeer 0 ∷ ssl_verifyhost 0 ∷ []
                    else ssl_verifypeer 1 ∷ ssl_verifyhost 2 ∷ cainfo ca ∷ [])
                  ++ ((if is_empty request.headers
                        then []
                        else httpheader (map c_str request.headers) ∷ [])
                      ++ url (c_str request.url)
                        ∷ writefunction
                        ∷ writedata
                        ∷ headerfunction
                        ∷ headerdata
                        ∷ errorbuffer
                        ∷ []))))

  unfoldable pub init : HttpClient → HttpRequest → Handle → Handle × Bool
  init client request h = elim h [
    | none ↦ (none, false)
    | some os ↦ set_options (init_options client request) (some os)
  ]

  -- the result, the response code, and the response with the data received
  unfoldable pub perform : Handle → HttpResponse → Bool × Option ℕ × HttpResponse
  perform none response = (false, none, response)
  perform (some os) response =
      let p = lib.performs os in
      let received = record response {
        response_data = fold write_callback response.response_data p.body;
        response_header = fold write_callback response.response_header p.header;
      } in
      if not p.ok then (false, none, received) else elim p.info [
        | none ↦ (false, none, received)
        | some code ↦ (leb 200 code && ltb code 300, some code, received)
      ]

  abbrev pub error_of : Handle → Bytes
  error_of none = []
  error_of (some os) = c_str (lib.error os)

-- ===== src/HttpClient/Upload/Nothing.antt =====
-- The read callback of an upload in http_client/http_client.cpp: `doPut` leaves the stream at its end.
use cpp_done.HttpClient.Curl.{CurlOption, readdata, Libcurl, init_options}
use cpp_done.HttpClient.Stream.{read_callback, all_read}
use cpp_done.HttpClient.Upload.Kept.{Passes}
use cpp_done.HttpClient.{HttpRequest, HttpClient}
use cpp_done.Prelude.{
  ℕ, zero, suc, ◌*◌, ◌+◌, ◌≡◌, refl, ap, Bool, true, List, [], ◌∷◌, arith, length, take, drop,
}
use cpp_done.Std.Text.{Bytes, is_empty}

drop-length {ℓ} : {A : Type ℓ} (xs : List A) → drop (length xs) xs ≡ []
drop-length [] = refl
drop-length (x ∷ xs) = drop-length xs

take_nil {ℓ} : {A : Type ℓ} (n : ℕ) → take {A = A} n [] ≡ []
take_nil zero = refl
take_nil (suc n) = refl

-- a stream at its end gives no byte, and stays there
all_read-end :
    (calls : List (ℕ × ℕ)) (content : Bytes) (position : ℕ)
    → position ≡ length content
    → all_read calls (record { content = content; position = position }) ≡ []
unfolding all_read read_callback
all_read-end [] content position e = refl
all_read-end ((size, n_member) ∷ calls) content position e =
    rw (e, drop-length content, take_nil (size * n_member))
      (all_read-end calls content (length content + 0) (omega arith))

-- a stream that an option hands over gives no byte for these calls
unfoldable pub gives_nothing : List (ℕ × ℕ) → CurlOption → Bool
gives_nothing calls (readdata fp) = is_empty (all_read calls fp)
gives_nothing calls other = true

pub gives_nothing-end :
    (calls : List (ℕ × ℕ)) (content : Bytes)
    → gives_nothing calls (readdata (record { content = content; position = length content }))
      ≡ true
unfolding gives_nothing
gives_nothing-end calls content = ap is_empty (all_read-end calls content (length content) refl)

pub init_options-Passes :
    (calls : List (ℕ × ℕ)) (lib : Libcurl) (client : HttpClient) (request : HttpRequest)
    → Passes (gives_nothing calls) (init_options lib client request)
unfolding gives_nothing
init_options-Passes calls lib client request = ground arith

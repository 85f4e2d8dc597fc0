-- ===== src/HttpClient/Stream.antt =====
-- The file of a PUT request in http_client/http_client.cpp, as a stream of stdio: what is in the file,
-- and where the stream stands. `fopen` finds a file by its path.
use cpp_done.Prelude.{
  ℕ, ◌*◌, ◌/◌, ◌+◌, Option, none, some, List, [], ◌∷◌, ◌++◌, ◌==◌, if◌then◌else◌, length, take,
  drop,
}
use cpp_done.Std.Text.{Bytes}

pub record Stream : Type 0 where
  pub content : Bytes
  pub position : ℕ

-- `fopen(path, "rb")`
unfoldable pub fopen : (Bytes → Option Bytes) → Bytes → Option Stream
fopen files path = elim (files path) [
  | none ↦ none
  | some content ↦ some (record { content = content; position = 0 })
]

-- `fseek(fp, 0, SEEK_END)`
unfoldable pub seek_end : Stream → Stream
seek_end fp = record fp { position = length fp.content }

unfoldable pub ftell : Stream → ℕ
ftell fp = fp.position

-- `readCallback`, which is `fread`: the number of whole members, and the bytes
unfoldable pub read_callback : ℕ → ℕ → Stream → ℕ × Bytes × Stream
read_callback size n_member fp =
    let bytes = take (size * n_member) (drop fp.position fp.content) in
    let n_read : ℕ = if size == 0 then 0 else length bytes / size in
    (n_read, bytes, record fp { position = fp.position + length bytes })

-- the bytes that the callback gives for some calls, each with its size and number of members
unfoldable pub all_read : List (ℕ × ℕ) → Stream → Bytes
all_read [] fp = []
all_read ((size, n_member) ∷ calls) fp =
    let (n_read, bytes, next) = read_callback size n_member fp in bytes ++ all_read calls next

-- ===== src/HttpCookie.antt =====
-- http_client/http_cookie.cpp and http_client/http_cookie.h. Bytes of a file are a list of numbers.
-- `none` is undefined behaviour or an exception that no caller catches: an element past the end of
-- the vector, or a stdio call on the null pointer of a failed `fopen`.
pub mod Format
pub mod Reread
pub mod Store
mod Tests
use cpp_done.Prelude.{
  ℕ, Bool, true, false, Option, none, some, List, [], ◌∷◌, ◌++◌, ◌==◌, if◌then◌else◌, ◌>>=◌,
  get_elem?, drop,
}
use cpp_done.Std.Text.{
  Bytes, codes, is_empty, front, bytes_eq, c_str, contains, substr, getline_all,
}

pub record CookieInfo : Type 0 where
  pub domain : Bytes
  pub tail_match : Bool
  pub path : Bytes
  pub secure : Bool
  pub expires : Bytes
  pub name : Bytes
  pub value : Bytes

pub record HttpCookie : Type 0 where
  pub cookie_filename : Bytes
  pub cookies : List CookieInfo

-- the fields of a line, out of its elements
unfoldable pub cookie_of : List Bytes → Option CookieInfo
cookie_of elems = do
  domain ← get_elem? elems 0
  tail_match ← get_elem? elems 1
  path ← get_elem? elems 2
  secure ← get_elem? elems 3
  expires ← get_elem? elems 4
  name ← get_elem? elems 5
  value ← get_elem? elems 6
  some (record {
    domain = if front domain == b'.' then drop 1 domain else domain;
    tail_match = bytes_eq (codes "TRUE") (c_str tail_match);
    path = path;
    secure = bytes_eq (codes "TRUE") (c_str secure);
    expires = expires;
    name = name;
    value = value;
  })

-- the string that `substr` returns is dropped
unfoldable pub drop_http_only : Bytes → Option (Unit {0})
drop_http_only cookie =
    if contains (codes "#HttpOnly_") cookie then substr 10 cookie >>= (λ _. some tt) else some tt

-- one round of the loop over the lines; `some none` is `continue`
unfoldable pub read_line : Bytes → Option (Option CookieInfo)
unfolding cookie_of drop_http_only
read_line cookie =
    if is_empty cookie
    then some none
    else drop_http_only cookie >>= λ _.
        if front cookie == b'#'
        then some none
        else cookie_of (getline_all 9 cookie) >>= λ co. some (some co)

unfoldable pub read_lines : List Bytes → List CookieInfo → Option (List CookieInfo)
read_lines [] cookies = some cookies
read_lines (line ∷ lines) cookies = do
  co ← read_line line
  read_lines lines (elim co [ none ↦ cookies | some c ↦ cookies ++ c ∷ [] ])

-- the loop of `fread` calls, by what each returned
unfoldable pub read_chunks : List Bytes → Bytes
read_chunks [] = []
read_chunks (chunk ∷ chunks) = if is_empty chunk then [] else chunk ++ read_chunks chunks

-- `opened` is the file as `fread` hands it out, or `none` where `fopen` fails; `fclose(nullptr)`
-- is undefined
unfoldable pub get_string_from_file : Bytes → Option (List Bytes) → Option Bytes
unfolding read_chunks
get_string_from_file full_path_filename opened =
    if is_empty full_path_filename then some [] else opened >>= λ chunks. some (read_chunks chunks)

unfoldable pub read_file : HttpCookie → Option (List Bytes) → Option HttpCookie
unfolding get_string_from_file read_lines
read_file h opened = do
  str_file ← get_string_from_file h.cookie_filename opened
  let cookie_vec = getline_all 10 str_file
  if is_empty str_file
      then some h
      else if is_empty cookie_vec
      then some h
      else read_lines cookie_vec [] >>= λ cookies. some (record h { cookies = cookies })

abbrev pub flag : Bool → Bytes
flag true = codes "TRUE"
flag false = codes "FALSE"

-- the line of one cookie, with no end of line
unfoldable pub cookie_line : CookieInfo → Bytes
cookie_line c =
    c.domain
    ++ (9
        ∷ (flag c.tail_match
            ++ (9
                ∷ (c.path
                    ++ (9
                        ∷ (flag c.secure
                            ++ (9 ∷ (c.expires ++ (9 ∷ (c.name ++ (9 ∷ c.value)))))))))))

abbrev pub file_header : Bytes
file_header =
    codes "# Netscape HTTP Cookie File"
    ++ (10
        ∷ (codes "# http://curl.haxx.se/docs/http-cookies.html"
            ++ (10
                ∷ (codes "# This file was generated by HttpClient! Edit at your own risk."
                    ++ (10 ∷ codes "# Test HttpClient cookie write")))))

-- the loop of `fputs` calls, each of which stops at a NUL
unfoldable pub put_cookies : List CookieInfo → Bytes
unfolding cookie_line
put_cookies [] = []
put_cookies (c ∷ cs) = c_str (cookie_line c) ++ put_cookies cs

-- the contents of the file; `fputs` on the null pointer of a failed `fopen` is undefined
unfoldable pub write_file : HttpCookie → Bool → Option Bytes
unfolding put_cookies
write_file h opened = if opened then some (file_header ++ put_cookies h.cookies) else none

unfoldable pub get_match_cookie : Bytes → List CookieInfo → Option CookieInfo
get_match_cookie url [] = none
get_match_cookie url (c ∷ cs) = if contains c.domain url then some c else get_match_cookie url cs

unfoldable pub update_or_add : CookieInfo → List CookieInfo → List CookieInfo
update_or_add cookie [] = cookie ∷ []
update_or_add cookie (c ∷ cs) =
    if bytes_eq cookie.domain c.domain then cookie ∷ cs else c ∷ update_or_add cookie cs

unfoldable pub update_or_add_cookie : HttpCookie → CookieInfo → HttpCookie
unfolding update_or_add
update_or_add_cookie h cookie = record h { cookies = update_or_add cookie h.cookies }

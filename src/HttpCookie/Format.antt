-- ===== src/HttpCookie/Format.antt =====
-- The text of a cookie file of http_client/http_cookie.cpp: what `readFile` makes of the lines that
-- `writeFile` builds.
use cpp_done.HttpCookie.{
  CookieInfo, HttpCookie, read_line, read_lines, read_chunks, read_file, cookie_of, drop_http_only,
  flag, cookie_line, file_header,
}
use cpp_done.Prelude.{
  ◌≡◌, refl, ap, ◌∙◌, inl, inr, Bool, true, false, none, some, List, [], ◌∷◌, ◌++◌, arith, ◌==◌,
  if◌then◌else◌, ◌>>=◌, All, append_assoc, append-nil, Bool-cases,
}
use cpp_done.Std.Text.{
  Bytes, codes, is_empty, front, bytes_eq, c_str, contains, substr, length-contains, getline_all,
  getline_from-delimited, getline_from-last, Avoids, Avoids-append,
}

-- A field has no byte that ends an element, a line or a C string.
pub record IsField (s : Bytes) : Type 0 where
  pub no_nul : Avoids 0 s
  pub no_tab : Avoids 9 s
  pub no_newline : Avoids 10 s

-- The texts of a cookie, as far as they are free.
pub record HasFields (c : CookieInfo) : Type 0 where
  pub domain : IsField c.domain
  pub path : IsField c.path
  pub expires : IsField c.expires
  pub name : IsField c.name
  pub value : IsField c.value

-- A cookie that its line determines.
pub record IsClean (c : CookieInfo) : Type 0 where
  pub fields : HasFields c
  pub domain_some : is_empty c.domain ≡ false
  pub domain_hash : (front c.domain == b'#') ≡ false
  pub domain_dot : (front c.domain == b'.') ≡ false

flag-IsField : (b : Bool) → IsField (flag b)
flag-IsField true = ground arith
flag-IsField false = ground arith

-- The seven elements; the last is missing where the value is empty.
cookie_line-elems :
    (c : CookieInfo)
    → HasFields c
    → getline_all 9 (cookie_line c)
      ≡ c.domain
        ∷ flag c.tail_match
        ∷ c.path
        ∷ flag c.secure
        ∷ c.expires
        ∷ c.name
        ∷ (if is_empty c.value then [] else c.value ∷ [])
unfolding getline_all cookie_line
cookie_line-elems c f = rw (
  getline_from-delimited 9 [] c.domain _ f.domain.no_tab,
  getline_from-delimited 9 [] (flag c.tail_match) _ (flag-IsField c.tail_match).no_tab,
  getline_from-delimited 9 [] c.path _ f.path.no_tab,
  getline_from-delimited 9 [] (flag c.secure) _ (flag-IsField c.secure).no_tab,
  getline_from-delimited 9 [] c.expires _ f.expires.no_tab,
  getline_from-delimited 9 [] c.name _ f.name.no_tab,
  getline_from-last 9 [] c.value f.value.no_tab,
)

pub drop_http_only-total : (s : Bytes) → drop_http_only s ≡ some tt
unfolding drop_http_only substr
drop_http_only-total s = ground (arith, length-contains (codes "#HttpOnly_") s)

flag-read : (b : Bool) → bytes_eq (codes "TRUE") (c_str (flag b)) ≡ b
unfolding bytes_eq c_str
flag-read true = refl
flag-read false = refl

front-cookie_line :
    (c : CookieInfo)
    → is_empty c.domain ≡ false
    → (is_empty (cookie_line c) ≡ false) × (front (cookie_line c) ≡ front c.domain)
unfolding cookie_line
front-cookie_line c h = ground arith

-- The line that writeFile builds for a cookie with clean fields is read back as that cookie if its
-- value is not empty; if it is empty, the seventh element does not exist and reading it is
-- undefined behaviour.
pub read_line-cookie_line :
    (c : CookieInfo)
    → IsClean c
    → read_line (cookie_line c) ≡ (if is_empty c.value then none else some (some c))
unfolding read_line cookie_of
read_line-cookie_line c v =
    let start = front-cookie_line c v.domain_some in
    rw
      (
        start.0,
        drop_http_only-total (cookie_line c),
        ◌>>=◌,
        start.1,
        v.domain_hash,
        cookie_line-elems c v.fields,
      )
      (elim (Bool-cases (is_empty c.value)) [
        | inl e ↦ rw e
        | inr e ↦ rw (e, v.domain_dot, flag-read c.tail_match, flag-read c.secure)
      ])

-- The lines of the cookies, each with its end of line.
abbrev pub ended_lines : List CookieInfo → Bytes
ended_lines [] = []
ended_lines (c ∷ cs) = cookie_line c ++ (10 ∷ ended_lines cs)

pub record IsWhole (c : CookieInfo) : Type 0 where
  pub clean : IsClean c
  pub value_some : is_empty c.value ≡ false

-- Nothing but a newline is forbidden.
pub record IsOneLine (c : CookieInfo) : Type 0 where
  pub domain : Avoids 10 c.domain
  pub path : Avoids 10 c.path
  pub expires : Avoids 10 c.expires
  pub name : Avoids 10 c.name
  pub value : Avoids 10 c.value

pub cookie_line-IsOneLine : (c : CookieInfo) → IsOneLine c → Avoids 10 (cookie_line c)
unfolding cookie_line
cookie_line-IsOneLine c o =
    let tab : (10 == 10) ≡ true = refl in
    let join =
      λ (s t : Bytes) (a : Avoids 10 s) (b : Avoids 10 t). Avoids-append 10 s (9 ∷ t) a (refl, b) in
    join c.domain _ o.domain (
      join (flag c.tail_match) _ (flag-IsField c.tail_match).no_newline (
        join c.path _ o.path (
          join (flag c.secure) _ (flag-IsField c.secure).no_newline
            (join c.expires _ o.expires (join c.name _ o.name o.value)))))

whole-IsOneLine : (c : CookieInfo) → HasFields c → IsOneLine c
whole-IsOneLine c f = record {
  domain = f.domain.no_newline;
  path = f.path.no_newline;
  expires = f.expires.no_newline;
  name = f.name.no_newline;
  value = f.value.no_newline;
}

read_lines-ended :
    (cs done : List CookieInfo)
    → All IsWhole cs
    → read_lines (getline_all 10 (ended_lines cs)) done ≡ some (done ++ cs)
unfolding getline_all read_lines
read_lines-ended [] done w = rw append-nil
read_lines-ended (c ∷ cs) done w =
    let one = cookie_line-IsOneLine c (whole-IsOneLine c w.0.clean.fields) in
    rw
      (
        getline_from-delimited 10 [] (cookie_line c) (ended_lines cs) one,
        read_line-cookie_line c w.0.clean,
        w.0.value_some,
      )
      (read_lines-ended cs (done ++ c ∷ []) w.1 ∙ ap some (append_assoc done (c ∷ []) cs))

header_lines :
    (s : Bytes) (done : List CookieInfo)
    → read_lines (getline_all 10 (file_header ++ (10 ∷ s))) done
      ≡ read_lines (getline_all 10 s) done
unfolding getline_all read_lines read_line contains substr
header_lines s done = refl

pub header-IsSome : (s : Bytes) → is_empty (getline_all 10 (file_header ++ s)) ≡ false
unfolding getline_all
header-IsSome s = refl

-- For a named file that holds the header and, behind an end of line, the lines that writeFile
-- builds for some cookies, each line with its own end, readFile loads exactly these cookies,
-- provided that each has a value and a domain that starts neither with a dot nor with a hash sign,
-- and no field with a NUL, tab or newline.
pub read_file-ended :
    (h : HttpCookie) (chunks : List Bytes) (cs : List CookieInfo)
    → is_empty h.cookie_filename ≡ false
    → read_chunks chunks ≡ file_header ++ (10 ∷ ended_lines cs)
    → All IsWhole cs
    → read_file h (some chunks) ≡ some (record h { cookies = cs })
unfolding read_file
read_file-ended h chunks cs named text w = rw (
  named,
  text,
  header-IsSome (10 ∷ ended_lines cs),
  header_lines (ended_lines cs) [],
  read_lines-ended cs [] w,
)

-- ===== src/HttpCookie/Reread.antt =====
-- What is left of the cookies of http_client/http_cookie.cpp when a file that `writeFile` wrote is read.
use cpp_done.HttpCookie.{
  CookieInfo, HttpCookie, read_line, read_lines, read_chunks, read_file, cookie_line, file_header,
  put_cookies, write_file,
}
use cpp_done.Prelude.{ℕ, ◌≡◌, true, false, none, some, List, [], ◌∷◌, ◌++◌, arith, All}
use cpp_done.Std.Text.{
  Bytes, codes, is_empty, c_str, contains, substr, getline_all, getline_from-last, Avoids,
  Avoids-append,
}
use cpp_done.HttpCookie.Format.{
  IsOneLine, cookie_line-IsOneLine, drop_http_only-total, header-IsSome,
}

pub read_line_hash : (s : Bytes) → read_line (b'#' ∷ s) ≡ some none
unfolding read_line
read_line_hash s = rw (drop_http_only-total (b'#' ∷ s))

c_str-Avoids : (d : ℕ) (s : Bytes) → Avoids d s → Avoids d (c_str s)
unfolding c_str
c_str-Avoids d [] a = tt
c_str-Avoids d (c ∷ s) a = ground (arith, c_str-Avoids d s)

put_cookies-Avoids : (cs : List CookieInfo) → All IsOneLine cs → Avoids 10 (put_cookies cs)
unfolding put_cookies
put_cookies-Avoids [] o = tt
put_cookies-Avoids (c ∷ cs) o =
    Avoids-append 10 (c_str (cookie_line c)) (put_cookies cs)
      (c_str-Avoids 10 (cookie_line c) (cookie_line-IsOneLine c o.0)) (put_cookies-Avoids cs o.1)

last_header_line :
    (s : Bytes) (done : List CookieInfo)
    → Avoids 10 s
    → read_lines (getline_all 10 (file_header ++ s)) done ≡ some done
unfolding getline_all read_lines read_line contains substr
last_header_line s done a =
    rw (getline_from-last 10 (codes "# Test HttpClient cookie write") s a, read_line_hash)

-- Reading back a named file that writeFile wrote succeeds and leaves no cookie at all, whatever
-- the cookies were, as long as none of their fields has a newline: the header ends without an end
-- of line, and so do the lines.
pub write_file-read_file :
    (h : HttpCookie) (chunks : List Bytes)
    → is_empty h.cookie_filename ≡ false
    → All IsOneLine h.cookies
    → write_file h true ≡ some (read_chunks chunks)
    → read_file h (some chunks) ≡ some (record h { cookies = [] })
unfolding read_file write_file
write_file-read_file h chunks named o written =
    let text : read_chunks chunks ≡ file_header ++ put_cookies h.cookies = cc in
    rw (
      named,
      text,
      header-IsSome (put_cookies h.cookies),
      last_header_line (put_cookies h.cookies) [] (put_cookies-Avoids h.cookies o),
    )

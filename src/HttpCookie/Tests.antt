-- ===== src/HttpCookie/Tests.antt =====
-- The cookie file of http_client/http_cookie.cpp at concrete cookies.
use cpp_done.HttpCookie.Format.{IsClean, ended_lines, read_line-cookie_line, read_file-ended}
use cpp_done.HttpCookie.Reread.{write_file-read_file}
use cpp_done.HttpCookie.Store.{of_domain, IsDistinct, update_or_add_cookie-of_domain}
use cpp_done.HttpCookie.{
  CookieInfo, HttpCookie, read_line, read_file, read_chunks, cookie_line, file_header, write_file,
  put_cookies, get_match_cookie, update_or_add_cookie,
}
use cpp_done.Prelude.{◌≡◌, refl, true, false, none, some, [], ◌∷◌, ◌++◌, arith, if◌then◌else◌}
use cpp_done.Std.Text.{Bytes, codes, bytes_eq, contains, substr, getline_all, c_str}

abbrev session_cookie : CookieInfo
session_cookie = record {
  domain = codes "a.org";
  tail_match = true;
  path = codes "/";
  secure = false;
  expires = codes "0";
  name = codes "sid";
  value = codes "7";
}

abbrev no_value : CookieInfo
no_value = record session_cookie { value = [] }

abbrev jar : HttpCookie
jar = record { cookie_filename = codes "jar"; cookies = session_cookie ∷ [] }

abbrev text : Bytes
text = file_header ++ (10 ∷ ended_lines (session_cookie ∷ []))

program : Unit {0}
unfolding read_line read_file read_chunks cookie_line write_file get_match_cookie
    update_or_add_cookie bytes_eq contains substr getline_all c_str of_domain
program = tt

reads_back : read_file (record jar { cookies = [] }) (some (text ∷ [])) ≡ some jar
unfolding program
reads_back = refl

-- a failed `fopen` is followed by `fclose(nullptr)`
not_opened : read_file jar none ≡ none
unfolding program
not_opened = refl

clean : IsClean session_cookie
clean = ground arith

no_value-IsClean : IsClean no_value
no_value-IsClean = ground arith

no_value_is_no_line : read_line (cookie_line no_value) ≡ none
no_value_is_no_line = read_line-cookie_line no_value no_value-IsClean

read_file-ended_example : read_file (record jar { cookies = [] }) (some (text ∷ [])) ≡ some jar
unfolding read_chunks cookie_line
read_file-ended_example =
    read_file-ended (record jar { cookies = [] }) (text ∷ []) (session_cookie ∷ []) refl refl
      (record { clean = clean; value_some = refl }, tt)

write_file-read_file_example :
    read_file jar (some ((file_header ++ put_cookies jar.cookies) ∷ []))
    ≡ some (record jar { cookies = [] })
unfolding read_chunks write_file c_str
write_file-read_file_example =
    write_file-read_file jar ((file_header ++ put_cookies jar.cookies) ∷ []) refl (ground arith)
      refl

update_or_add_cookie-of_domain_example :
    IsDistinct (update_or_add_cookie jar no_value).cookies
    × ((d : Bytes)
        → of_domain d (update_or_add_cookie jar no_value).cookies
          ≡ (if bytes_eq d no_value.domain then some no_value else of_domain d jar.cookies))
unfolding of_domain
update_or_add_cookie-of_domain_example = update_or_add_cookie-of_domain jar no_value (refl, tt)

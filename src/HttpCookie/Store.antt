-- ===== src/HttpCookie/Store.antt =====
-- The cookies in memory of http_client/http_cookie.cpp: the first match, and replacing by domain.
use cpp_done.HttpCookie.{
  CookieInfo, HttpCookie, get_match_cookie, update_or_add, update_or_add_cookie,
}
use cpp_done.Prelude.{
  ◌≡◌, refl, ap, true, false, Option, none, some, List, [], ◌∷◌, ◌++◌, arith, if◌then◌else◌, All,
  inl, inr, Bool-cases,
}
use cpp_done.Std.Text.{Bytes, bytes_eq, bytes_eq_iff, contains}

-- The cookie that the store holds for a domain.
unfoldable pub of_domain : Bytes → List CookieInfo → Option CookieInfo
of_domain d [] = none
of_domain d (c ∷ cs) = if bytes_eq d c.domain then some c else of_domain d cs

-- No two cookies have one domain.
abbrev pub IsDistinct : List CookieInfo → Type 0
IsDistinct [] = Unit
IsDistinct (c ∷ cs) = (of_domain c.domain cs ≡ none) × IsDistinct cs

abbrev pub Misses : Bytes → CookieInfo → Type 0
Misses url c = contains c.domain url ≡ false

update_or_add-of_domain :
    (c : CookieInfo) (cs : List CookieInfo) (d : Bytes)
    → of_domain d (update_or_add c cs) ≡ (if bytes_eq d c.domain then some c else of_domain d cs)
unfolding of_domain update_or_add
update_or_add-of_domain c [] d = refl
update_or_add-of_domain c (e ∷ cs) d = ground (
  arith,
  update_or_add-of_domain c cs d,
  bytes_eq_iff d c.domain,
  bytes_eq_iff c.domain e.domain,
  bytes_eq_iff d e.domain,
)

update_or_add-IsDistinct :
    (c : CookieInfo) (cs : List CookieInfo) → IsDistinct cs → IsDistinct (update_or_add c cs)
unfolding of_domain update_or_add
update_or_add-IsDistinct c [] h = (refl, tt)
update_or_add-IsDistinct c (e ∷ cs) h = ground (
  arith,
  update_or_add-IsDistinct c cs,
  update_or_add-of_domain c cs e.domain,
  bytes_eq_iff e.domain c.domain,
  bytes_eq_iff c.domain e.domain,
)

-- In a store whose cookies have distinct domains, updateOrAddCookie keeps the domains distinct,
-- the store then holds the new cookie for its domain, and every other domain keeps its cookie.
pub update_or_add_cookie-of_domain :
    (h : HttpCookie) (c : CookieInfo)
    → IsDistinct h.cookies
    → IsDistinct (update_or_add_cookie h c).cookies
      × ((d : Bytes)
          → of_domain d (update_or_add_cookie h c).cookies
            ≡ (if bytes_eq d c.domain then some c else of_domain d h.cookies))
unfolding update_or_add_cookie
update_or_add_cookie-of_domain h c v =
    (update_or_add-IsDistinct c h.cookies v, update_or_add-of_domain c h.cookies)

-- The first cookie whose domain occurs in the URL, with the cookies that stand before it.
abbrev pub FirstMatch : Bytes → List CookieInfo → Option CookieInfo → Type 0
FirstMatch url cs none = All (Misses url) cs
FirstMatch url cs (some c) =
    (before : List CookieInfo) × (after : List CookieInfo) × (cs ≡ before ++ c ∷ after)
    × All (Misses url) before
    × (contains c.domain url ≡ true)

FirstMatch-cons :
    (url : Bytes) (c : CookieInfo) (cs : List CookieInfo) (r : Option CookieInfo)
    → Misses url c
    → FirstMatch url cs r
    → FirstMatch url (c ∷ cs) r
FirstMatch-cons url c cs none m f = (m, f)
FirstMatch-cons url c cs (some d) m f = (c ∷ f.0, f.1, ap (◌∷◌ c) f.2, (m, f.3), f.4)

-- getMatchCookie returns the first cookie whose domain occurs in the URL, with no such cookie
-- before it, or nothing if no domain occurs in it.
pub get_match_cookie-FirstMatch :
    (url : Bytes) (cs : List CookieInfo) → FirstMatch url cs (get_match_cookie url cs)
unfolding get_match_cookie
get_match_cookie-FirstMatch url [] = tt
get_match_cookie-FirstMatch url (c ∷ cs) = elim (Bool-cases (contains c.domain url)) [
  | inl e ↦ rw e ([], cs, refl, tt, e)
  | inr e ↦ rw e (FirstMatch-cons url c cs _ e (get_match_cookie-FirstMatch url cs))
]

-- After updateOrAddCookie with a cookie whose domain occurs in the URL, getMatchCookie finds a
-- cookie, and its domain occurs in the URL.
pub get_match_cookie-update_or_add :
    (url : Bytes) (c : CookieInfo) (cs : List CookieInfo)
    → contains c.domain url ≡ true
    → (r : CookieInfo) × (get_match_cookie url (update_or_add c cs) ≡ some r)
      × (contains r.domain url ≡ true)
unfolding update_or_add get_match_cookie
get_match_cookie-update_or_add url c [] h = (c, rw h, h)
get_match_cookie-update_or_add url c (e ∷ cs) h = elim (Bool-cases (bytes_eq c.domain e.domain)) [
  | inl same ↦ (c, rw (same, h), h)
  | inr other ↦ elim (Bool-cases (contains e.domain url)) [
    | inl found ↦ (e, rw (other, found), found)
    | inr missed ↦
        let (r, run, fits) = get_match_cookie-update_or_add url c cs h in
        (r, rw (other, missed) run, fits)
  ]
]

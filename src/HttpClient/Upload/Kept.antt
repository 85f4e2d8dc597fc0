-- ===== src/HttpClient/Upload/Kept.antt =====
-- The options that stay on a handle of http_client/http_client.cpp when some are refused.
use mathlib.Core.List.Sublist
use mathlib.Core.List.{Sublist, nil-sublist}
use cpp_done.HttpClient.Curl.{CurlOption, Libcurl, Handle, set_option, set_options, try_options}
use cpp_done.HttpClient.Outcome.{accepts_all}
use cpp_done.Prelude.{
  ◌≡◌, refl, sym, ap, ◌∙◌, Bool, true, some, List, [], ◌∷◌, ◌++◌, arith, All, append_assoc,
  append-nil, Bool-cases, inl, inr,
}

abbrev pub Passes : (CurlOption → Bool) → List CurlOption → Type 0
Passes p os = All (λ o. p o ≡ true) os

pub Passes-split :
    (p : CurlOption → Bool) (os more : List CurlOption)
    → Passes p (os ++ more)
    → Passes p os × Passes p more
Passes-split p [] more a = (tt, a)
Passes-split p (o ∷ os) more a =
    let (first, rest) = Passes-split p os more a.1 in ((a.0, first), rest)

-- what a handle has after some of `os` were set on it, and all of them if libcurl accepts all
pub record Sets (lib : Libcurl) (done os : List CurlOption) (h : Handle) : Type 0 where
  pub kept : List CurlOption
  pub result : h ≡ some (done ++ kept)
  pub among : Sublist kept os
  pub all : accepts_all lib done os ≡ true → kept ≡ os
  pub each : (p : CurlOption → Bool) → Passes p os → Passes p kept

cons-Sets :
    (lib : Libcurl) (done : List CurlOption) (o : CurlOption) (os : List CurlOption) (h : Handle)
    → lib.accepts done o ≡ true
    → Sets lib (done ++ o ∷ []) os h
    → Sets lib done (o ∷ os) h
unfolding accepts_all
cons-Sets lib done o os h e s = record {
  kept = o ∷ s.kept;
  result = s.result ∙ ap some (append_assoc done (o ∷ []) s.kept);
  among = Sublist.append (Sublist.refl (o ∷ [])) s.among;
  all = λ a. ground (arith, s.all);
  each = λ p a. (a.0, s.each p a.1);
}

pub set_options-Sets :
    (lib : Libcurl) (done os : List CurlOption)
    → Sets lib done os (set_options lib os (some done)).0
unfolding set_options set_option accepts_all
set_options-Sets lib done [] = record {
  kept = [];
  result = ap some (sym (append-nil done));
  among = Sublist.refl [];
  all = λ a. refl;
  each = λ p a. tt;
}
set_options-Sets lib done (o ∷ os) = elim (Bool-cases (lib.accepts done o)) [
  | inl e ↦ rw e (cons-Sets lib done o os _ e (set_options-Sets lib (done ++ o ∷ []) os))
  | inr e ↦ rw e (record {
    kept = [];
    result = ap some (sym (append-nil done));
    among = nil-sublist (o ∷ os);
    all = λ a. absurd (ground arith);
    each = λ p a. tt;
  })
]

pub try_options-Sets :
    (lib : Libcurl) (done os : List CurlOption) → Sets lib done os (try_options lib os (some done))
unfolding try_options set_option accepts_all
try_options-Sets lib done [] = record {
  kept = [];
  result = ap some (sym (append-nil done));
  among = Sublist.refl [];
  all = λ a. refl;
  each = λ p a. tt;
}
try_options-Sets lib done (o ∷ os) = elim (Bool-cases (lib.accepts done o)) [
  | inl e ↦ rw e (cons-Sets lib done o os _ e (try_options-Sets lib (done ++ o ∷ []) os))
  | inr e ↦
      let s = try_options-Sets lib done os in
      rw e (record {
        kept = s.kept;
        result = s.result;
        among = Sublist.cons o s.among;
        all = λ a. absurd (ground arith);
        each = λ p a. s.each p a.1;
      })
]

-- ===== src/Std/Text.antt =====
-- `std::string` and the C string functions, on texts as lists of bytes.
use Prim.Native.Char.{code}
use Prim.Native.String.{String}
use cpp_done.Prelude.{
  ℕ, ◌≤◌, ◌≡◌, ◌↔◌, refl, Bool, true, false, ◌&&◌, ◌||◌, Option, none, some, List, [], ◌∷◌, ◌++◌,
  arith, ◌==◌, leb, ltb, if◌then◌else◌, length, drop, All, append_assoc, append-nil,
}

abbrev pub Bytes : Type 0
Bytes = List ℕ

-- The bytes of a literal.
abbrev pub codes : String → Bytes
codes String.[] = []
codes (String.◌∷◌ c s) = code c ∷ codes s

abbrev pub is_empty {ℓ} : {A : Type ℓ} → List A → Bool
is_empty [] = true
is_empty (x ∷ xs) = false

-- `s[0]`, which is the final NUL of an empty string
abbrev pub front : Bytes → ℕ
front [] = 0
front (c ∷ s) = c

-- `==` on strings
unfoldable pub bytes_eq : Bytes → Bytes → Bool
bytes_eq [] [] = true
bytes_eq [] (d ∷ t) = false
bytes_eq (c ∷ s) [] = false
bytes_eq (c ∷ s) (d ∷ t) = c == d && bytes_eq s t

-- `operator<` of `std::string`
unfoldable pub bytes_less : Bytes → Bytes → Bool
bytes_less s [] = false
bytes_less [] (d ∷ t) = true
bytes_less (c ∷ s) (d ∷ t) = if ltb c d then true else if ltb d c then false else bytes_less s t

-- what a C function sees of a string: the bytes before the first NUL
unfoldable pub c_str : Bytes → Bytes
c_str [] = []
c_str (c ∷ s) = if c == 0 then [] else c ∷ c_str s

-- `strncmp(s, prefix, strlen(prefix)) == 0`
unfoldable pub starts_with : Bytes → Bytes → Bool
starts_with [] s = true
starts_with (p ∷ ps) [] = false
starts_with (p ∷ ps) (c ∷ s) = p == c && starts_with ps s

-- `s.find(needle) != npos`
unfoldable pub contains : Bytes → Bytes → Bool
unfolding starts_with
contains needle [] = starts_with needle []
contains needle (c ∷ s) = starts_with needle (c ∷ s) || contains needle s

-- `s.substr(pos)`, which throws past the end
unfoldable pub substr : ℕ → Bytes → Option Bytes
substr pos s = if leb pos (length s) then some (drop pos s) else none

-- `while (getline(stream, item, d)) v.push_back(item)`, with `item` the bytes read so far. At the end
-- of the stream an item counts only if a byte was read for it.
unfoldable pub getline_from : ℕ → Bytes → Bytes → List Bytes
getline_from d item [] = if is_empty item then [] else item ∷ []
getline_from d item (c ∷ s) = elim (c == d) [
  | true ↦ item ∷ getline_from d [] s
  | false ↦ getline_from d (item ++ c ∷ []) s
]

unfoldable pub getline_all : ℕ → Bytes → List Bytes
unfolding getline_from
getline_all d s = getline_from d [] s

-- The byte `d` does not occur.
abbrev pub Avoids : ℕ → Bytes → Type 0
Avoids d s = All (λ c. (c == d) ≡ false) s

pub bytes_eq_iff : (s t : Bytes) → (bytes_eq s t ≡ true) ↔ (s ≡ t)
unfolding bytes_eq
bytes_eq_iff [] [] = (λ e. refl, λ e. refl)
bytes_eq_iff [] (d ∷ t) = ground arith
bytes_eq_iff (c ∷ s) [] = ground arith
bytes_eq_iff (c ∷ s) (d ∷ t) = ground (arith, bytes_eq_iff s t)

pub bytes_eq_refl : (s : Bytes) → bytes_eq s s ≡ true
bytes_eq_refl s = (bytes_eq_iff s s).1 refl

pub c_str-of-Avoids : (s : Bytes) → Avoids 0 s → c_str s ≡ s
unfolding c_str
c_str-of-Avoids [] h = refl
c_str-of-Avoids (c ∷ s) h = ground (arith, c_str-of-Avoids s)

pub c_str-c_str : (s : Bytes) → c_str (c_str s) ≡ c_str s
unfolding c_str
c_str-c_str [] = refl
c_str-c_str (c ∷ s) = ground (arith, c_str-c_str s)

length-starts_with : (p s : Bytes) → starts_with p s ≡ true → length p ≤ length s
unfolding starts_with
length-starts_with [] s h = omega arith
length-starts_with (p ∷ ps) [] h = ground arith
length-starts_with (p ∷ ps) (c ∷ s) h = ground (arith, length-starts_with ps s)

pub length-contains : (n s : Bytes) → contains n s ≡ true → length n ≤ length s
unfolding contains
length-contains n [] h = length-starts_with n [] h
length-contains n (c ∷ s) h = ground (arith, length-starts_with n (c ∷ s), length-contains n s)

-- An item that ends at a delimiter.
pub getline_from-delimited :
    (d : ℕ) (item xs s : Bytes)
    → Avoids d xs
    → getline_from d item (xs ++ d ∷ s) ≡ (item ++ xs) ∷ getline_from d [] s
unfolding getline_from
getline_from-delimited d item [] s h = ground (arith, append-nil item)
getline_from-delimited d item (x ∷ xs) s h =
    ground
      (arith, getline_from-delimited d (item ++ x ∷ []) xs s h.1, append_assoc item (x ∷ []) xs)

-- The last item, which ends with the stream.
pub getline_from-last :
    (d : ℕ) (item xs : Bytes)
    → Avoids d xs
    → getline_from d item xs ≡ (if is_empty (item ++ xs) then [] else (item ++ xs) ∷ [])
unfolding getline_from
getline_from-last d item [] h = ground (arith, append-nil item)
getline_from-last d item (x ∷ xs) h =
    ground (arith, getline_from-last d (item ++ x ∷ []) xs h.1, append_assoc item (x ∷ []) xs)

pub Avoids-append : (d : ℕ) (s t : Bytes) → Avoids d s → Avoids d t → Avoids d (s ++ t)
Avoids-append d [] t hs ht = ht
Avoids-append d (c ∷ s) t hs ht = (hs.0, Avoids-append d s t hs.1 ht)

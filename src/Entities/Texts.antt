-- ===== src/Entities/Texts.antt =====
-- Python's operations on texts that the ontology pipeline uses, over the code points of a text.
use Prim.Native.Char.{Char, code}
use segnog.Prelude.{
  ℕ, zero, suc, ◌-◌, String, Bool, true, false, List, [], ◌∷◌, ◌&&◌, ◌||◌, eqb, leb, if◌then◌else◌,
}
use segnog.Names.{is_space, normalize_name}

-- `len(s)`
unfoldable pub size : String → ℕ
size String.[] = 0
size (String.◌∷◌ c s) = suc (size s)

-- `s[:n]`
unfoldable pub slice : ℕ → String → String
slice zero s = ""
slice (suc n) String.[] = ""
slice (suc n) (String.◌∷◌ c s) = String.◌∷◌ c (slice n s)

unfoldable pub lstrip_text : String → String
lstrip_text String.[] = ""
lstrip_text (String.◌∷◌ c s) =
    let rest = lstrip_text s in if is_space (code c) then rest else String.◌∷◌ c s

abbrev put_unless_space : Char → String → String
put_unless_space c String.[] = if is_space (code c) then "" else String.◌∷◌ c ""
put_unless_space c (String.◌∷◌ d s) = String.◌∷◌ c (String.◌∷◌ d s)

unfoldable pub rstrip_text : String → String
rstrip_text String.[] = ""
rstrip_text (String.◌∷◌ c s) = put_unless_space c (rstrip_text s)

-- `s.strip()`
unfoldable pub strip : String → String
unfolding lstrip_text rstrip_text
strip s = rstrip_text (lstrip_text s)

unfoldable pub starts_with : String → String → Bool
starts_with String.[] s = true
starts_with (String.◌∷◌ c p) String.[] = false
starts_with (String.◌∷◌ c p) (String.◌∷◌ d s) = eqb (code c) (code d) && starts_with p s

-- `p in s`
unfoldable pub includes : String → String → Bool
unfolding starts_with
includes p String.[] = starts_with p ""
includes p (String.◌∷◌ c s) = starts_with p (String.◌∷◌ c s) || includes p s

-- `len(s.split())`, where `inside` says that a word has begun.
unfoldable pub words : Bool → String → ℕ
words inside String.[] = 0
words inside (String.◌∷◌ c s) =
    let outside = words false s in
    let within = words true s in
    if is_space (code c) then outside else (if inside then within else suc within)

unfoldable pub codes : String → List ℕ
codes String.[] = []
codes (String.◌∷◌ c s) = code c ∷ codes s

nth_char : ℕ → String → Char
nth_char n String.[] = "-"
nth_char zero (String.◌∷◌ c s) = c
nth_char (suc n) (String.◌∷◌ c s) = nth_char n s

-- The text of a slug, whose code points are those of digits, lower-case letters and dashes.
unfoldable pub text_of : List ℕ → String
unfolding nth_char
text_of [] = ""
text_of (c ∷ cs) =
    let letter = nth_char (c - b'a') "abcdefghijklmnopqrstuvwxyz" in
    let digit = nth_char (c - b'0') "0123456789" in
    String.◌∷◌ (if leb b'a' c then letter else if leb b'0' c then digit else "-") (text_of cs)

-- `normalize_name` of a text; `lower` is `str.lower`.
unfoldable pub name_slug : (String → String) → String → String
unfolding normalize_name codes text_of
name_slug lower raw = text_of (normalize_name (λ cs. cs) (codes (lower raw)))

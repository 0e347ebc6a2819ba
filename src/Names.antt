-- ===== src/Names.antt =====
-- ontology/names.py: the canonical form of a name (src/memory_service/ontology/names.py). A text is
-- the list of its code points; `lower` is `str.lower`, whose Unicode tables are not of the program.
pub mod Slug
use segnog.Prelude.{ℕ, Bool, true, false, List, [], ◌∷◌, ◌&&◌, ◌||◌, map, leb, eqb, if◌then◌else◌}

abbrev pub dash : ℕ
dash = b'-'

-- What `str.strip` takes for white space.
pub is_space : ℕ → Bool
is_space c =
    (leb 0x09 c && leb c 0x0d)
    || (leb 0x1c c && leb c 0x20)
    || eqb c 0x85
    || eqb c 0xa0
    || eqb c 0x1680
    || (leb 0x2000 c && leb c 0x200a)
    || eqb c 0x2028
    || eqb c 0x2029
    || eqb c 0x202f
    || eqb c 0x205f
    || eqb c 0x3000

pub is_dash : ℕ → Bool
is_dash c = eqb c dash

-- `[a-z0-9\-]`
unfoldable pub is_slug_char : ℕ → Bool
is_slug_char c = (leb b'a' c && leb c b'z') || (leb b'0' c && leb c b'9') || eqb c dash

pub lstrip : (ℕ → Bool) → List ℕ → List ℕ
lstrip p [] = []
lstrip p (c ∷ s) = if p c then lstrip p s else c ∷ s

pub put_unless : Bool → ℕ → List ℕ → List ℕ
put_unless drop c [] = if drop then [] else c ∷ []
put_unless drop c (d ∷ s) = c ∷ d ∷ s

-- A character at the end goes if all behind it have gone.
pub rstrip : (ℕ → Bool) → List ℕ → List ℕ
unfolding put_unless
rstrip p [] = []
rstrip p (c ∷ s) = put_unless (p c) c (rstrip p s)

-- `replace("_", "-").replace(" ", "-")`
pub hyphenate : ℕ → ℕ
hyphenate c = if eqb c b'_' then dash else if eqb c b' ' then dash else c

-- `re.sub(r"[^a-z0-9\-]", "", name)`
pub keep_slug : List ℕ → List ℕ
unfolding is_slug_char
keep_slug [] = []
keep_slug (c ∷ s) = let rest = keep_slug s in if is_slug_char c then c ∷ rest else rest

-- `re.sub(r"-+", "-", name)`: of a run of dashes the last stays.
pub squeeze : List ℕ → List ℕ
unfolding is_dash
squeeze [] = []
squeeze (c ∷ []) = c ∷ []
squeeze (c ∷ d ∷ s) =
    let rest = squeeze (d ∷ s) in if is_dash c && is_dash d then rest else c ∷ rest

unfoldable pub normalize_name : (List ℕ → List ℕ) → List ℕ → List ℕ
normalize_name lower raw = rstrip is_dash (
    lstrip is_dash
      (squeeze (keep_slug (map hyphenate (rstrip is_space (lstrip is_space (lower raw)))))))

-- Opens the normalization in a run.
unfoldable pub normalizer : Unit {0}
unfolding normalize_name rstrip lstrip squeeze keep_slug hyphenate is_space
normalizer = tt

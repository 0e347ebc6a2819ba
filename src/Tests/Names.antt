-- ===== src/Tests/Names.antt =====
-- The theorems on ontology/names.py at names of its documentation.
use Prim.Native.Char.{code}
use Prim.Native.String.{String}
use segnog.Prelude.{
  arith, ℕ, List, [], ◌∷◌, ◌≡◌, refl, true, All, map, leb, ◌+◌, ◌&&◌, if◌then◌else◌,
}
use segnog.Names.{normalize_name, normalizer, is_slug_char}
use segnog.Names.Slug.{IsSlug, normalize_name-IsSlug}

abbrev codes : String → List ℕ
codes String.[] = []
codes (String.◌∷◌ c s) = code c ∷ codes s

-- `str.lower` on ASCII.
abbrev lower_code : ℕ → ℕ
lower_code c = if leb b'A' c && leb c b'Z' then c + 32 else c

abbrev lower : List ℕ → List ℕ
lower = map lower_code

normalize_runs :
    (normalize_name lower (codes "Julia Horrocks") ≡ codes "julia-horrocks")
    × (normalize_name lower (codes " Machine _Learning! ") ≡ codes "machine-learning")
unfolding normalizer
normalize_runs = (refl, refl)

normalize_name-IsSlug_example : IsSlug (normalize_name lower (codes "Web Search"))
normalize_name-IsSlug_example = normalize_name-IsSlug lower (codes "Web Search")

lower_code-slug : (c : ℕ) → is_slug_char c ≡ true → lower_code c ≡ c
unfolding is_slug_char
lower_code-slug c h = ground arith

lower_slugs : (s : List ℕ) → All (λ c. is_slug_char c ≡ true) s → lower s ≡ s
lower_slugs [] h = refl
lower_slugs (c ∷ s) h = cc (lower_code-slug c h.0, lower_slugs s h.1)

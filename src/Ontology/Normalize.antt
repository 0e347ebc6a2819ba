-- ===== src/Ontology/Normalize.antt =====
-- `normalize_class` and `normalize_predicate` of ontology/schema_org.py. `lower` is `str.lower`,
-- whose Unicode tables are not of the program.
pub mod Canonical
use Prim.Native.Char.{Char, code}
use segnog.Prelude.{
  ℕ, zero, suc, ◌-◌, String, Bool, true, false, Option, none, some, List, [], ◌∷◌, ◌≡◌, ◌≢◌, refl,
  ◌∙◌, sym, ◌⊎◌, inl, inr, ◌&&◌, ◌||◌, ◌==◌, Dict, keys, lookup, insert, contains, lookup_present,
  lookup_absent, Bool-cases, Option-cases, arith, eq_iff, if◌then◌else◌, leb, eqb,
}
use segnog.Ontology.{Ontology}
use segnog.Ontology.Tables.{class_aliases, predicate_aliases}

is_between : ℕ → ℕ → Char → Bool
is_between lo hi c = leb lo (code c) && leb (code c) hi

is_alphanumeric : Char → Bool
unfolding is_between
is_alphanumeric c = is_between b'a' b'z' c || is_between b'A' b'Z' c || is_between b'0' b'9' c

-- `re.sub(r"[^a-zA-Z0-9]", "", raw)`
unfoldable pub alphanumeric : String → String
unfolding is_alphanumeric
alphanumeric String.[] = String.[]
alphanumeric (String.◌∷◌ c s) =
    let rest = alphanumeric s in if is_alphanumeric c then String.◌∷◌ c rest else rest

nth_char : ℕ → Char → String → Char
nth_char n d String.[] = d
nth_char zero d (String.◌∷◌ c s) = c
nth_char (suc n) d (String.◌∷◌ c s) = nth_char n d s

-- `upper` of a letter from "a" to "z".
upper_letter : Char → Char
unfolding nth_char
upper_letter c = nth_char (code c - b'a') c "ABCDEFGHIJKLMNOPQRSTUVWXYZ"

-- `re.sub(r"-([a-z])", lambda m: m.group(1).upper(), raw)`
unfoldable pub camel_case : String → String
unfolding is_between upper_letter
camel_case String.[] = String.[]
camel_case (String.◌∷◌ c String.[]) = String.◌∷◌ c String.[]
camel_case (String.◌∷◌ c (String.◌∷◌ d s)) =
    let joined = String.◌∷◌ (upper_letter d) (camel_case s) in
    let kept = String.◌∷◌ c (camel_case (String.◌∷◌ d s)) in
    if eqb (code c) b'-' && is_between b'a' b'z' d then joined else kept

camel_works_for : camel_case "works-for-Now-x-" ≡ "worksFor-NowX-"
unfolding camel_case
camel_works_for = refl

alphanumeric_example : alphanumeric "Music Album-2!" ≡ "MusicAlbum2"
unfolding alphanumeric
alphanumeric_example = refl

pub or_default : Option String → String → String
or_default none d = d
or_default (some s) d = s

-- `alias and alias in names`
pub alias_in : Option String → List String → Bool
unfolding contains
alias_in none names = false
alias_in (some a) names = if a == "" then false else contains a names

-- The steps that `normalize_class` and `normalize_predicate` share, over the canonical names, the
-- lower-case index, the aliases, the rewriting of the last step and the fallback.
module _ (lower : String → String) where
  -- `{k.lower(): k for k in names}`
  pub add_lower : List String → Dict String → Dict String
  add_lower [] index = index
  add_lower (k ∷ names) index = add_lower names (insert (lower k) k index)

  unfoldable pub lower_index : List String → Dict String
  unfolding add_lower
  lower_index names = add_lower names []

  unfoldable pub normalize :
      List String → Dict String → Dict String → (String → String) → String → String → String
  normalize names index aliases rewrite fallback raw =
      let low = lower raw in
      let alias = lookup low aliases in
      let rewritten = rewrite raw in
      if raw == ""
      then fallback
      else if contains raw names
      then raw
      else if contains low (keys index)
      then or_default (lookup low index) fallback
      else if alias_in alias names
      then or_default alias fallback
      else if contains rewritten names
      then rewritten
      else if contains (lower rewritten) (keys index)
      then or_default (lookup (lower rewritten) index) fallback
      else fallback

  unfoldable pub normalize_class : Ontology → String → String
  normalize_class o raw =
      normalize (keys o.classes) o.class_lower class_aliases alphanumeric "Thing" raw

  unfoldable pub normalize_predicate : Ontology → String → String
  normalize_predicate o raw =
      normalize (keys o.properties) o.prop_lower predicate_aliases camel_case "relatedTo" raw

-- Opens the normalization in a run.
unfoldable pub normalizer : Unit {0}
unfolding normalize_class normalize_predicate normalize alias_in or_default alphanumeric camel_case
    lookup insert contains class_aliases predicate_aliases
normalizer = tt

-- ===== src/Ontology/Json.antt =====
-- The JSON values that `SchemaOrgOntology.__init__` of ontology/schema_org.py reads, and its two
-- static helpers. An exception of the reading is `none`.
use segnog.Prelude.{String, Option, none, some, List, [], ◌∷◌, ◌==◌, if◌then◌else◌, eqb}
use Prim.Native.Char.{code}

mutual
  -- `empty` is any other false value, as null and 0, and `other` any other true one.
  pub data Json : Type 0 where
    text : String → Json
    object : Fields → Json
    array : Items → Json
    empty : Json
    other : Json

  pub data Items : Type 0 where
    nil : Items
    cons : Json → Items → Items

  pub data Fields : Type 0 where
    end : Fields
    field : String → Json → Fields → Fields

-- `val.get(key)` of a dictionary.
unfoldable pub get : String → Fields → Option Json
get key end = none
get key (field k v rest) = if k == key then some v else get key rest

pub ids_of_items : Items → List Json
unfolding get
ids_of_items nil = []
ids_of_items (cons (text s) rest) = text s ∷ ids_of_items rest
ids_of_items (cons (object fields) rest) =
    let ids = ids_of_items rest in elim (get "@id" fields) [ none ↦ ids | some id ↦ id ∷ ids ]
ids_of_items (cons item rest) = ids_of_items rest

-- `_extract_ids`
unfoldable pub extract_ids : Json → List Json
unfolding ids_of_items
extract_ids (text s) = if s == "" then [] else text s ∷ []
extract_ids (object fields) = elim (get "@id" fields) [ none ↦ [] | some id ↦ id ∷ [] ]
extract_ids (array items) = ids_of_items items
extract_ids _ = []

-- `_extract_label`; `to_text` is `str` of a value that is no text.
unfoldable pub extract_label : (Json → String) → Json → String
unfolding get
extract_label to_text (object fields) = elim (get "@value" fields) [
  | none ↦ ""
  | some v ↦ elim v [ text s ↦ s | other_value ↦ to_text other_value ]
]
extract_label to_text (text s) = s
extract_label to_text empty = ""
extract_label to_text (array nil) = ""
extract_label to_text v = to_text v

-- `s[len(prefix):]` if `s.startswith(prefix)`
unfoldable pub strip_prefix : String → String → Option String
strip_prefix String.[] s = some s
strip_prefix (String.◌∷◌ c p) String.[] = none
strip_prefix (String.◌∷◌ c p) (String.◌∷◌ d s) =
    let rest = strip_prefix p s in if eqb (code c) (code d) then rest else none

-- `[p[len("schema:"):] for p in ids if p.startswith("schema:")]`: an id that is no text raises.
unfoldable pub schema_names : List Json → Option (List String)
unfolding strip_prefix
schema_names [] = some []
schema_names (text s ∷ ids) = elim (schema_names ids) [
  | none ↦ none
  | some names ↦ elim (strip_prefix "schema:" s) [
    | none ↦ some names
    | some name ↦ some (name ∷ names)
  ]
]
schema_names (_ ∷ ids) = none

pub texts_of : Items → List String
texts_of nil = []
texts_of (cons (text s) rest) = s ∷ texts_of rest
texts_of (cons item rest) = texts_of rest

pub names_of : Fields → List String
names_of end = []
names_of (field k v rest) = k ∷ names_of rest

-- What `in types` looks through: a text counts as a list of it, and what is no container raises.
unfoldable pub types_of : Option Json → Option (List String)
unfolding texts_of names_of
types_of none = some []
types_of (some (text s)) = some (s ∷ [])
types_of (some (array items)) = some (texts_of items)
types_of (some (object fields)) = some (names_of fields)
types_of (some _) = none

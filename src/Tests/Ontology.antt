-- ===== src/Tests/Ontology.antt =====
-- The theorems on ontology/schema_org.py at a small vocabulary, and runs of the loader on it.
use segnog.Prelude.{
  String, true, false, Option, none, some, List, [], ◌∷◌, ◌≡◌, ◌↔◌, ◌⊎◌, refl, keys, lookup,
  contains, Distinct, ◌==◌, if◌then◌else◌,
}
use segnog.Ontology.{ClassInfo, PropertyInfo, Ontology, ancestors, is_excluded, validate_triple}
use segnog.Ontology.Tables.{excluded_parents}
use segnog.Ontology.Hierarchy.{Up, ancestors_lem}
use segnog.Ontology.Triples.{Meets, validate_triple_iff}
use segnog.Ontology.Inverses.{get_inverse, all_inverses}
use segnog.Ontology.Normalize.{normalizer, normalize_class, normalize_predicate}
use segnog.Ontology.Normalize.Canonical.{IsLoaded, normalize_lem}
use segnog.Ontology.Json.{Json, text, object, array, Items, nil, cons, end, field}
use segnog.Ontology.Load.{load, loader, load_lem, get_inverse-load}

abbrev ids : String → Json
ids s = object (field "@id" (text s) end)

abbrev class_json : String → Json → Items → Items
class_json uri parents rest =
    cons
      (object (
        field "@id" (text uri)
          (field "@type" (text "rdfs:Class") (field "rdfs:subClassOf" parents end))))
      rest

abbrev graph : Items
graph = class_json "schema:Thing" (array nil) (
    class_json "schema:Person" (ids "schema:Thing") (
      class_json "schema:Action" (ids "schema:Thing") (
        class_json "schema:BuyAction"
          (array (cons (ids "schema:Action") (cons (ids "bibo:Act") nil)))
          (class_json "bibo:Act" (array nil) (
            cons
              (object (
                field "@id" (text "schema:knowsAbout") (
                  field "@type" (array (cons (text "rdf:Property") nil)) (
                    field "schema:domainIncludes" (ids "schema:Person")
                      (field "schema:inverseOf" (ids "schema:subjectOf") end)))))
              nil)))))

abbrev class_of : String → List String → String × ClassInfo
class_of n ps = (n, record { name = n; uri = "?"; parents = ps; comment = "" })

-- `str.lower` on the names of the vocabulary that the examples look up.
abbrev lower : String → String
lower s = if s == "Person" then "person" else if s == "PERSON" then "person" else s

abbrev loaded : Option Ontology
loaded = load (λ j. "") lower graph

abbrev or_nothing : Option Ontology → Ontology
or_nothing none = record {
  classes = [];
  properties = [];
  inverses = [];
  class_lower = [];
  prop_lower = [];
}
or_nothing (some o) = o

abbrev small : Ontology
small = or_nothing loaded

load-graph : loaded ≡ some small
unfolding loader
load-graph = refl

parents_kept : keys small.classes ≡ "Thing" ∷ "Person" ∷ "Action" ∷ "BuyAction" ∷ []
unfolding loader
parents_kept = refl

-- The property of the vocabulary, with the inverse that it declares.
abbrev knows_about : PropertyInfo
knows_about = record {
  name = "knowsAbout";
  uri = "schema:knowsAbout";
  domain = "Person" ∷ [];
  range = [];
  inverse_of = some "subjectOf";
  comment = "";
}

small-IsLoaded : IsLoaded lower small × Distinct (keys small.inverses)
small-IsLoaded = load_lem (λ j. "") lower graph small load-graph

get_inverse-load_example : get_inverse small "knowsAbout" ≡ some "subjectOf"
unfolding loader
get_inverse-load_example =
    get_inverse-load (λ j. "") lower graph small "knowsAbout" "subjectOf" knows_about load-graph
      refl refl refl

ancestors_run : ancestors small "BuyAction" ≡ "BuyAction" ∷ "Action" ∷ "Thing" ∷ []
unfolding loader ancestors
ancestors_run = refl

ancestors_lem_example :
    Distinct (ancestors small "BuyAction")
    × ((b : String)
        → (contains b (ancestors small "BuyAction") ≡ true) ↔ Up small.classes "BuyAction" b)
ancestors_lem_example = ancestors_lem small "BuyAction"

excluded_runs : (is_excluded small "BuyAction" ≡ true) × (is_excluded small "Person" ≡ false)
unfolding loader is_excluded excluded_parents
excluded_runs = (refl, refl)

validate_triple_iff_example : (validate_triple small "Person" "knowsAbout" "Thing" ≡ true) ↔ (
    (prop : PropertyInfo) × (lookup "knowsAbout" small.properties ≡ some prop)
    × Meets small "Person" prop.domain
    × Meets small "Thing" prop.range)
validate_triple_iff_example = validate_triple_iff small "Person" "knowsAbout" "Thing"

all_inverses_run : lookup "subjectOf" (all_inverses small) ≡ some "knowsAbout"
unfolding loader all_inverses
all_inverses_run = refl

normalize_lem_example :
    ((contains (normalize_class lower small "human") (keys small.classes) ≡ true)
      ⊎ (normalize_class lower small "human" ≡ "Thing"))
    × ((contains (normalize_predicate lower small "human") (keys small.properties) ≡ true)
        ⊎ (normalize_predicate lower small "human" ≡ "relatedTo"))
normalize_lem_example = normalize_lem lower small "human" small-IsLoaded.0

normalize_runs :
    (normalize_class lower small "human" ≡ "Person")
    × (normalize_class lower small "Buy-Action!" ≡ "BuyAction")
    × (normalize_class lower small "galaxy" ≡ "Thing")
    × (normalize_predicate lower small "knows-about" ≡ "knowsAbout")
unfolding loader normalizer
normalize_runs = (refl, refl, refl, refl)

-- ===== src/Ontology/Inverses.antt =====
-- `get_inverse`, `is_symmetric`, `symmetric_predicates` and `all_inverses` of
-- ontology/schema_org.py.
use segnog.Prelude.{
  String, Bool, true, false, Option, none, some, List, [], ◌∷◌, ◌++◌, ◌≡◌, refl, ◌∙◌, ◌⊎◌, inl, inr,
  ◌||◌, ◌==◌, Dict, keys, lookup, insert, lookup-insert, lookup_absent, lookup_present,
  contains-insert, lookup_of_contains, contains, contains-append_one, Distinct, Bool-cases, arith,
  eq_iff, eq_self, if◌then◌else◌,
}
use segnog.Ontology.{Ontology}
use segnog.Ontology.Tables.{symmetric_names}

unfoldable pub get_inverse : Ontology → String → Option String
get_inverse o predicate = lookup predicate o.inverses

-- `inv == predicate` where `inv` may be None
pub is_name : Option String → String → Bool
is_name none name = false
is_name (some s) name = s == name

unfoldable pub is_symmetric : Ontology → String → Bool
unfolding is_name
is_symmetric o predicate =
    if contains predicate symmetric_names
    then true
    else is_name (lookup predicate o.inverses) predicate

-- `set.add` over the self-inverses of a dictionary
pub add_self_inverses : Dict String → List String → List String
add_self_inverses [] result = result
add_self_inverses ((name, inv) ∷ rest) result =
    add_self_inverses rest (if inv == name then result ++ name ∷ [] else result)

unfoldable pub symmetric_predicates : Ontology → List String
unfolding add_self_inverses
symmetric_predicates o = add_self_inverses o.inverses symmetric_names

-- `if v not in both: both[v] = k`, for the pairs of a dictionary
pub add_reversed : Dict String → Dict String → Dict String
add_reversed [] both = both
add_reversed ((k, v) ∷ rest) both =
    add_reversed rest (if contains v (keys both) then both else insert v k both)

unfoldable pub all_inverses : Ontology → Dict String
unfolding add_reversed
all_inverses o = add_reversed o.inverses o.inverses

contains-add_self_inverses :
    (p : String) (d : Dict String) (result : List String)
    → Distinct (keys d)
    → contains p (add_self_inverses d result) ≡ (contains p result || is_name (lookup p d) p)
unfolding add_self_inverses is_name lookup
contains-add_self_inverses p [] result dis = ground arith
contains-add_self_inverses p ((name, inv) ∷ rest) result dis = ground (
  arith,
  contains-add_self_inverses p rest result dis.1,
  contains-add_self_inverses p rest (result ++ name ∷ []) dis.1,
  contains-append_one p name result,
  lookup_absent name rest dis.0,
  eq_iff p name,
  eq_iff inv name,
  eq_iff inv p,
)

-- `is_symmetric` asks for membership in the set of symmetric predicates: the built-in ones, and
-- those that are their own inverse.
pub is_symmetric-symmetric_predicates :
    (o : Ontology) (p : String)
    → Distinct (keys o.inverses)
    → is_symmetric o p ≡ contains p (symmetric_predicates o)
unfolding is_symmetric symmetric_predicates
is_symmetric-symmetric_predicates o p dis =
    ground (arith, contains-add_self_inverses p o.inverses symmetric_names dis)

add_reversed-keeps :
    (p : String) (d both : Dict String)
    → contains p (keys both) ≡ true
    → lookup p (add_reversed d both) ≡ lookup p both
unfolding add_reversed
add_reversed-keeps p [] both h = refl
add_reversed-keeps p ((k, v) ∷ d) both h = ground (
  arith,
  add_reversed-keeps p d both h,
  add_reversed-keeps p d (insert v k both),
  contains-insert v p k both,
  lookup-insert v p k both,
  eq_iff p v,
)

contains-add_reversed :
    (p : String) (d both : Dict String)
    → contains p (keys both) ≡ true
    → contains p (keys (add_reversed d both)) ≡ true
contains-add_reversed p d both h =
    let (v, found) = lookup_of_contains p both h in
    lookup_present p v (add_reversed d both) (add_reversed-keeps p d both h ∙ found)

add_reversed-adds :
    (p v : String) (d both : Dict String)
    → lookup p d ≡ some v
    → contains v (keys (add_reversed d both)) ≡ true
unfolding add_reversed lookup
add_reversed-adds p v [] both h = cc
add_reversed-adds p v ((k, w) ∷ d) both h = elim (Bool-cases (p == k)) [
  | inl e ↦ ground (
    arith,
    contains-add_reversed v d both,
    contains-add_reversed v d (insert w k both),
    contains-insert w v k both,
    eq_iff v w,
    eq_self v,
    eq_iff p k,
  )
  | inr e ↦ ground (arith, add_reversed-adds p v d both, add_reversed-adds p v d (insert w k both))
]

add_reversed_sound :
    (p q : String) (d both : Dict String)
    → Distinct (keys d)
    → lookup p (add_reversed d both) ≡ some q
    → (lookup p both ≡ some q) ⊎ (lookup q d ≡ some p)
unfolding add_reversed lookup
add_reversed_sound p q [] both dis h = inl h
add_reversed_sound p q ((k, v) ∷ d) both dis h = ground (
  arith,
  add_reversed_sound p q d both dis.1,
  add_reversed_sound p q d (insert v k both) dis.1,
  lookup-insert v p k both,
  lookup_absent k d dis.0,
  eq_iff q k,
  eq_iff p v,
)

-- A declared inverse is kept by `all_inverses`, and the inverse has an inverse there too.
pub all_inverses-keeps :
    (o : Ontology) (p q : String)
    → get_inverse o p ≡ some q
    → (lookup p (all_inverses o) ≡ some q) × (contains q (keys (all_inverses o)) ≡ true)
unfolding all_inverses get_inverse
all_inverses-keeps o p q h = (
  add_reversed-keeps p o.inverses o.inverses (lookup_present p q o.inverses h) ∙ h,
  add_reversed-adds p q o.inverses o.inverses h,
)

-- If no inverse is listed twice, then every pair of `all_inverses` is a declared one or the reverse
-- of a declared one.
pub all_inverses_sound :
    (o : Ontology) (p q : String)
    → Distinct (keys o.inverses)
    → lookup p (all_inverses o) ≡ some q
    → (get_inverse o p ≡ some q) ⊎ (get_inverse o q ≡ some p)
unfolding all_inverses get_inverse
all_inverses_sound o p q dis h = add_reversed_sound p q o.inverses o.inverses dis h

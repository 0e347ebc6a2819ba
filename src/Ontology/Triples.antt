-- ===== src/Ontology/Triples.antt =====
-- `is_subclass_of` and `validate_triple` of ontology/schema_org.py over the class hierarchy.
use segnog.Prelude.{
  String, true, false, none, some, List, [], ◌∷◌, ◌≡◌, refl, sym, ◌∙◌, some_eq, ◌&&◌, ◌↔◌, ◌⊎◌, inl,
  inr, lookup, contains, Option-cases, arith,
}
use segnog.Ontology.{PropertyInfo, Ontology, ancestors, allows, is_subclass_of, validate_triple}
use segnog.Ontology.Hierarchy.{Up, ancestors_lem}
use segnog.Ontology.Excluded.{any_in_witness, contains-any_in}

-- `is_subclass_of` decides whether the parent is reached from the child by links to parents.
pub is_subclass_of_iff :
    (o : Ontology) (child parent : String)
    → (is_subclass_of o child parent ≡ true) ↔ Up o.classes child parent
unfolding is_subclass_of
is_subclass_of_iff o child parent = (ancestors_lem o child).1 parent

-- A type meets a list of types if the list is empty or has a type that it reaches.
abbrev pub Meets : Ontology → String → List String → Type 0
Meets o t names = (names ≡ []) ⊎ ((x : String) × (contains x names ≡ true) × Up o.classes t x)

allows_iff :
    (o : Ontology) (t : String) (names : List String)
    → (allows (ancestors o t) names ≡ true) ↔ Meets o t names
unfolding allows
allows_iff o t [] = (λ h. inl refl, λ m. refl)
allows_iff o t (d ∷ ds) = (
  λ h.
      let (x, p, q) = any_in_witness (ancestors o t) (d ∷ ds) h in
      inr (x, q, ((ancestors_lem o t).1 x).0 p),
  λ m. elim m [
    | inl empty ↦ cc
    | inr (x, q, u) ↦ contains-any_in x (ancestors o t) (d ∷ ds) (((ancestors_lem o t).1 x).1 u) q
  ],
)

validate-known :
    (o : Ontology) (s p t : String) (prop : PropertyInfo)
    → lookup p o.properties ≡ some prop
    → validate_triple o s p t
      ≡ (allows (ancestors o s) prop.domain && allows (ancestors o t) prop.range)
unfolding validate_triple
validate-known o s p t prop found = rw (found, validate_triple)

validate-unknown :
    (o : Ontology) (s p t : String) → lookup p o.properties ≡ none → validate_triple o s p t ≡ false
unfolding validate_triple
validate-unknown o s p t missing = rw (missing, validate_triple)

-- A triple is valid exactly if its predicate is a known property whose domain meets the subject's
-- type and whose range meets the object's, an empty domain or range meeting every type.
pub validate_triple_iff :
    (o : Ontology) (subj_type predicate obj_type : String)
    → (validate_triple o subj_type predicate obj_type ≡ true) ↔ (
        (prop : PropertyInfo) × (lookup predicate o.properties ≡ some prop)
        × Meets o subj_type prop.domain
        × Meets o obj_type prop.range)
validate_triple_iff o s p t = elim (Option-cases (lookup p o.properties)) [
  | inr missing ↦
      (λ h. cc (validate-unknown o s p t missing, h), λ (prop, found, d, r). cc (missing, found))
  | inl (prop, found) ↦
      let value = validate-known o s p t prop found in
      (
        λ h.
            let both = sym value ∙ h in
            (
              prop,
              found,
              (allows_iff o s prop.domain).0 (ground arith),
              (allows_iff o t prop.range).0 (ground arith),
            ),
        λ (prop', found', d, r).
            let same : prop' ≡ prop = some_eq (sym found' ∙ found) in
            let d' = (allows_iff o s prop.domain).1 (rw same at d) in
            let r' = (allows_iff o t prop.range).1 (rw same at r) in ground arith,
      )
]

-- ===== src/Ontology/Normalize/Canonical.antt =====
-- The names that `normalize_class` and `normalize_predicate` of ontology/schema_org.py return.
use segnog.Prelude.{
  String, true, false, Option, none, some, List, [], ◌∷◌, ◌≡◌, ◌≢◌, sym, ◌⊎◌, inl, inr, ◌==◌, Dict,
  keys, lookup, insert, lookup-insert, contains, contains-cons, contains-insert, lookup_of_contains,
  Bool-cases, arith, eq_iff,
}
use mathlib.Core.Path.{subst}
use segnog.Ontology.{Ontology}
use segnog.Ontology.Tables.{class_aliases, predicate_aliases}
use segnog.Ontology.Normalize.{
  add_lower, lower_index, alias_in, or_default, normalize, normalize_class, normalize_predicate,
  alphanumeric, camel_case,
}

module _ (lower : String → String) where
  -- The index of an ontology is built from its names.
  pub record IsLoaded (o : Ontology) : Type 0 where
    pub classes : o.class_lower ≡ lower_index lower (keys o.classes)
    pub properties : o.prop_lower ≡ lower_index lower (keys o.properties)

  -- Every entry of the index leads from a name's lower case to the name.
  abbrev Leads : List String → Dict String → Type 0
  Leads names index =
      (k v : String) → lookup k index ≡ some v → (contains v names ≡ true) × (lower v ≡ k)

  add_lower-Leads :
      (all names : List String) (index : Dict String)
      → ((x : String) → contains x names ≡ true → contains x all ≡ true)
      → Leads all index
      → Leads all (add_lower lower names index)
  unfolding add_lower
  add_lower-Leads all [] index sub leads = leads
  add_lower-Leads all (n ∷ names) index sub leads =
      add_lower-Leads all names (insert (lower n) n index)
        (λ x h. sub x (ground (arith, contains-cons x n names)))
        (λ k v h. elim (Bool-cases (k == lower n)) [
          | inl e ↦ ground (
            arith,
            lookup-insert (lower n) k n index,
            eq_iff k (lower n),
            sub n,
            contains-cons n n names,
            eq_iff n n,
          )
          | inr e ↦ leads k v (ground (arith, lookup-insert (lower n) k n index))
        ])

  lower_index-Leads : (names : List String) → Leads names (lower_index lower names)
  unfolding lower_index lookup
  lower_index-Leads names = add_lower-Leads names names [] (λ x h. h) (λ k v h. cc)

  add_lower-keeps :
      (k : String) (names : List String) (index : Dict String)
      → contains k (keys index) ≡ true
      → contains k (keys (add_lower lower names index)) ≡ true
  unfolding add_lower
  add_lower-keeps k [] index h = h
  add_lower-keeps k (n ∷ names) index h =
      add_lower-keeps k names (insert (lower n) n index)
        (ground (arith, contains-insert (lower n) k n index))

  add_lower-adds :
      (k : String) (names : List String) (index : Dict String)
      → contains k names ≡ true
      → contains (lower k) (keys (add_lower lower names index)) ≡ true
  unfolding add_lower contains
  add_lower-adds k [] index h = cc
  add_lower-adds k (n ∷ names) index h = elim (Bool-cases (k == n)) [
    | inl e ↦ add_lower-keeps (lower k) names (insert (lower n) n index) (
        ground (
          arith,
          contains-insert (lower n) (lower k) n index,
          eq_iff k n,
          eq_iff (lower k) (lower n),
        ))
    | inr e ↦ add_lower-adds k names (insert (lower n) n index) (ground arith)
  ]

  module _ (names : List String) (aliases : Dict String) (rewrite : String → String)
      (fallback : String) where
    found-canonical :
        (k : String)
        → contains k (keys (lower_index lower names)) ≡ true
        → (contains (or_default (lookup k (lower_index lower names)) fallback) names ≡ true)
          × (lower (or_default (lookup k (lower_index lower names)) fallback) ≡ k)
    unfolding or_default
    found-canonical k h =
        let (v, found) = lookup_of_contains k (lower_index lower names) h in
        rw found (lower_index-Leads names k v found)

    alias-canonical :
        (alias : Option String)
        → alias_in alias names ≡ true
        → contains (or_default alias fallback) names ≡ true
    unfolding alias_in or_default
    alias-canonical none h = cc
    alias-canonical (some a) h = ground arith

    normalize-canonical :
        (raw : String)
        → (contains
              (normalize lower names (lower_index lower names) aliases rewrite fallback raw)
              names
            ≡ true)
          ⊎ (normalize lower names (lower_index lower names) aliases rewrite fallback raw
              ≡ fallback)
    unfolding normalize
    normalize-canonical raw = ground (
      arith,
      found-canonical (lower raw),
      alias-canonical (lookup (lower raw) aliases),
      found-canonical (lower (rewrite raw)),
    )

    -- A name that is known up to case is found, in the vocabulary's spelling.
    normalize_case :
        (raw k : String)
        → raw ≢ ""
        → contains k names ≡ true
        → lower raw ≡ lower k
        → (contains
              (normalize lower names (lower_index lower names) aliases rewrite fallback raw)
              names
            ≡ true)
          × (lower (normalize lower names (lower_index lower names) aliases rewrite fallback raw)
              ≡ lower k)
    unfolding normalize lower_index
    normalize_case raw k filled known same =
        ground (arith, eq_iff raw "", found-canonical (lower raw), add_lower-adds k names [] known)

    normalize_fixed :
        (x : String)
        → contains x names ≡ true
        → contains "" names ≡ false
        → normalize lower names (lower_index lower names) aliases rewrite fallback x ≡ x
    unfolding normalize
    normalize_fixed x known named = ground (arith, eq_iff x "")

    normalize_idem :
        (raw : String)
        → contains fallback names ≡ true
        → contains "" names ≡ false
        → normalize lower names
            (lower_index lower names)
            aliases
            rewrite
            fallback
            (normalize lower names (lower_index lower names) aliases rewrite fallback raw)
          ≡ normalize lower names (lower_index lower names) aliases rewrite fallback raw
    normalize_idem raw known named =
        let result = normalize lower names (lower_index lower names) aliases rewrite fallback raw in
        let h : contains result names ≡ true = elim (normalize-canonical raw) [
          | inl found ↦ found
          | inr same ↦ subst (λ (x : String). contains x names ≡ true) (sym same) known
        ] in
        normalize_fixed result h named

  -- A normalized class is a class of the vocabulary, or "Thing"; a normalized predicate is a
  -- property of the vocabulary, or "relatedTo".
  pub normalize_lem :
      (o : Ontology) (raw : String)
      → IsLoaded o
      → ((contains (normalize_class lower o raw) (keys o.classes) ≡ true)
          ⊎ (normalize_class lower o raw ≡ "Thing"))
        × ((contains (normalize_predicate lower o raw) (keys o.properties) ≡ true)
            ⊎ (normalize_predicate lower o raw ≡ "relatedTo"))
  unfolding normalize_class normalize_predicate
  normalize_lem o raw loaded = (
    rw loaded.classes (normalize-canonical (keys o.classes) class_aliases alphanumeric "Thing" raw),
    rw loaded.properties
        (normalize-canonical (keys o.properties) predicate_aliases camel_case "relatedTo" raw),
  )

  -- A class name that is spelled in another case is found: the result is a class whose lower case
  -- is the same.
  pub normalize_class_case :
      (o : Ontology) (raw k : String)
      → IsLoaded o
      → raw ≢ ""
      → contains k (keys o.classes) ≡ true
      → lower raw ≡ lower k
      → (contains (normalize_class lower o raw) (keys o.classes) ≡ true)
        × (lower (normalize_class lower o raw) ≡ lower k)
  unfolding normalize_class
  normalize_class_case o raw k loaded filled known same =
      rw loaded.classes
        (normalize_case (keys o.classes) class_aliases alphanumeric "Thing" raw k filled known same)

  -- If "Thing" is a class and the empty text is none, then normalizing a class twice is
  -- normalizing it once.
  pub normalize_class_idem :
      (o : Ontology) (raw : String)
      → IsLoaded o
      → contains "Thing" (keys o.classes) ≡ true
      → contains "" (keys o.classes) ≡ false
      → normalize_class lower o (normalize_class lower o raw) ≡ normalize_class lower o raw
  unfolding normalize_class
  normalize_class_idem o raw loaded known named =
      rw loaded.classes
        (normalize_idem (keys o.classes) class_aliases alphanumeric "Thing" raw known named)

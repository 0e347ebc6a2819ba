-- ===== src/Ontology/Load.antt =====
-- `SchemaOrgOntology.__init__` of ontology/schema_org.py: from the entries of the vocabulary's graph
-- to the dictionaries. An exception of the reading is `none`.
use mathlib.Core.Path.{subst}
use segnog.Prelude.{
  String, false, Option, none, some, List, [], ◌≡◌, refl, ◌==◌, Dict, keys, lookup, insert,
  lookup-insert, contains, Distinct, Distinct-insert, some_eq, Option-cases, Bool-cases, inl, inr,
  arith, if◌then◌else◌,
}
use segnog.Ontology.{ClassInfo, PropertyInfo, Ontology}
use segnog.Ontology.Tables.{manual_inverses}
use segnog.Ontology.Json.{
  Json, text, object, array, empty, other, Items, nil, cons, Fields, end, field, get, extract_ids,
  extract_label, strip_prefix, schema_names, types_of,
}
use segnog.Ontology.Inverses.{get_inverse}
use segnog.Ontology.Normalize.{lower_index}
use segnog.Ontology.Normalize.Canonical.{IsLoaded}

abbrev or_json : Option Json → Json
or_json none = array nil
or_json (some v) = v

abbrev or_text : Option Json → Json
or_text none = text ""
or_text (some v) = v

-- Only a text has `startswith`.
text_of : Json → Option String
text_of (text s) = some s
text_of _ = none

-- `inv_id[len("schema:"):]` if there is one; the outer `none` is an exception.
inverse_name : Option Json → Option (Option String)
unfolding strip_prefix get
inverse_name none = some none
inverse_name (some (object fields)) = elim (get "@id" fields) [
  | none ↦ some none
  | some id ↦ elim id [
    | text s ↦ some (strip_prefix "schema:" s)
    | object f ↦ elim f [ end ↦ some none | field k v r ↦ none ]
    | array a ↦ elim a [ nil ↦ some none | cons v r ↦ none ]
    | empty ↦ some none
    | other ↦ none
  ]
]
inverse_name (some v) = some none

-- The dictionaries that the loop over the graph fills.
pub record Tables : Type 0 where
  pub classes : Dict ClassInfo
  pub properties : Dict PropertyInfo
  pub inverses : Dict String

abbrev start_tables : Tables
start_tables = record { classes = []; properties = []; inverses = manual_inverses }

-- `if inverse_name: self._inverses[name] = inverse_name`
put_inverse : String → Option String → Dict String → Dict String
put_inverse name none inverses = inverses
put_inverse name (some inv) inverses = if inv == "" then inverses else insert name inv inverses

put_property : String → PropertyInfo → Tables → Tables
unfolding put_inverse
put_property name info t = record t {
  properties = insert name info t.properties;
  inverses = put_inverse name info.inverse_of t.inverses;
}

module _ (to_text : Json → String) where
  class_entry : String → String → Fields → Option ClassInfo
  unfolding schema_names extract_ids extract_label get
  class_entry name uri entry =
      elim (schema_names (extract_ids (or_json (get "rdfs:subClassOf" entry)))) [
        | none ↦ none
        | some parents ↦ some (record {
          name = name;
          uri = uri;
          parents = parents;
          comment = extract_label to_text (or_text (get "rdfs:comment" entry));
        })
      ]

  property_entry : String → String → Fields → Option PropertyInfo
  unfolding schema_names extract_ids extract_label get inverse_name
  property_entry name uri entry =
      elim (schema_names (extract_ids (or_json (get "schema:domainIncludes" entry)))) [
        | none ↦ none
        | some domain ↦
            elim (schema_names (extract_ids (or_json (get "schema:rangeIncludes" entry)))) [
              | none ↦ none
              | some range ↦ elim (inverse_name (get "schema:inverseOf" entry)) [
                | none ↦ none
                | some inverse ↦ some (record {
                  name = name;
                  uri = uri;
                  domain = domain;
                  range = range;
                  inverse_of = inverse;
                  comment = extract_label to_text (or_text (get "rdfs:comment" entry));
                })
              ]
            ]
      ]

  -- The body of the loop for an entry whose id is "schema:" and `name`.
  add_entry : String → String → List String → Fields → Tables → Option Tables
  add_entry name uri types entry t =
      if contains "rdfs:Class" types
      then (elim (class_entry name uri entry) [
        | none ↦ none
        | some info ↦ some (record t { classes = insert name info t.classes })
      ])
      else if contains "rdf:Property" types
      then (elim (property_entry name uri entry) [
        | none ↦ none
        | some info ↦ some (put_property name info t)
      ])
      else some t

  step_entry : Json → Tables → Option Tables
  step_entry (object entry) t = elim (text_of (or_text (get "@id" entry))) [
    | none ↦ none
    | some uri ↦ elim (strip_prefix "schema:" uri) [
      | none ↦ some t
      | some name ↦ elim (types_of (get "@type" entry)) [
        | none ↦ none
        | some types ↦ add_entry name uri types entry t
      ]
    ]
  ]
  step_entry _ t = none

  pub load_entries : Items → Tables → Option Tables
  load_entries nil t = some t
  load_entries (cons entry rest) t = elim (step_entry entry t) [
    | none ↦ none
    | some t' ↦ load_entries rest t'
  ]

  module _ (lower : String → String) where
    pub index_tables : Tables → Ontology
    unfolding lower_index
    index_tables t = record {
      classes = t.classes;
      properties = t.properties;
      inverses = t.inverses;
      class_lower = lower_index lower (keys t.classes);
      prop_lower = lower_index lower (keys t.properties);
    }

    unfoldable pub load : Items → Option Ontology
    load graph = elim (load_entries graph start_tables) [
      | none ↦ none
      | some t ↦ some (index_tables t)
    ]

-- Opens the loader in a run.
unfoldable pub loader : Unit {0}
unfolding load load_entries step_entry text_of add_entry class_entry property_entry inverse_name
    put_property put_inverse index_tables lower_index get extract_ids extract_label strip_prefix
    schema_names types_of manual_inverses lookup insert contains
loader = tt

-- What the loop keeps: no inverse is listed twice, and a property's declared inverse is the one
-- that is listed.
record IsKept (t : Tables) : Type 0 where
  distinct : Distinct (keys t.inverses)
  listed :
      (n v : String) (p : PropertyInfo)
      → lookup n t.properties ≡ some p
      → p.inverse_of ≡ some v
      → (v == "") ≡ false
      → lookup n t.inverses ≡ some v

lookup-put_inverse :
    (name n : String) (inverse : Option String) (d : Dict String)
    → lookup n (put_inverse name inverse d) ≡ (
        if n == name
        then (elim inverse [
          | none ↦ lookup n d
          | some inv ↦ if inv == "" then lookup n d else some inv
        ])
        else lookup n d)
unfolding put_inverse
lookup-put_inverse name n none d = ground arith
lookup-put_inverse name n (some inv) d = ground (arith, lookup-insert name n inv d)

Distinct-put_inverse :
    (name : String) (inverse : Option String) (d : Dict String)
    → Distinct (keys d)
    → Distinct (keys (put_inverse name inverse d))
unfolding put_inverse
Distinct-put_inverse name none d dis = dis
Distinct-put_inverse name (some inv) d dis = elim (Bool-cases (inv == "")) [
  | inl e ↦ rw e dis
  | inr e ↦ rw e (Distinct-insert name inv d dis)
]

put_property-IsKept :
    (name : String) (info : PropertyInfo) (t : Tables)
    → IsKept t
    → IsKept (put_property name info t)
unfolding put_property
put_property-IsKept name info t k = record {
  distinct = Distinct-put_inverse name info.inverse_of t.inverses k.distinct;
  listed = λ n v p found declared named. ground (
    arith,
    lookup-insert name n info t.properties,
    lookup-put_inverse name n info.inverse_of t.inverses,
    k.listed n v p,
  );
}

start-IsKept : IsKept start_tables
unfolding manual_inverses contains lookup
start-IsKept = record { distinct = (refl, (refl, tt)); listed = λ n v p h. cc }

module _ (to_text : Json → String) where
  add_entry-IsKept :
      (name uri : String) (types : List String) (entry : Fields) (t t' : Tables)
      → add_entry to_text name uri types entry t ≡ some t'
      → IsKept t
      → IsKept t'
  unfolding add_entry
  add_entry-IsKept name uri types entry t t' h k = elim (Bool-cases (contains "rdfs:Class" types)) [
    | inl cls ↦ elim (Option-cases (class_entry to_text name uri entry)) [
      | inr bad ↦ cc (rw (cls, bad) at h)
      | inl (info, fine) ↦
          subst IsKept (some_eq (rw (cls, fine) at h))
            (record { distinct = k.distinct; listed = k.listed })
    ]
    | inr other_type ↦ elim (Bool-cases (contains "rdf:Property" types)) [
      | inr neither ↦ subst IsKept (some_eq (rw (other_type, neither) at h)) k
      | inl prop ↦ elim (Option-cases (property_entry to_text name uri entry)) [
        | inr bad ↦ cc (rw (other_type, prop, bad) at h)
        | inl (info, fine) ↦
            subst IsKept (some_eq (rw (other_type, prop, fine) at h))
              (put_property-IsKept name info t k)
      ]
    ]
  ]

  step_entry-IsKept :
      (entry : Json) (t t' : Tables) → step_entry to_text entry t ≡ some t' → IsKept t → IsKept t'
  unfolding step_entry
  step_entry-IsKept (object entry) t t' h k =
      elim (Option-cases (text_of (or_text (get "@id" entry)))) [
        | inr bad ↦ cc (rw (bad, step_entry) at h)
        | inl (uri, id) ↦ elim (Option-cases (strip_prefix "schema:" uri)) [
          | inr foreign ↦ subst IsKept (some_eq (rw (id, foreign, step_entry) at h)) k
          | inl (name, own) ↦ elim (Option-cases (types_of (get "@type" entry))) [
            | inr bad ↦ cc (rw (id, own, bad, step_entry) at h)
            | inl (types, typed) ↦
                add_entry-IsKept name uri types entry t t' (rw (id, own, typed, step_entry) at h) k
          ]
        ]
      ]
  step_entry-IsKept (text s) t t' h k = cc
  step_entry-IsKept _ t t' h k = cc

  load_entries-IsKept :
      (graph : Items) (t t' : Tables)
      → load_entries to_text graph t ≡ some t'
      → IsKept t
      → IsKept t'
  unfolding load_entries
  load_entries-IsKept nil t t' h k = subst IsKept (some_eq h) k
  load_entries-IsKept (cons entry rest) t t' h k =
      elim (Option-cases (step_entry to_text entry t)) [
        | inr bad ↦ cc (rw (bad, load_entries) at h)
        | inl (mid, fine) ↦
            load_entries-IsKept rest mid t' (rw (fine, load_entries) at h)
              (step_entry-IsKept entry t mid fine k)
      ]

  load-all :
      (lower : String → String) (graph : Items) (o : Ontology)
      → load to_text lower graph ≡ some o
      → IsLoaded lower o
        × Distinct (keys o.inverses)
        × ((n v : String) (p : PropertyInfo)
            → lookup n o.properties ≡ some p
            → p.inverse_of ≡ some v
            → (v == "") ≡ false
            → get_inverse o n ≡ some v)
  unfolding load index_tables get_inverse
  load-all lower graph o h = elim (Option-cases (load_entries to_text graph start_tables)) [
    | inr bad ↦ cc (rw (bad, load) at h)
    | inl (t, fine) ↦
        let k = load_entries-IsKept graph start_tables t fine start-IsKept in
        let same : index_tables to_text lower t ≡ o = some_eq (rw (fine, load) at h) in
        subst
          (λ (u : Ontology).
            IsLoaded lower u
            × Distinct (keys u.inverses)
            × ((n v : String) (p : PropertyInfo)
                → lookup n u.properties ≡ some p
                → p.inverse_of ≡ some v
                → (v == "") ≡ false
                → lookup n u.inverses ≡ some v))
          same (record { classes = refl; properties = refl }, k.distinct, k.listed)
  ]

  -- A vocabulary that is loaded has the indexes of its names, and lists no inverse twice.
  pub load_lem :
      (lower : String → String) (graph : Items) (o : Ontology)
      → load to_text lower graph ≡ some o
      → IsLoaded lower o × Distinct (keys o.inverses)
  load_lem lower graph o h =
      let (loaded, distinct, listed) = load-all lower graph o h in (loaded, distinct)

  -- In a vocabulary that is loaded, `get_inverse` gives for a property that declares an inverse with
  -- a name that one, whatever the manual pairs and the other properties say.
  pub get_inverse-load :
      (lower : String → String) (graph : Items) (o : Ontology) (n v : String) (p : PropertyInfo)
      → load to_text lower graph ≡ some o
      → lookup n o.properties ≡ some p
      → p.inverse_of ≡ some v
      → (v == "") ≡ false
      → get_inverse o n ≡ some v
  get_inverse-load lower graph o n v p h =
      let (loaded, distinct, listed) = load-all lower graph o h in listed n v p

-- ===== src/Entities/Relates.antt =====
-- What storing a relationship (storage/long_term/ontology_store.py `store_relates`) makes of the
-- edges, with those that the vocabulary lets follow.
pub mod Merging
use segnog.Prelude.{
  ℕ, String, true, false, Option, none, some, List, [], ◌∷◌, ◌≡◌, refl, ◌∙◌, ◌⊎◌, ap, ◌&&◌, All,
  All-map, Among, inl, inr, sym, Bool-cases, eq_self, arith, if◌then◌else◌,
}
use segnog.Scoring.{Numbers}
use segnog.Ontology.Inverses.{get_inverse, is_symmetric}
use segnog.Ontology.Normalize.{normalize_predicate}
use segnog.Exec.{pure, attempt, gets, branch, ◌>>=◌}
use segnog.Exec.Triples.{
  Triple, NoRaise, returned, Triple-pure, Triple-branch, Triple-bind, Triple-weaken, Triple-given,
}
use segnog.Entities.{
  Edge, Kg, Services, send, relate, is_relates, is_node, merge_relates, edge_of, other_inverse,
  merge_relates_edge, store_inverse, store_reverse, infer_edges, store_edges, store_relates,
}
use segnog.Entities.Keeps.{sent}
use segnog.Entities.Keeps.Apart.{SameGraph}
use segnog.Entities.Relates.Merging.{
  Stands, IsStrict, is_relates_self, Stands-cons, merge_relates-Stands, merge_relates-keeps,
}

module _ {E F : Type 0} (o : Services E F) where
  abbrev with_reverse : String → String → String → F → ℕ → List (Edge F) → List (Edge F)
  with_reverse subject predicate object confidence now es =
      if is_symmetric o.ontology predicate
      then edge_of o object predicate subject confidence now ∷ es
      else es

  abbrev with_inverse : String → String → F → ℕ → Option String → List (Edge F) → List (Edge F)
  with_inverse subject object confidence now none es = es
  with_inverse subject object confidence now (some q) es =
      edge_of o object q subject confidence now ∷ es

  -- The edge, its reverse if the predicate is symmetric, and the one with the inverse predicate.
  abbrev pub inferred : String → String → String → F → ℕ → List (Edge F)
  inferred subject predicate object confidence now =
      with_inverse subject object confidence now
        (other_inverse predicate (get_inverse o.ontology predicate))
        (with_reverse subject predicate object confidence now
          (edge_of o subject predicate object confidence now ∷ []))

module _ {E F : Type 0} (o : Services E F) (fine : (k : ℕ) → o.faults k ≡ false)
    (strict : IsStrict o.numbers) (d : Kg E F) where
  -- The nodes of `d`, its edges, and those listed.
  record Grown (es : List (Edge F)) (d' : Kg E F) : Type 0 where
    nodes : d'.nodes ≡ d.nodes
    added : All (λ e. Stands o.numbers e d'.relates) es
    kept : (e : Edge F) → Stands o.numbers e d.relates → Stands o.numbers e d'.relates

  Triple-merge :
      (e : Edge F) (es : List (Edge F))
      → (is_node e.subject d && is_node e.object d) ≡ true
      → Triple (Grown es) (merge_relates_edge o e) (λ r d'. (r ≡ true) × Grown (e ∷ es) d') NoRaise
  unfolding merge_relates_edge attempt send relate is_node pure
  Triple-merge e es both = record {
    at = λ d' h.
        rw (fine d'.queries, h.nodes, both)
          (
            refl,
            record {
              nodes = refl;
              added = (
                merge_relates-Stands o.numbers strict e d'.relates,
                All-map _ _ es (λ f. merge_relates-keeps o.numbers strict e f d'.relates) h.added,
              );
              kept = λ f was. merge_relates-keeps o.numbers strict e f d'.relates (h.kept f was);
            },
          );
  }

  module _ (subject predicate object : String) (confidence : F) (now : ℕ)
      (both : (is_node subject d && is_node object d) ≡ true) where
    turned : (is_node object d && is_node subject d) ≡ true
    turned = ground arith

    Triple-store_reverse :
        (es : List (Edge F))
        → Triple
            (Grown es)
            (store_reverse o subject predicate object confidence now)
            (λ r. Grown (with_reverse o subject predicate object confidence now es))
            NoRaise
    unfolding store_reverse
    Triple-store_reverse es = elim (Bool-cases (is_symmetric o.ontology predicate)) [
      | inl same ↦ rw same (
          Triple-weaken (merge_relates_edge o reverse) (λ d' h. h) (λ r d' h. h.1) (λ d' h. h)
            (Triple-merge reverse es turned))
      | inr other ↦ rw other (Triple-pure true (λ d' h. h))
    ]
      where
        reverse : Edge F
        reverse = edge_of o object predicate subject confidence now

    Triple-store_inverse :
        (q : Option String) (es : List (Edge F))
        → Triple
            (Grown es)
            (store_inverse o subject object confidence now q)
            (λ r. Grown (with_inverse o subject object confidence now q es))
            NoRaise
    unfolding store_inverse
    Triple-store_inverse none es = Triple-pure true (λ d' h. h)
    Triple-store_inverse (some q) es =
        let inverse = edge_of o object q subject confidence now in
        Triple-weaken (merge_relates_edge o inverse) (λ d' h. h) (λ r d' h. h.1) (λ d' h. h)
          (Triple-merge inverse es turned)

    Triple-infer_edges :
        Triple
          (Grown (edge_of o subject predicate object confidence now ∷ []))
          (infer_edges o subject predicate object confidence now)
          (λ r d'. (r ≡ true) × Grown (inferred o subject predicate object confidence now) d')
          NoRaise
    unfolding infer_edges
    Triple-infer_edges =
        let forward = edge_of o subject predicate object confidence now in
        let q = other_inverse predicate (get_inverse o.ontology predicate) in
        let more = with_reverse o subject predicate object confidence now (forward ∷ []) in
        Triple-bind (store_reverse o subject predicate object confidence now) _ (λ _. Grown more)
          (Triple-store_reverse (forward ∷ []))
          (λ _.
            Triple-bind (store_inverse o subject object confidence now q) (λ _. pure true)
              (λ _. Grown (with_inverse o subject object confidence now q more))
              (Triple-store_inverse q more) (λ _. Triple-pure true (λ d' h. (refl, h))))

    Triple-store_edges :
        Triple
          (Grown [])
          (store_edges o subject predicate object confidence now)
          (λ r d'. (r ≡ true) × Grown (inferred o subject predicate object confidence now) d')
          NoRaise
    unfolding store_edges
    Triple-store_edges =
        let forward = edge_of o subject predicate object confidence now in
        Triple-bind (merge_relates_edge o forward) _ (λ r d'. (r ≡ true) × Grown (forward ∷ []) d')
          (Triple-merge forward [] both)
          (λ stored.
            Triple-branch stored (infer_edges o subject predicate object confidence now)
              (pure false)
              (λ e.
                Triple-weaken (infer_edges o subject predicate object confidence now) (λ d' h. h.1)
                  (λ r d' h. h) (λ d' h. h) Triple-infer_edges)
              (λ e.
                Triple-given (pure false) (λ d' h. h.0) (λ contrary. absurd (cc (e, contrary)))))

  merge_missing :
      (e : Edge F)
      → (is_node e.subject d && is_node e.object d) ≡ false
      → merge_relates_edge o e d ≡ (sent d, some false)
  unfolding merge_relates_edge attempt send relate is_node pure
  merge_missing e missing = rw (fine d.queries, missing) refl

  store_edges_missing :
      (subject predicate object : String) (confidence : F) (now : ℕ)
      → (is_node subject d && is_node object d) ≡ false
      → ((store_edges o subject predicate object confidence now d).1 ≡ some false)
        × SameGraph d (store_edges o subject predicate object confidence now d).0
  unfolding store_edges ◌>>=◌ branch pure
  store_edges_missing subject predicate object confidence now missing =
      rw (merge_missing (edge_of o subject predicate object confidence now) missing)
        (refl, (refl, refl))

module _ {F : Type 0} (n : Numbers F) (strict : IsStrict n) where
  each-Stands : (es : List (Edge F)) → All (λ e. Stands n e es) es
  each-Stands [] = tt
  each-Stands (e ∷ es) = (
    (e, inl refl, is_relates_self n strict e, strict.0 e.confidence),
    All-map _ (λ f. Stands n f (e ∷ es)) es (λ f. Stands-cons n strict f e es) (each-Stands es),
  )

-- If no query raises and the comparison of confidences is a strict order, then storing a relationship
-- between two nodes that are there returns true, and afterwards the edge is there, its reverse if the
-- predicate is symmetric, and the edge back with the inverse predicate if that is another one, with
-- the confidence given or a greater one, and so is every earlier edge with its confidence or a
-- greater one. If one of the nodes is missing it returns false and changes neither nodes nor edges.
pub store_relates-inferred :
    {E F : Type 0} (o : Services E F) (subject predicate object : String) (confidence : F)
    (d : Kg E F)
    → ((k : ℕ) → o.faults k ≡ false)
    → IsStrict o.numbers
    → let canonical = normalize_predicate o.lower o.ontology predicate in
      let ran = store_relates o subject predicate object confidence d in
      (((is_node subject d && is_node object d) ≡ true)
        × (ran.1 ≡ some true)
        × All
            (λ e. Stands o.numbers e ran.0.relates)
            (inferred o subject canonical object confidence (o.clock d))
        × All (λ e. Stands o.numbers e ran.0.relates) d.relates)
      ⊎ (((is_node subject d && is_node object d) ≡ false)
          × (ran.1 ≡ some false)
          × SameGraph d ran.0)
unfolding store_relates gets ◌>>=◌
store_relates-inferred o subject predicate object confidence d fine strict =
    let canonical = normalize_predicate o.lower o.ontology predicate in
    elim (Bool-cases (is_node subject d && is_node object d)) [
      | inl both ↦
          let (r, ends, h) =
            returned (store_edges o subject canonical object confidence (o.clock d)) d
              (Triple-store_edges o fine strict d subject canonical object confidence (o.clock d)
                both)
              (record { nodes = refl; added = tt; kept = λ e h. h }) in
          inl (
            both,
            ends ∙ ap some h.0,
            h.1.added,
            All-map _ _ d.relates h.1.kept (each-Stands o.numbers strict d.relates),
          )
      | inr missing ↦
          let (answer, graph) =
            store_edges_missing o fine strict d subject canonical object confidence (o.clock d)
              missing in
          inr (missing, answer, graph)
    ]

-- ===== src/Entities/Linked.antt =====
-- The shape of the graph of entities, whatever the ontology update
-- (intelligence/graph/ontology_pipeline.py) and its failures do to it.
use segnog.Prelude.{
  String, true, false, List, [], ◌∷◌, ◌≡◌, ◌&&◌, Dict, insert, keys, lookup, contains,
  contains-insert, All, All-map, inl, inr, Bool-cases, eq_iff, arith,
}
use segnog.Scoring.{Numbers}
use segnog.Entities.{
  OntologyNode, Edge, Kg, Services, merge_node, refresh, relate, is_relates, is_node, merge_relates,
}
use segnog.Entities.Pipeline.{
  EpisodeText, Extraction, update_group_ontology, fast_coverage_ontology,
}
use segnog.Exec.Always.{Always-after}
use segnog.Entities.Keeps.{IsKept}
use segnog.Entities.Keeps.Apart.{IsApart, graph-IsKept}
use segnog.Entities.Keeps.Update.{Always-update, Always-fast}
use segnog.Entities.Keeps.Writing.{Always-summarized, Always-named}

-- An edge joins two of the names.
abbrev pub Joins : {E F : Type 0} → Dict (OntologyNode E) → Edge F → Type 0
Joins nodes e = (contains e.subject (keys nodes) ≡ true) × (contains e.object (keys nodes) ≡ true)

-- No edge has the subject, the predicate and the object of a later one.
abbrev pub Single : {F : Type 0} → List (Edge F) → Type 0
Single [] = Unit
Single (e ∷ es) = All (λ e'. is_relates e.subject e.predicate e.object e' ≡ false) es × Single es

pub record IsLinked {E F : Type 0} (nodes : Dict (OntologyNode E)) (relates : List (Edge F))
    : Type 0 where
  pub joined : All (Joins nodes) relates
  pub single : Single relates

module _ {F : Type 0} (n : Numbers F) where
  All-merge_relates :
      (P : Edge F → Type 0) (e : Edge F) (es : List (Edge F))
      → P e
      → ((old : Edge F) (c : F) → P old → P (record old { confidence = c }))
      → All P es
      → All P (merge_relates n e es)
  unfolding merge_relates
  All-merge_relates P e [] p keep h = (p, tt)
  All-merge_relates P e (old ∷ es) p keep h =
      elim (Bool-cases (is_relates e.subject e.predicate e.object old)) [
        | inl same ↦ rw same (keep old _ h.0, h.1)
        | inr other ↦ rw other (h.0, All-merge_relates P e es p keep h.1)
      ]

  Single-merge_relates :
      (e : Edge F) (es : List (Edge F)) → Single es → Single (merge_relates n e es)
  unfolding merge_relates is_relates
  Single-merge_relates e [] h = (tt, tt)
  Single-merge_relates e (old ∷ es) h =
      elim (Bool-cases (is_relates e.subject e.predicate e.object old)) [
        | inl same ↦ rw same h
        | inr other ↦ rw other (
          All-merge_relates (λ e'. is_relates old.subject old.predicate old.object e' ≡ false) e es
              (apart other) (λ old' c h'. h') h.0,
          Single-merge_relates e es h.1,
        )
      ]
    where
      apart :
          is_relates e.subject e.predicate e.object old ≡ false
          → is_relates old.subject old.predicate old.object e ≡ false
      apart h' = ground (
        arith,
        eq_iff old.subject e.subject,
        eq_iff e.subject old.subject,
        eq_iff old.predicate e.predicate,
        eq_iff e.predicate old.predicate,
        eq_iff old.object e.object,
        eq_iff e.object old.object,
      )

module _ {E F : Type 0} where
  relate-IsLinked :
      (n : Numbers F) (e : Edge F) (d : Kg E F)
      → IsLinked d.nodes d.relates
      → IsLinked (relate n e d).0.nodes (relate n e d).0.relates
  unfolding relate is_node
  relate-IsLinked n e d h = elim (Bool-cases (is_node e.subject d && is_node e.object d)) [
    | inl both ↦ rw both (record {
      joined =
          All-merge_relates n (Joins d.nodes) e d.relates (ground arith, ground arith)
            (λ old c j. j) h.joined;
      single = Single-merge_relates n e d.relates h.single;
    })
    | inr missing ↦ rw missing h
  ]

  still :
      (name : String) (node : OntologyNode E) (d : Kg E F) (e : Edge F)
      → Joins d.nodes e
      → Joins (insert name node d.nodes) e
  still name node d e j = (
    ground (arith, contains-insert name e.subject node d.nodes, j.0),
    ground (arith, contains-insert name e.object node d.nodes, j.1),
  )

  merge_node-IsLinked :
      (name : String) (fresh : OntologyNode E) (d : Kg E F)
      → IsLinked d.nodes d.relates
      → IsLinked (merge_node name fresh d).0.nodes (merge_node name fresh d).0.relates
  unfolding merge_node
  merge_node-IsLinked name fresh d h =
      let node = refresh (lookup name d.nodes) fresh in
      record {
        joined =
            All-map _ (Joins (insert name node d.nodes)) d.relates (still name node d) h.joined;
        single = h.single;
      }

-- If the calls of the causal store leave the entities and the edges between them alone, then the
-- graph keeps its shape through the ontology update and through the fast one, whichever queries and
-- calls raise and whatever the language model answers: an edge joins two names that have a node, and
-- no two edges have the same subject, predicate and object.
pub update_group_ontology-IsLinked :
    {E F C : Type 0} (o : Services E F) (x : Extraction E F C) (group_id combined_text : String)
    (episodes : List EpisodeText) (d : Kg E F)
    → IsApart x
    → IsLinked d.nodes d.relates
    → IsLinked
        (update_group_ontology o x group_id episodes combined_text d).0.nodes
        (update_group_ontology o x group_id episodes combined_text d).0.relates
      × IsLinked
          (fast_coverage_ontology o x group_id episodes d).0.nodes
          (fast_coverage_ontology o x group_id episodes d).0.relates
update_group_ontology-IsLinked {E = E} {F = F} o x group_id combined_text episodes d apart h =
    let P : Kg E F → Type 0 = λ d'. IsLinked d'.nodes d'.relates in
    let kept : IsKept o x P = graph-IsKept o x IsLinked apart (relate-IsLinked o.numbers) in
    (
      Always-after P (update_group_ontology o x group_id episodes combined_text) d
          (Always-update o x group_id kept combined_text
            (λ ent.
              Always-summarized o x group_id kept (λ _. Unit)
                (λ name fresh d' w h'. merge_node-IsLinked name fresh d' h') combined_text ent
                (λ d' h'. tt) (λ old w. tt))
            episodes)
          h,
      Always-after P (fast_coverage_ontology o x group_id episodes) d
          (Always-fast o x group_id kept
            (λ ent.
              Always-named o x group_id kept (λ _. Unit)
                (λ name fresh d' w h'. merge_node-IsLinked name fresh d' h') ent tt)
            episodes)
          h,
    )

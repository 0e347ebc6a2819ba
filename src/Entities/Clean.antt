-- ===== src/Entities/Clean.antt =====
-- The summaries of the entities through the ontology update
-- (intelligence/graph/ontology_pipeline.py).
use segnog.Prelude.{
  String, Option, none, some, List, [], ◌∷◌, refl, ◌==◌, ◌&&◌, Dict, insert, lookup, All, inl, inr,
  Bool-cases,
}
use segnog.Entities.{OntologyNode, Edge, Kg, Services, refresh, merge_node, relate, is_node}
use segnog.Entities.Summary.{
  IsClean, is_rejected, any_of, update_ontology_summary, update_ontology_summary-IsClean,
}
use segnog.Entities.Texts.{includes, starts_with}
use segnog.Entities.Pipeline.{EpisodeText, Extraction, summary_of, update_group_ontology}
use segnog.Exec.Always.{Always-after}
use segnog.Entities.Keeps.{IsKept}
use segnog.Entities.Keeps.Apart.{IsApart, graph-IsKept}
use segnog.Entities.Keeps.Update.{Always-update}
use segnog.Entities.Keeps.Writing.{Always-summarized}

abbrev pub AllClean : {E : Type 0} → Dict (OntologyNode E) → Type 0
AllClean = All (λ e. IsClean e.1.summary)

module _ {V : Type 0} where
  All-insert :
      (P : V → Type 0) (k : String) (v : V) (d : Dict V)
      → P v
      → All (λ e. P e.1) d
      → All (λ e. P e.1) (insert k v d)
  unfolding insert
  All-insert P k v [] p h = (p, tt)
  All-insert P k v ((j, w) ∷ d) p h = elim (Bool-cases (k == j)) [
    | inl e ↦ rw e (p, h.1)
    | inr e ↦ rw e (h.0, All-insert P k v d p h.1)
  ]

empty-IsClean : IsClean ""
unfolding is_rejected any_of includes starts_with
empty-IsClean = refl

module _ {E : Type 0} where
  summary_of-IsClean :
      (name : String) (nodes : Dict (OntologyNode E))
      → AllClean nodes
      → IsClean (summary_of (lookup name nodes))
  unfolding lookup
  summary_of-IsClean name [] h = empty-IsClean
  summary_of-IsClean name ((j, node) ∷ nodes) h = elim (Bool-cases (name == j)) [
    | inl e ↦ rw e h.0
    | inr e ↦ rw e (summary_of-IsClean name nodes h.1)
  ]

  refresh-IsClean :
      (old : Option (OntologyNode E)) (fresh : OntologyNode E)
      → IsClean fresh.summary
      → IsClean (refresh old fresh).summary
  unfolding refresh
  refresh-IsClean none fresh h = h
  refresh-IsClean (some old) fresh h = h

relate-AllClean :
    {E F : Type 0} (o : Services E F) (e : Edge F) (d : Kg E F)
    → AllClean d.nodes
    → AllClean (relate o.numbers e d).0.nodes
unfolding relate
relate-AllClean o e d h = elim (Bool-cases (is_node e.subject d && is_node e.object d)) [
  | inl both ↦ rw both h
  | inr missing ↦ rw missing h
]

updated-IsClean :
    (llm : String → Option String) (name schema_type old text : String)
    → IsClean old
    → IsClean (update_ontology_summary llm name schema_type old text)
updated-IsClean llm name schema_type old text h =
    elim (update_ontology_summary-IsClean llm name schema_type old text) [
      | inl e ↦ rw e h
      | inr found ↦ found.1
    ]

-- If the causal store leaves the entities alone and no entity's summary holds one of the phrases that
-- are rejected, then none does after the ontology update, whatever the language model answers and
-- whichever queries and calls raise.
pub update_group_ontology-AllClean :
    {E F C : Type 0} (o : Services E F) (x : Extraction E F C) (group_id combined_text : String)
    (episodes : List EpisodeText) (d : Kg E F)
    → IsApart x
    → AllClean d.nodes
    → AllClean (update_group_ontology o x group_id episodes combined_text d).0.nodes
unfolding merge_node
update_group_ontology-AllClean {E = E} {F = F} o x group_id combined_text episodes d apart h =
    let P : Kg E F → Type 0 = λ d'. AllClean d'.nodes in
    let kept : IsKept o x P =
      graph-IsKept o x (λ nodes _. AllClean nodes) apart (relate-AllClean o) in
    Always-after P (update_group_ontology o x group_id episodes combined_text) d
      (Always-update o x group_id kept combined_text
        (λ ent.
          Always-summarized o x group_id kept IsClean
            (λ name fresh d' w clean.
              All-insert (λ node. IsClean node.summary) name _ d'.nodes
                (refresh-IsClean (lookup name d'.nodes) fresh w) clean)
            combined_text ent (λ d' clean. summary_of-IsClean _ d'.nodes clean)
            (λ old w. updated-IsClean x.llm _ _ old combined_text w))
        episodes)
      h

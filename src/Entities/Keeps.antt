-- ===== src/Entities/Keeps.antt =====
-- What the ontology update (intelligence/graph/ontology_pipeline.py) does with a condition on the
-- database that each of the store's queries keeps; the children follow it through the code.
pub mod Writing
pub mod Apart
pub mod Update
use Prim.Native.String.{◌++◌ as ◌+++◌}
use segnog.Prelude.{
  ℕ, suc, String, Bool, true, false, Option, none, some, List, [], ◌∷◌, ◌≡◌, ◌==◌, ◌&&◌, not, inl,
  inr, Dict, contains, length, lookup, ltb, leb, eqb, Bool-cases,
}
use segnog.Scoring.{get_or}
use segnog.Ontology.Inverses.{get_inverse, is_symmetric}
use segnog.Ontology.Normalize.{normalize_class, normalize_predicate}
use segnog.Exec.{Exec, pure, raise, gets, from_option, attempt, each, ◌>>=◌, ◌>>◌}
use segnog.Exec.Triples.{
  Ends, Triple, Triple-pure, Triple-raise, Triple-gets, Triple-from_option, Triple-branch,
  Triple-attempt, Triple-bind, Triple-each, Triple-given, Triple-weaken,
}
use segnog.Exec.Always.{Always}
use segnog.Entities.{
  OntologyNode, Edge, Kg, Services, send, merge_node, relate, link, new_node, upsert_node, get_node,
  is_node, has_link, merge_relates_edge, edge_of, other_inverse, store_inverse, store_reverse,
  infer_edges, store_edges, store_relates, link_about,
}
use segnog.Entities.Texts.{name_slug}
use segnog.Entities.Summary.{update_ontology_summary}
use segnog.Entities.Pipeline.{
  Entity, Relationship, EpisodeText, Extraction, is_skipped, is_filtered, is_short, add_name,
  name_of, type_of, summary_of, batch_content, windows, store_entity, store_entities,
  store_relationship, store_relationships, store_claim, store_claims, link_entity, link_entities,
  upsert_summarized, upsert_named, extract_and_store_batch, per_episode, per_window, all_windows,
  revise, fast_store, fast_batch, update_group_ontology, fast_coverage_ontology,
}

abbrev pub sent : {E F : Type 0} → Kg E F → Kg E F
sent d = record d { queries = suc d.queries }

module _ {E F A : Type 0} {P : Kg E F → Type 0} {Q : A → Kg E F → Type 0}
    {X : Kg E F → Type 0} where
  -- A query that raises has only been counted.
  pub Triple-send :
      (faults : ℕ → Bool) (f : Kg E F → Kg E F × A)
      → ((d : Kg E F) → P d → X (sent d))
      → ((d : Kg E F) → P d → Q (f (sent d)).1 (f (sent d)).0)
      → Triple P (send faults f) Q X
  unfolding send
  Triple-send faults f hx hq = record {
    at = λ d h. elim (Bool-cases (faults d.queries)) [
      | inl raises ↦ rw raises (hx d h)
      | inr fine ↦ rw fine (hq d h)
    ];
  }

-- A condition that the queries keep, and the calls of the causal store.
pub record IsKept {E F C : Type 0} (o : Services E F) (x : Extraction E F C) (P : Kg E F → Type 0)
    : Type 0 where
  pub counting : (d : Kg E F) → P d → P (sent d)
  pub edge : (e : Edge F) (d : Kg E F) → P d → P (relate o.numbers e d).0
  pub mention : (episode name : String) (d : Kg E F) → P d → P (link episode name d).0
  pub claim : (c : C) → Always P (x.upsert_claim c)
  pub beliefs : Always P x.revise_beliefs
  pub chain : Always P x.auto_chain

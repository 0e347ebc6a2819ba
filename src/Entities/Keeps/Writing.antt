-- ===== src/Entities/Keeps/Writing.antt =====
-- What the ontology update (intelligence/graph/ontology_pipeline.py) does with a condition on the
-- database that each of the store's queries keeps: the writing of one entity.
use Prim.Native.String.{◌++◌ as ◌+++◌}
use segnog.Prelude.{String, true, ◌==◌, lookup}
use segnog.Ontology.Normalize.{normalize_class}
use segnog.Exec.{raise, gets}
use segnog.Exec.Triples.{Triple-raise, Triple-branch, Triple-bind, Triple-given, Triple-weaken}
use segnog.Entities.{OntologyNode, Kg, Services, merge_node, new_node, upsert_node, get_node}
use segnog.Entities.Texts.{name_slug}
use segnog.Entities.Summary.{update_ontology_summary}
use segnog.Entities.Pipeline.{
  Entity, Extraction, name_of, type_of, summary_of, upsert_summarized, upsert_named,
}
use segnog.Exec.Always.{Always, Always-pure, Always-gets, Always-bind, Always-option}
use segnog.Entities.Keeps.{sent, Triple-send, IsKept}

-- The writing of one entity, where the condition asks for `W` of the summaries.
module _ {E F C : Type 0} {P : Kg E F → Type 0} (o : Services E F) (x : Extraction E F C)
    (group_id : String) (k : IsKept o x P) (W : String → Type 0)
    (merges : (name : String) (fresh : OntologyNode E) (d : Kg E F)
      → W fresh.summary
      → P d
      → P (merge_node name fresh d).0) where
  pub Always-upsert_node :
      (name schema_type display summary : String)
      → W summary
      → Always P (upsert_node o name schema_type display summary group_id)
  unfolding upsert_node new_node
  Always-upsert_node name schema_type display summary w =
      Triple-branch (name_slug o.lower name == "") raise _ (λ e. Triple-raise (λ d h. h))
        (λ e. Always-option (o.embed summary) _ (λ v.
          Always-bind (gets o.clock) _ (Always-gets o.clock) (λ now.
            Always-bind (gets o.fresh_uuid) _ (Always-gets o.fresh_uuid) (λ uuid.
              let fresh =
                new_node o group_id (normalize_class o.lower o.ontology schema_type) display summary
                  v now uuid in
              Triple-send o.faults (merge_node (name_slug o.lower name) fresh) k.counting
                (λ d h. merges (name_slug o.lower name) fresh (sent d) w (k.counting d h))))))

  pub Always-named :
      (ent : Entity)
      → W (name_of ent +++ " (" +++ type_of ent +++ ")")
      → Always P (upsert_named o x group_id ent)
  unfolding upsert_named
  Always-named ent w =
      let summary = name_of ent +++ " (" +++ type_of ent +++ ")" in
      Always-bind (upsert_node o (name_of ent) (type_of ent) (name_of ent) summary group_id) _
        (Always-upsert_node (name_of ent) (type_of ent) (name_of ent) summary w)
        (λ _. Always-pure true)

  pub Always-summarized :
      (combined_text : String) (ent : Entity)
      → ((d : Kg E F)
          → P d
          → W (summary_of (lookup (name_slug o.lower (name_slug o.lower (name_of ent))) d.nodes)))
      → ((old : String)
          → W old
          → W (update_ontology_summary x.llm (name_of ent) (type_of ent) old combined_text))
      → Always P (upsert_summarized o x group_id combined_text ent)
  unfolding upsert_summarized get_node
  Always-summarized combined_text ent found updated =
      let name = name_slug o.lower (name_of ent) in
      Triple-bind (get_node o name) _ (λ r d. P d × W (summary_of r))
        (Triple-send o.faults (λ d. (d, lookup (name_slug o.lower name) d.nodes)) k.counting
          (λ d h. (k.counting d h, found d h)))
        (λ r.
          let summary =
            update_ontology_summary x.llm (name_of ent) (type_of ent) (summary_of r)
              combined_text in
          let upsert = upsert_node o (name_of ent) (type_of ent) (name_of ent) summary group_id in
          Triple-given _ (λ d h. h.1)
            (λ w.
              Triple-weaken _ (λ d h. h.0) (λ a d h. h) (λ d h. h)
                (Always-bind upsert _
                  (Always-upsert_node (name_of ent) (type_of ent) (name_of ent) summary
                    (updated (summary_of r) w))
                  (λ _. Always-pure true))))

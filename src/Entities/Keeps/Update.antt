-- ===== src/Entities/Keeps/Update.antt =====
-- What the ontology update (intelligence/graph/ontology_pipeline.py) does with a condition on the
-- database that each of the store's queries keeps: the whole update.
use segnog.Prelude.{
  ℕ, String, Bool, true, false, Option, none, some, List, [], ◌∷◌, ◌==◌, length, ltb, leb, eqb,
}
use segnog.Scoring.{get_or}
use segnog.Ontology.Inverses.{get_inverse, is_symmetric}
use segnog.Ontology.Normalize.{normalize_predicate}
use segnog.Exec.{Exec, pure, raise, from_option, each, ◌>>=◌, ◌>>◌}
use segnog.Exec.Triples.{Triple-raise, Triple-branch, Triple-each}
use segnog.Entities.{
  Edge, Kg, Services, send, relate, link, merge_relates_edge, edge_of, other_inverse, store_inverse,
  store_reverse, infer_edges, store_edges, store_relates, link_about,
}
use segnog.Entities.Texts.{name_slug}
use segnog.Entities.Pipeline.{
  Entity, EpisodeText, Extraction, is_skipped, is_filtered, is_short, name_of, batch_content,
  windows, store_entity, store_entities, store_relationship, store_relationships, store_claim,
  store_claims, link_entity, link_entities, upsert_summarized, upsert_named,
  extract_and_store_batch, per_episode, per_window, all_windows, revise, fast_store, fast_batch,
  update_group_ontology, fast_coverage_ontology,
}
use segnog.Exec.Always.{
  Always, Always-pure, Always-gets, Always-attempt, Always-bind, Always-option,
}
use segnog.Entities.Keeps.{sent, Triple-send, IsKept}

module _ {E F C : Type 0} {P : Kg E F → Type 0} (o : Services E F) (x : Extraction E F C)
    (group_id : String) (k : IsKept o x P) where
  Always-edge : (e : Edge F) → Always P (merge_relates_edge o e)
  unfolding merge_relates_edge
  Always-edge e = Always-attempt (send o.faults (relate o.numbers e)) false (
      Triple-send o.faults (relate o.numbers e) k.counting
        (λ d h. k.edge e (sent d) (k.counting d h)))

  Always-inverse :
      (subject object : String) (confidence : F) (now : ℕ) (inverse : Option String)
      → Always P (store_inverse o subject object confidence now inverse)
  unfolding store_inverse
  Always-inverse subject object confidence now none = Always-pure true
  Always-inverse subject object confidence now (some inverse) =
      Always-edge (edge_of o object inverse subject confidence now)

  Always-infer_edges :
      (subject predicate object : String) (confidence : F) (now : ℕ)
      → Always P (infer_edges o subject predicate object confidence now)
  unfolding infer_edges store_reverse
  Always-infer_edges subject predicate object confidence now =
      let inverse = other_inverse predicate (get_inverse o.ontology predicate) in
      Always-bind (store_reverse o subject predicate object confidence now) _
        (Triple-branch (is_symmetric o.ontology predicate) _ (pure true)
          (λ e. Always-edge (edge_of o object predicate subject confidence now))
          (λ e. Always-pure true))
        (λ _.
          Always-bind (store_inverse o subject object confidence now inverse) (λ _. pure true)
            (Always-inverse subject object confidence now inverse) (λ _. Always-pure true))

  pub Always-store_relates :
      (subject predicate object : String) (confidence : F)
      → Always P (store_relates o subject predicate object confidence)
  unfolding store_relates store_edges
  Always-store_relates subject predicate object confidence =
      let canonical = normalize_predicate o.lower o.ontology predicate in
      Always-bind _ (λ now. store_edges o subject canonical object confidence now)
        (Always-gets o.clock)
        (λ now.
          Always-bind (merge_relates_edge o (edge_of o subject canonical object confidence now)) _
            (Always-edge (edge_of o subject canonical object confidence now))
            (λ stored.
              Triple-branch stored (infer_edges o subject canonical object confidence now)
                (pure false) (λ e. Always-infer_edges subject canonical object confidence now)
                (λ e. Always-pure false)))

  pub Always-relationships :
      (content : String) → Always P (store_relationships o x group_id content)
  unfolding store_relationships store_relationship
  Always-relationships content =
      Always-attempt
        (from_option (x.extract_relationships content) >>= each (store_relationship o x group_id))
        tt
        (Always-option (x.extract_relationships content) (each (store_relationship o x group_id))
          (λ rels. Triple-each (store_relationship o x group_id) rels (λ rel. Always-attempt _ tt (
            Always-bind
              (store_relates o rel.subject_norm rel.predicate rel.object_norm
                (get_or rel.confidence o.numbers.one))
              (λ _. pure tt) (Always-store_relates rel.subject_norm _ rel.object_norm _)
              (λ _. Always-pure tt)))))

  pub Always-claims : (content : String) → Always P (store_claims o x group_id content)
  unfolding store_claims store_claim
  Always-claims content =
      Triple-branch x.has_causal_store _ (pure tt)
        (λ e.
          Always-attempt
            (from_option (x.extract_causal_claims content) >>= each (store_claim o x group_id)) tt
            (Always-option (x.extract_causal_claims content) (each (store_claim o x group_id))
              (λ claims.
                Triple-each (store_claim o x group_id) claims
                  (λ c. Always-attempt (x.upsert_claim c) tt (k.claim c)))))
        (λ e. Always-pure tt)

  pub Always-mentions :
      (ep_uuid : Option String) (names : List String)
      → Always P (link_entities o x group_id ep_uuid names)
  unfolding link_entities link_entity link_about
  Always-mentions none names = Always-pure tt
  Always-mentions (some uuid) names =
      Triple-branch (uuid == "") (pure tt) _ (λ e. Always-pure tt)
        (λ e. Triple-each (link_entity o x group_id uuid) names (λ name.
          Always-attempt (link_about o uuid name) tt (
            Always-attempt _ tt (
              Triple-send o.faults (link uuid (name_slug o.lower name)) k.counting
                (λ d h. k.mention uuid (name_slug o.lower name) (sent d) (k.counting d h))))))

  pub Always-revise : Always P (revise o x group_id)
  unfolding revise
  Always-revise =
      Triple-branch x.has_causal_store _ (pure tt)
        (λ e.
          Always-attempt (x.revise_beliefs >> x.auto_chain) tt
            (Always-bind x.revise_beliefs (λ _. x.auto_chain) k.beliefs (λ _. k.chain)))
        (λ e. Always-pure tt)

  Always-entities :
      (upsert : Entity → Exec (Kg E F) Bool) (seen : List String) (ents : List Entity)
      → ((ent : Entity) → Always P (upsert ent))
      → Always P (store_entities o x group_id upsert seen ents)
  unfolding store_entities store_entity
  Always-entities upsert seen [] t = Always-pure (seen, [])
  Always-entities upsert seen (ent ∷ ents) t =
      Triple-branch (is_skipped o seen ent) _ _ (λ e. Always-entities upsert seen ents t)
        (λ e.
          Always-bind (store_entity o x group_id upsert ent) _
            (Triple-branch (is_filtered o x group_id ent) (pure false) _ (λ e. Always-pure false)
              (λ e. Always-attempt (upsert ent) false (t ent)))
            (λ stored.
              Always-bind (store_entities o x group_id upsert (o.lower (name_of ent) ∷ seen) ents) _
                (Always-entities upsert (o.lower (name_of ent) ∷ seen) ents t)
                (λ rest. Always-pure _)))

  Always-window :
      (store : List String → String → Exec (Kg E F) (List String))
      → (seen : List String) (batches : List (List EpisodeText))
      → ((names : List String) (content : String) → Always P (store names content))
      → Always P (per_window o x group_id store seen batches)
  unfolding per_window
  Always-window store seen [] t = Always-pure seen
  Always-window store seen (batch ∷ batches) t =
      Triple-branch (ltb (length batch) 2) _ _ (λ e. Always-window store seen batches t)
        (λ e.
          Always-bind (store seen (batch_content batch)) _ (t seen (batch_content batch))
            (λ seen'. Always-window store seen' batches t))

  Always-windows :
      (store : List String → String → Exec (Kg E F) (List String))
      → (seen : List String) (episodes : List EpisodeText)
      → ((names : List String) (content : String) → Always P (store names content))
      → Always P (all_windows o x group_id store seen episodes)
  unfolding all_windows
  Always-windows store seen episodes t =
      Triple-branch (leb 2 (length episodes)) _ (pure seen)
        (λ e.
          Triple-branch (eqb x.window_size 0) raise _ (λ e. Triple-raise (λ d h. h))
            (λ e. Always-window store seen (windows x.window_size episodes) t))
        (λ e. Always-pure seen)

  -- A condition that the writing of one entity keeps is kept by the whole update.
  module _ (combined_text : String)
      (t : (ent : Entity) → Always P (upsert_summarized o x group_id combined_text ent)) where
    Always-batch :
        (seen : List String) (ep_uuid : Option String) (content : String)
        → Always P (extract_and_store_batch o x group_id combined_text seen ep_uuid content)
    unfolding extract_and_store_batch
    Always-batch seen ep_uuid content =
        Triple-branch (is_short content) (pure seen) _ (λ e. Always-pure seen)
          (λ e. Always-option (x.extract_entities content) _ (λ entities.
            Always-bind
              (store_entities o x group_id (upsert_summarized o x group_id combined_text) seen
                entities)
              _ (Always-entities (upsert_summarized o x group_id combined_text) seen entities t)
              (λ done.
                Always-bind (store_relationships o x group_id content) _
                  (Always-relationships content)
                  (λ _.
                    Always-bind (store_claims o x group_id content) _ (Always-claims content) (λ _.
                      Always-bind (link_entities o x group_id ep_uuid done.1) _
                        (Always-mentions ep_uuid done.1) (λ _. Always-pure done.0))))))

    Always-episodes :
        (seen : List String) (episodes : List EpisodeText)
        → Always P (per_episode o x group_id combined_text seen episodes)
    unfolding per_episode
    Always-episodes seen [] = Always-pure seen
    Always-episodes seen (ep ∷ eps) =
        Always-bind (extract_and_store_batch o x group_id combined_text seen ep.uuid ep.content) _
          (Always-batch seen ep.uuid ep.content) (λ seen'. Always-episodes seen' eps)

    pub Always-update :
        (episodes : List EpisodeText)
        → Always P (update_group_ontology o x group_id episodes combined_text)
    unfolding update_group_ontology
    Always-update episodes =
        let store : List String → String → Exec (Kg E F) (List String) =
          λ names. extract_and_store_batch o x group_id combined_text names none in
        Always-bind (per_episode o x group_id combined_text [] episodes) _
          (Always-episodes [] episodes)
          (λ seen.
            Always-bind (all_windows o x group_id store seen episodes) (λ _. revise o x group_id)
              (Always-windows store seen episodes
                (λ names content. Always-batch names none content))
              (λ _. Always-revise))

  pub Always-fast :
      ((ent : Entity) → Always P (upsert_named o x group_id ent))
      → (episodes : List EpisodeText) → Always P (fast_coverage_ontology o x group_id episodes)
  unfolding fast_coverage_ontology fast_batch fast_store
  Always-fast t episodes =
      Always-bind (all_windows o x group_id (fast_batch o x group_id) [] episodes) _
        (Always-windows (fast_batch o x group_id) [] episodes (λ names content.
          Triple-branch (is_short content) (pure names) _ (λ e. Always-pure names)
            (λ e. stored names content (x.extract_entities content))))
        (λ _. Always-revise)
    where
      stored :
          (names : List String) (content : String) (entities : Option (List Entity))
          → Always P (fast_store o x group_id names content entities)
      stored names content none = Always-pure names
      stored names content (some entities) =
          Always-bind (store_entities o x group_id (upsert_named o x group_id) names entities) _
            (Always-entities (upsert_named o x group_id) names entities t)
            (λ done.
              Always-bind (store_relationships o x group_id content) _
                (Always-relationships content)
                (λ _.
                  Always-bind (store_claims o x group_id content) _ (Always-claims content)
                    (λ _. Always-pure done.0)))

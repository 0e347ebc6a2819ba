-- ===== src/Entities/Errors.antt =====
-- Which exceptions leave the ontology update (intelligence/graph/ontology_pipeline.py).
use segnog.Prelude.{
  String, Bool, false, Option, none, some, List, [], ◌∷◌, ◌≡◌, ◌⊎◌, ◌==◌, length, ltb, leb, eqb,
}
use segnog.Exec.{Exec, pure, raise, from_option, each, ◌>>=◌, ◌>>◌}
use segnog.Exec.Triples.{returned, Triple-branch, Triple-each, Triple-from_option}
use segnog.Exec.Returns.{Returns, Returns-pure, Returns-attempt, Returns-bind, ended}
use segnog.Entities.{Kg, Services, link_about}
use segnog.Entities.Pipeline.{
  Entity, EpisodeText, Extraction, is_short, is_skipped, is_filtered, name_of, batch_content,
  windows, store_entity, store_entities, store_relationship, store_relationships, store_claim,
  store_claims, link_entity, link_entities, upsert_summarized, upsert_named,
  extract_and_store_batch, per_episode, per_window, all_windows, revise, fast_store, fast_batch,
  update_group_ontology, fast_coverage_ontology,
}

module _ {E F C X : Type 0} (o : Services E F) (x : Extraction E F C) (group_id : String) where
  Returns-entities :
      (upsert : Entity → Exec (Kg E F) Bool) (seen : List String) (ents : List Entity)
      → Returns X (store_entities o x group_id upsert seen ents)
  unfolding store_entities store_entity
  Returns-entities upsert seen [] = Returns-pure _
  Returns-entities upsert seen (ent ∷ ents) =
      Triple-branch (is_skipped o seen ent) _ _ (λ e. Returns-entities upsert seen ents)
        (λ e.
          Returns-bind (store_entity o x group_id upsert ent) _
            (Triple-branch (is_filtered o x group_id ent) (pure false) _ (λ e. Returns-pure false)
              (λ e. Returns-attempt (upsert ent) false))
            (λ stored.
              Returns-bind (store_entities o x group_id upsert (o.lower (name_of ent) ∷ seen) ents)
                _ (Returns-entities upsert (o.lower (name_of ent) ∷ seen) ents)
                (λ rest. Returns-pure _)))

  Returns-relationships : (content : String) → Returns X (store_relationships o x group_id content)
  unfolding store_relationships
  Returns-relationships content =
      Returns-attempt
        (from_option (x.extract_relationships content) >>= each (store_relationship o x group_id))
        tt

  Returns-claims : (content : String) → Returns X (store_claims o x group_id content)
  unfolding store_claims
  Returns-claims content =
      Triple-branch x.has_causal_store _ (pure tt)
        (λ e.
          Returns-attempt
            (from_option (x.extract_causal_claims content) >>= each (store_claim o x group_id)) tt)
        (λ e. Returns-pure tt)

  Returns-links :
      (ep_uuid : Option String) (names : List String)
      → Returns X (link_entities o x group_id ep_uuid names)
  unfolding link_entities link_entity
  Returns-links none names = Returns-pure tt
  Returns-links (some uuid) names =
      Triple-branch (uuid == "") (pure tt) _ (λ e. Returns-pure tt)
        (λ e.
          Triple-each (link_entity o x group_id uuid) names
            (λ name. Returns-attempt (link_about o uuid name) tt))

  Returns-revise : Returns X (revise o x group_id)
  unfolding revise
  Returns-revise =
      Triple-branch x.has_causal_store _ (pure tt)
        (λ e. Returns-attempt (x.revise_beliefs >> x.auto_chain) tt) (λ e. Returns-pure tt)

  Returns-windows :
      (store : List String → String → Exec (Kg E F) (List String)) (seen : List String)
      (episodes : List EpisodeText)
      → eqb x.window_size 0 ≡ false
      → ((names : List String) (content : String) → Returns X (store names content))
      → Returns X (all_windows o x group_id store seen episodes)
  unfolding all_windows per_window
  Returns-windows store seen episodes step t =
      Triple-branch (leb 2 (length episodes)) _ (pure seen)
        (λ e.
          Triple-branch (eqb x.window_size 0) raise _ (λ e. absurd (cc (e, step)))
            (λ e. each_window seen (windows x.window_size episodes)))
        (λ e. Returns-pure seen)
    where
      each_window :
          (names : List String) (batches : List (List EpisodeText))
          → Returns X (per_window o x group_id store names batches)
      each_window names [] = Returns-pure names
      each_window names (batch ∷ batches) =
          Triple-branch (ltb (length batch) 2) _ _ (λ e. each_window names batches)
            (λ e.
              Returns-bind (store names (batch_content batch)) _ (t names (batch_content batch))
                (λ names'. each_window names' batches))

  Returns-fast_store :
      (names : List String) (content : String) (entities : Option (List Entity))
      → Returns X (fast_store o x group_id names content entities)
  unfolding fast_store
  Returns-fast_store names content none = Returns-pure names
  Returns-fast_store names content (some entities) =
      Returns-bind (store_entities o x group_id (upsert_named o x group_id) names entities) _
        (Returns-entities (upsert_named o x group_id) names entities)
        (λ done.
          Returns-bind (store_relationships o x group_id content) _ (Returns-relationships content)
            (λ _.
              Returns-bind (store_claims o x group_id content) _ (Returns-claims content)
                (λ _. Returns-pure done.0)))

  Returns-fast :
      (episodes : List EpisodeText)
      → eqb x.window_size 0 ≡ false
      → Returns X (fast_coverage_ontology o x group_id episodes)
  unfolding fast_coverage_ontology fast_batch
  Returns-fast episodes step =
      Returns-bind (all_windows o x group_id (fast_batch o x group_id) [] episodes) _
        (Returns-windows (fast_batch o x group_id) [] episodes step (λ names content.
          Triple-branch (is_short content) (pure names) _ (λ e. Returns-pure names)
            (λ e. Returns-fast_store names content (x.extract_entities content))))
        (λ _. Returns-revise)

  module _ (combined_text : String)
      (reason : (content : String)
        → is_short content ≡ false
        → x.extract_entities content ≡ none
        → X) where
    Returns-batch :
        (seen : List String) (ep_uuid : Option String) (content : String)
        → Returns X (extract_and_store_batch o x group_id combined_text seen ep_uuid content)
    unfolding extract_and_store_batch
    Returns-batch seen ep_uuid content =
        Triple-branch (is_short content) (pure seen) _ (λ e. Returns-pure seen)
          (λ e.
            Returns-bind (from_option (x.extract_entities content)) _
              (Triple-from_option (x.extract_entities content) (λ gone s h. reason content e gone)
                (λ a s h. tt))
              (λ entities.
                Returns-bind
                  (store_entities o x group_id (upsert_summarized o x group_id combined_text) seen
                    entities)
                  _ (Returns-entities (upsert_summarized o x group_id combined_text) seen entities)
                  (λ done.
                    Returns-bind (store_relationships o x group_id content) _
                      (Returns-relationships content)
                      (λ _.
                        Returns-bind (store_claims o x group_id content) _ (Returns-claims content)
                          (λ _.
                            Returns-bind (link_entities o x group_id ep_uuid done.1) _
                              (Returns-links ep_uuid done.1) (λ _. Returns-pure done.0))))))

    Returns-episodes :
        (seen : List String) (episodes : List EpisodeText)
        → Returns X (per_episode o x group_id combined_text seen episodes)
    unfolding per_episode
    Returns-episodes seen [] = Returns-pure seen
    Returns-episodes seen (ep ∷ eps) =
        Returns-bind (extract_and_store_batch o x group_id combined_text seen ep.uuid ep.content) _
          (Returns-batch seen ep.uuid ep.content) (λ seen'. Returns-episodes seen' eps)

    Returns-update :
        (episodes : List EpisodeText)
        → eqb x.window_size 0 ≡ false
        → Returns X (update_group_ontology o x group_id episodes combined_text)
    unfolding update_group_ontology
    Returns-update episodes step =
        let store : List String → String → Exec (Kg E F) (List String) =
          λ names. extract_and_store_batch o x group_id combined_text names none in
        Returns-bind (per_episode o x group_id combined_text [] episodes) _
          (Returns-episodes [] episodes)
          (λ seen.
            Returns-bind (all_windows o x group_id store seen episodes) (λ _. revise o x group_id)
              (Returns-windows store seen episodes step
                (λ names content. Returns-batch names none content))
              (λ _. Returns-revise))

-- The extraction raises for a text that is long enough.
abbrev pub CannotExtract : {E F C : Type 0} → Extraction E F C → Type 0
CannotExtract x =
    (content : String) × (is_short content ≡ false) × (x.extract_entities content ≡ none)

-- For windows that are not empty the fast ontology update returns, and the full one does or the
-- extraction of entities raises for a text of 20 characters or more, whatever else raises.
pub update_group_ontology-returns :
    {E F C : Type 0} (o : Services E F) (x : Extraction E F C) (group_id combined_text : String)
    (episodes : List EpisodeText) (d : Kg E F)
    → eqb x.window_size 0 ≡ false
    → ((fast_coverage_ontology o x group_id episodes d).1 ≡ some tt)
      × (((update_group_ontology o x group_id episodes combined_text d).1 ≡ some tt)
          ⊎ CannotExtract x)
update_group_ontology-returns o x group_id combined_text episodes d step = (
  (returned (fast_coverage_ontology o x group_id episodes) d
      (Returns-fast o x group_id episodes step) tt).1,
  ended (update_group_ontology o x group_id episodes combined_text) d (
      Returns-update o x group_id combined_text (λ content long gone. (content, long, gone))
        episodes step),
)

-- ===== src/Entities/Pipeline.antt =====
-- intelligence/graph/ontology_pipeline.py: the ontology update of a group. What the language model
-- and the causal store answer comes in as a record; the causal store's calls run on the same
-- database. `ep_entity_map`, which nothing reads, and the counts for the log are left out.
use Prim.Native.String.{◌++◌ as ◌+++◌}
use segnog.Prelude.{
  ℕ, zero, suc, String, Bool, true, false, Option, none, some, List, [], ◌∷◌, ◌==◌, ◌||◌, contains,
  take, length, ltb, leb, eqb, if◌then◌else◌,
}
use segnog.Scoring.{get_or}
use segnog.Exec.{Exec, pure, raise, from_option, attempt, branch, ◌>>=◌, ◌>>◌, each}
use segnog.Rem.Consolidation.{join_contents}
use segnog.Entities.{OntologyNode, Kg, Services, upsert_node, get_node, store_relates, link_about}
use segnog.Entities.Texts.{size, strip, words, name_slug}
use segnog.Entities.Summary.{update_ontology_summary}

pub record Entity : Type 0 where
  pub name : Option String
  pub schema_type : Option String

pub record Relationship (F : Type 0) : Type 0 where
  pub subject_norm : String
  pub predicate : String
  pub object_norm : String
  pub confidence : Option F

pub record EpisodeText : Type 0 where
  pub uuid : Option String
  pub content : String

-- The components that the pipeline calls, and its configuration. `C` is a causal claim.
pub record Extraction (E F C : Type 0) : Type 0 where
  pub llm : String → Option String
  pub extract_entities : String → Option (List Entity)
  pub extract_relationships : String → Option (List (Relationship F))
  pub extract_causal_claims : String → Option (List C)
  pub upsert_claim : C → Exec (Kg E F) (Unit {0})
  pub revise_beliefs : Exec (Kg E F) (Unit {0})
  pub auto_chain : Exec (Kg E F) (Unit {0})
  pub has_causal_store : Bool
  pub max_name_words : ℕ
  pub window_size : ℕ

abbrev pub image_types : List String
image_types =
    "Photograph" ∷ "ImageObject" ∷ "VisualArtwork" ∷ "Painting" ∷ "Drawing" ∷ "Sculpture"
    ∷ "CreativeWork" ∷ []

abbrev pub name_of : Entity → String
name_of ent = get_or ent.name ""

abbrev pub type_of : Entity → String
type_of ent = get_or ent.schema_type "Thing"

-- No content, or less than 20 characters of it.
unfoldable pub is_short : String → Bool
unfolding size strip
is_short content = ltb (size (strip content)) 20

unfoldable pub contents : List EpisodeText → List String
contents [] = []
contents (ep ∷ eps) = ep.content ∷ contents eps

-- The contents of one episode are taken as they are, those that are empty among several are not.
unfoldable pub batch_content : List EpisodeText → String
unfolding join_contents contents
batch_content [] = ""
batch_content (ep ∷ []) = ep.content
batch_content (ep ∷ ep' ∷ eps) = join_contents (contents (ep ∷ ep' ∷ eps))

abbrev pub drop : {A : Type 0} → ℕ → List A → List A
drop zero xs = xs
drop (suc n) [] = []
drop (suc n) (x ∷ xs) = drop n xs

-- `episodes[start : start + size]` for the starts of `range(0, len(episodes), size)`, for a size
-- above 0: the fuel is the number of episodes.
unfoldable pub windows_loop : {A : Type 0} → ℕ → ℕ → List A → List (List A)
windows_loop zero size xs = []
windows_loop (suc fuel) size [] = []
windows_loop (suc fuel) size (x ∷ xs) =
    take size (x ∷ xs) ∷ windows_loop fuel size (drop size (x ∷ xs))

unfoldable pub windows : {A : Type 0} → ℕ → List A → List (List A)
unfolding windows_loop
windows size xs = windows_loop (length xs) size xs

abbrev pub summary_of : {E : Type 0} → Option (OntologyNode E) → String
summary_of none = ""
summary_of (some node) = node.summary

abbrev pub add_name : Bool → String → List String × List String → List String × List String
add_name stored name (seen, names) = (seen, if stored then name ∷ names else names)

module _ {E F : Type 0} (o : Services E F) where
  -- No name, an empty normalized name, or a name that was seen.
  unfoldable pub is_skipped : List String → Entity → Bool
  unfolding name_slug contains
  is_skipped seen ent =
      name_of ent == ""
      || name_slug o.lower (name_of ent) == ""
      || contains (o.lower (name_of ent)) seen

module _ {E F C : Type 0} (o : Services E F) (x : Extraction E F C) (group_id : String) where
  -- No entity of the world, or too long a name.
  unfoldable pub is_filtered : Entity → Bool
  unfolding contains words
  is_filtered ent =
      contains (type_of ent) image_types || ltb x.max_name_words (words false (name_of ent))

  unfoldable pub upsert_summarized : String → Entity → Exec (Kg E F) Bool
  unfolding ◌>>=◌ pure get_node upsert_node update_ontology_summary name_slug
  upsert_summarized combined_text ent = do
    existing ← get_node o (name_slug o.lower (name_of ent))
    upsert_node o (name_of ent) (type_of ent) (name_of ent)
        (update_ontology_summary x.llm (name_of ent) (type_of ent) (summary_of existing)
          combined_text)
        group_id
    pure true

  -- The fast pipeline writes a summary of its own.
  unfoldable pub upsert_named : Entity → Exec (Kg E F) Bool
  unfolding ◌>>=◌ pure upsert_node
  upsert_named ent =
      upsert_node o (name_of ent) (type_of ent) (name_of ent)
        (name_of ent +++ " (" +++ type_of ent +++ ")") group_id
      >> pure true

  unfoldable pub store_entity : (Entity → Exec (Kg E F) Bool) → Entity → Exec (Kg E F) Bool
  unfolding branch pure attempt is_filtered
  store_entity upsert ent =
      branch (is_filtered ent) (pure false) (attempt (upsert ent) (pure false))

  -- The loop over the entities: the names seen after it, and the normalized names stored.
  unfoldable pub store_entities :
      (Entity → Exec (Kg E F) Bool)
      → List String
      → List Entity
      → Exec (Kg E F) (List String × List String)
  unfolding ◌>>=◌ pure branch is_skipped store_entity name_slug
  store_entities upsert seen [] = pure (seen, [])
  store_entities upsert seen (ent ∷ ents) =
      branch (is_skipped o seen ent) (store_entities upsert seen ents) (do
        stored ← store_entity upsert ent
        rest ← store_entities upsert (o.lower (name_of ent) ∷ seen) ents
        pure (add_name stored (name_slug o.lower (name_of ent)) rest))

  unfoldable pub store_relationship : Relationship F → Exec (Kg E F) (Unit {0})
  unfolding ◌>>=◌ pure attempt store_relates
  store_relationship rel =
      attempt
        (store_relates o rel.subject_norm rel.predicate rel.object_norm
            (get_or rel.confidence o.numbers.one)
          >> pure tt)
        (pure tt)

  unfoldable pub store_relationships : String → Exec (Kg E F) (Unit {0})
  unfolding ◌>>=◌ pure attempt from_option each store_relationship
  store_relationships content =
      attempt (from_option (x.extract_relationships content) >>= each store_relationship) (pure tt)

  unfoldable pub store_claim : C → Exec (Kg E F) (Unit {0})
  unfolding pure attempt
  store_claim claim = attempt (x.upsert_claim claim) (pure tt)

  unfoldable pub store_claims : String → Exec (Kg E F) (Unit {0})
  unfolding ◌>>=◌ pure attempt branch from_option each store_claim
  store_claims content =
      branch x.has_causal_store
        (attempt (from_option (x.extract_causal_claims content) >>= each store_claim) (pure tt))
        (pure tt)

  unfoldable pub link_entity : String → String → Exec (Kg E F) (Unit {0})
  unfolding pure attempt link_about
  link_entity uuid name = attempt (link_about o uuid name) (pure tt)

  unfoldable pub link_entities : Option String → List String → Exec (Kg E F) (Unit {0})
  unfolding pure branch each link_entity
  link_entities none names = pure tt
  link_entities (some uuid) names = branch (uuid == "") (pure tt) (each (link_entity uuid) names)

  -- `_extract_and_store_batch`, with the names seen after it.
  unfoldable pub extract_and_store_batch :
      String → List String → Option String → String → Exec (Kg E F) (List String)
  unfolding ◌>>=◌ pure branch from_option is_short store_entities upsert_summarized
      store_relationships store_claims link_entities
  extract_and_store_batch combined_text seen ep_uuid content =
      branch (is_short content) (pure seen) (do
        entities ← from_option (x.extract_entities content)
        done ← store_entities (upsert_summarized combined_text) seen entities
        store_relationships content
        store_claims content
        link_entities ep_uuid done.1
        pure done.0)

  unfoldable pub per_episode : String → List String → List EpisodeText → Exec (Kg E F) (List String)
  unfolding ◌>>=◌ pure extract_and_store_batch
  per_episode combined_text seen [] = pure seen
  per_episode combined_text seen (ep ∷ eps) = do
    seen' ← extract_and_store_batch combined_text seen ep.uuid ep.content
    per_episode combined_text seen' eps

  unfoldable pub per_window :
      (List String → String → Exec (Kg E F) (List String))
      → List String
      → List (List EpisodeText)
      → Exec (Kg E F) (List String)
  unfolding ◌>>=◌ pure branch batch_content
  per_window store seen [] = pure seen
  per_window store seen (batch ∷ batches) =
      branch (ltb (length batch) 2) (per_window store seen batches)
        (do seen' ← store seen (batch_content batch); per_window store seen' batches)

  -- The pass over several episodes at once; a step of 0 makes `range` raise.
  unfoldable pub all_windows :
      (List String → String → Exec (Kg E F) (List String))
      → List String
      → List EpisodeText
      → Exec (Kg E F) (List String)
  unfolding pure raise branch windows per_window
  all_windows store seen episodes =
      branch (leb 2 (length episodes))
        (branch (eqb x.window_size 0) raise
          (per_window store seen (windows x.window_size episodes)))
        (pure seen)

  unfoldable pub revise : Exec (Kg E F) (Unit {0})
  unfolding ◌>>=◌ pure attempt branch
  revise =
      branch x.has_causal_store (attempt (x.revise_beliefs >> x.auto_chain) (pure tt)) (pure tt)

  unfoldable pub update_group_ontology : List EpisodeText → String → Exec (Kg E F) (Unit {0})
  unfolding ◌>>=◌ per_episode all_windows extract_and_store_batch revise
  update_group_ontology episodes combined_text = do
    seen ← per_episode combined_text [] episodes
    all_windows (λ names. extract_and_store_batch combined_text names none) seen episodes
    revise

  -- What the fast pipeline does after the entities are extracted, or not.
  unfoldable pub fast_store :
      List String → String → Option (List Entity) → Exec (Kg E F) (List String)
  unfolding ◌>>=◌ pure store_entities upsert_named store_relationships store_claims
  fast_store seen content none = pure seen
  fast_store seen content (some entities) = do
    done ← store_entities upsert_named seen entities
    store_relationships content
    store_claims content
    pure done.0

  unfoldable pub fast_batch : List String → String → Exec (Kg E F) (List String)
  unfolding pure branch is_short fast_store
  fast_batch seen content =
      branch (is_short content) (pure seen) (fast_store seen content (x.extract_entities content))

  unfoldable pub fast_coverage_ontology : List EpisodeText → Exec (Kg E F) (Unit {0})
  unfolding ◌>>=◌ all_windows fast_batch revise
  fast_coverage_ontology episodes = all_windows fast_batch [] episodes >> revise

-- ===== src/Observe/Context.antt =====
-- services/observe.py: the entries of the context, from what the searches found.
use Prim.Native.String.{◌++◌ as ◌+++◌}
use segnog.Prelude.{
  ℕ, String, Option, none, some, List, [], ◌∷◌, ◌==◌, ◌||◌, not, Dict, contains, keys, insert,
  remove, length, ltb, take, sort_by, keep_if, map, if◌then◌else◌,
}
use segnog.Scoring.{get_or}
use segnog.Sessions.{Entry}
use segnog.Sessions.Search.{Hit}
use segnog.Sessions.Hydration.{Found}
use segnog.Sessions.Batches.{Fact, Node}
use segnog.Observe.{ContextEntry, ClaimHit, Sources}

-- `if key not in entries: entries[key] = …`
unfoldable pub add_new : {V : Type 0} → String → V → Dict V → Dict V
unfolding contains insert
add_new key v entries = if contains key (keys entries) then entries else insert key v entries

-- `MAX_CONTEXT_ENTRIES`
abbrev pub max_context_entries : ℕ
max_context_entries = 30

module _ {F : Type 0} where
  unfoldable pub context_entry : String → String → Option F → ContextEntry F
  context_entry content source_type rank = record {
    content = content;
    source_type = source_type;
    rank = rank;
  }

module _ {E F : Type 0} (o : Sources E F) where
  unfoldable pub node_entry : Node E × Option F → ContextEntry F
  unfolding context_entry
  node_entry (node, score) =
      context_entry
        (if node.display_name == ""
          then node.summary
          else node.display_name +++ ": " +++ node.summary)
        "ontology_node" (some (get_or score o.marks.node))

  unfoldable pub fact_entry : Fact E × Option F → ContextEntry F
  unfolding context_entry
  fact_entry (kn, score) =
      context_entry kn.content "hydrated_knowledge" (some (get_or score o.marks.knowledge))

  unfoldable pub episode_entry : String → Found E F → ContextEntry F
  unfolding context_entry
  episode_entry source_type ep =
      context_entry ep.content source_type (some (get_or ep.score o.numbers.nought))

  unfoldable pub claim_entry : ClaimHit F → ContextEntry F
  unfolding context_entry
  claim_entry claim =
      context_entry claim.text "causal_claim" (some (get_or claim.score o.marks.claim))

  unfoldable pub add_nodes :
      List (Node E × Option F) → Dict (ContextEntry F) → Dict (ContextEntry F)
  unfolding add_new node_entry
  add_nodes [] entries = entries
  add_nodes (hit ∷ hits) entries = add_nodes hits (
      if hit.0.uuid == "" || hit.0.summary == ""
      then entries
      else add_new ("onto_" +++ hit.0.uuid) (node_entry hit) entries)

  unfoldable pub add_claims : List (ClaimHit F) → Dict (ContextEntry F) → Dict (ContextEntry F)
  unfolding add_new claim_entry
  add_claims [] entries = entries
  add_claims (claim ∷ claims) entries = add_claims claims (
      if claim.uuid == ""
      then entries
      else add_new ("causal_" +++ claim.uuid) (claim_entry claim) entries)

  -- An episode of the session itself is not added a second time.
  unfoldable pub add_episodes : List (Found E F) → Dict (ContextEntry F) → Dict (ContextEntry F)
  unfolding add_new episode_entry contains
  add_episodes [] entries = entries
  add_episodes (ep ∷ eps) entries = add_episodes eps (
      if ep.uuid == "" || contains ep.uuid (keys entries)
      then entries
      else add_new ("ep_" +++ ep.uuid) (episode_entry "hydrated" ep) entries)

  unfoldable pub add_facts :
      List (Fact E × Option F) → Dict (ContextEntry F) → Dict (ContextEntry F)
  unfolding add_new fact_entry
  add_facts [] entries = entries
  add_facts (hit ∷ hits) entries = add_facts hits (
      if hit.0.uuid == "" then entries else add_new ("kn_" +++ hit.0.uuid) (fact_entry hit) entries)

  -- The entries of the minimal path, which writes each key.
  unfoldable pub put_facts :
      List (Fact E × Option F) → Dict (ContextEntry F) → Dict (ContextEntry F)
  unfolding insert fact_entry
  put_facts [] entries = entries
  put_facts (hit ∷ hits) entries =
      put_facts hits (insert ("kn_" +++ hit.0.uuid) (fact_entry hit) entries)

  unfoldable pub put_nodes :
      List (Node E × Option F) → Dict (ContextEntry F) → Dict (ContextEntry F)
  unfolding insert node_entry
  put_nodes [] entries = entries
  put_nodes (hit ∷ hits) entries = put_nodes hits (
      if hit.0.uuid == "" || hit.0.summary == ""
      then entries
      else insert ("onto_" +++ hit.0.uuid) (node_entry hit) entries)

  unfoldable pub put_episodes : List (Found E F) → Dict (ContextEntry F) → Dict (ContextEntry F)
  unfolding insert episode_entry
  put_episodes [] entries = entries
  put_episodes (ep ∷ eps) entries =
      put_episodes eps (insert ("ep_" +++ ep.uuid) (episode_entry "relevant_episode" ep) entries)

  -- `{r["uuid"]: r for r in search_results}`, with the score as the rank.
  unfoldable pub entries_of_hits : List (Hit F) → Dict (ContextEntry F) → Dict (ContextEntry F)
  unfolding insert context_entry
  entries_of_hits [] entries = entries
  entries_of_hits (hit ∷ hits) entries =
      entries_of_hits hits
        (insert hit.uuid (context_entry hit.content hit.source_type (some hit.score)) entries)

  -- Without the observation itself.
  unfoldable pub others : String → List (Hit F) → List (Hit F)
  unfolding keep_if
  others episode_uuid hits =
      if episode_uuid == "" then hits else keep_if (λ r. not (r.uuid == episode_uuid)) hits

  abbrev plain_entry : String × Entry E → String × ContextEntry F
  plain_entry (uuid, entry) =
      (uuid, record { content = entry.content; source_type = entry.source_type; rank = none })

  -- The last entries of the session, where there is no embedding.
  unfoldable pub recent : String → ℕ → Dict (Entry E) → Dict (ContextEntry F)
  unfolding remove sort_by
  recent episode_uuid top_k all =
      let rest = if episode_uuid == "" then all else remove episode_uuid all in
      let newest = take top_k (
        sort_by (λ y x. o.numbers.lt (o.created_at x.0) (o.created_at y.0))
          (map plain_entry rest)) in
      if ltb top_k (length rest) then newest else map plain_entry rest

  unfoldable pub cap_entries : Dict (ContextEntry F) → Dict (ContextEntry F)
  unfolding sort_by
  cap_entries entries =
      let rank : String × ContextEntry F → F = λ e. get_or e.1.rank o.numbers.nought in
      let best =
        take max_context_entries (sort_by (λ y x. o.numbers.lt (rank x) (rank y)) entries) in
      if ltb max_context_entries (length entries) then best else entries

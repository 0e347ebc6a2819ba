-- ===== src/Observe/Paths.antt =====
-- services/observe.py: `_observe_core_inner` and the hydration that a cold start waits for.
use segnog.Prelude.{
  ℕ, String, Bool, false, Option, none, some, List, [], ◌&&◌, not, Dict, map, length, true, eqb,
  if◌then◌else◌,
}
use segnog.Exec.{Exec, pure, gets, from_option, attempt, branch, ◌>>=◌, ◌>>◌}
use segnog.Sessions.{Entry, Server, session_add, session_count, session_get_all}
use segnog.Sessions.Search.{session_search}
use segnog.Sessions.Hydration.{Found, hydrate_episodes}
use segnog.Sessions.Batches.{Fact, Node, hydrate_knowledge, hydrate_ontology_nodes}
use segnog.Observe.{
  ContextEntry, Sources, Service, Request, Observation, ensure_session, hydration, span_start,
  span_end, on_server, spawn, traced,
}
use segnog.Observe.Context.{
  add_nodes, add_claims, add_episodes, add_facts, put_facts, put_nodes, put_episodes,
  entries_of_hits, others, recent, cap_entries,
}

abbrev pub or_nil : {A : Type 0} → Option (List A) → List A
or_nil none = []
or_nil (some xs) = xs

-- A new observation: its uuid, its embedding, and whether the session was empty.
pub record Fresh (E : Type 0) : Type 0 where
  pub episode_uuid : String
  pub embedding : E
  pub is_cold : Bool

unfoldable pub local_entry : {E : Type 0} → Request → E → Entry E
local_entry req v = record {
  content = req.content;
  embedding = some v;
  metadata = req.metadata;
  source_type = "local";
}

module _ {E F : Type 0} (o : Sources E F) where
  unfoldable pub search_and_hydrate_ontology : String → E → Exec Server ℕ
  unfolding ◌>>=◌ pure from_option attempt branch hydrate_ontology_nodes
  search_and_hydrate_ontology session_id v =
      branch (o.has_ontology_store && o.hydrate_ontology)
        (attempt
          (from_option (o.search_nodes v) >>= λ nodes.
            hydrate_ontology_nodes o.codec o.outages session_id o.embed_batch 5
              (map (λ hit. hit.0) nodes))
          (pure 0))
        (pure 0)

  unfoldable pub prefill_found :
      String → E → String → List (Found E F) × List (Fact E) → Exec Server (Unit {0})
  unfolding ◌>>=◌ pure hydrate_episodes hydrate_knowledge search_and_hydrate_ontology
  prefill_found session_id v episode_uuid (episodes, knowledge) = do
    hydrate_episodes o.numbers o.marks.near o.embed o.codec o.outages session_id episode_uuid 15
        episodes
    hydrate_knowledge o.codec o.outages session_id o.embed_batch 10 knowledge
    search_and_hydrate_ontology session_id v
    pure tt

  unfoldable pub cold_start_prefill : String → String → E → String → Exec Server (Unit {0})
  unfolding ◌>>=◌ pure from_option attempt prefill_found
  cold_start_prefill session_id content v episode_uuid =
      attempt
        (from_option (o.search_falkordb content v episode_uuid)
          >>= prefill_found session_id v episode_uuid)
        (pure tt)

  -- The writes once the entries are counted.
  unfoldable pub store_counted : Request → E → String → ℕ → Exec Service (Fresh E)
  unfolding ◌>>=◌ pure branch on_server traced session_add local_entry cold_start_prefill
  store_counted req v uuid count = do
    traced "session_add"
        (on_server (session_add o.codec o.outages req.session_id uuid (local_entry req v)))
    on_server
        (branch (eqb count 0) (cold_start_prefill req.session_id req.content v uuid) (pure tt))
    pure (record { episode_uuid = uuid; embedding = v; is_cold = eqb count 0 })

  unfoldable pub store_observation : Request → E → Exec Service (Fresh E)
  unfolding ◌>>=◌ gets on_server session_count store_counted
  store_observation req v = do
    uuid ← gets (λ s. o.fresh_uuid s.server)
    count ← on_server (session_count o.outages req.session_id)
    store_counted req v uuid count

  unfoldable pub warm_nodes : Bool → E → Dict (ContextEntry F) → Dict (ContextEntry F)
  unfolding add_nodes
  warm_nodes read_only v entries =
      if not read_only && o.has_ontology_store
      then add_nodes o (or_nil (o.search_nodes v)) entries
      else entries

  unfoldable pub warm_claims : E → Dict (ContextEntry F) → Dict (ContextEntry F)
  unfolding add_claims
  warm_claims v entries =
      if o.has_causal_store then add_claims o (or_nil (o.search_claims v)) entries else entries

  -- The entries of the session: by the embedding, or the last ones.
  unfoldable pub session_entries :
      Request → String → Option E → Exec Service (Dict (ContextEntry F))
  unfolding ◌>>=◌ pure from_option on_server traced session_search session_get_all others
      entries_of_hits warm_nodes warm_claims recent
  session_entries req episode_uuid none = do
    all ← on_server (session_get_all o.codec o.outages req.session_id)
    pure (recent o episode_uuid req.top_k all)
  session_entries req episode_uuid (some v) = do
    hits ← traced "session_search" (
        on_server (
          session_search o.numbers o.cosine o.codec o.outages (o.has_norm v) req.session_id v
            req.top_k o.numbers.nought))
    scored ←
        traced "score_3dim" (from_option (o.score_3dim episode_uuid (others o episode_uuid hits)))
    pure (warm_claims v (warm_nodes req.read_only v (entries_of_hits o scored [])))

  -- The searches of a call that only reads; one that raises finds nothing.
  unfoldable pub augment : String → Option E → Dict (ContextEntry F) → Dict (ContextEntry F)
  unfolding add_nodes add_facts add_episodes
  augment content none entries = entries
  augment content (some v) entries =
      let nodes = if o.has_ontology_store then or_nil (o.search_nodes v) else [] in
      add_nodes o nodes (
        add_facts o (or_nil (o.search_hybrid content))
          (add_episodes o (or_nil (o.search_with_embedding v)) entries))

  unfoldable pub make_answer : Request → String → Bool → Dict (ContextEntry F) → Observation F
  unfolding cap_entries
  make_answer req episode_uuid is_cold entries = record {
    episode_uuid = episode_uuid;
    entries = cap_entries o entries;
    is_cold = is_cold;
    search_query = req.content;
  }

  -- The text is made of the entries if there are any.
  unfoldable pub format_context : Dict (ContextEntry F) → Exec Service String
  unfolding pure from_option traced
  format_context entries =
      if eqb (length entries) 0
      then pure ""
      else traced "format" (from_option (o.format_entries entries))

  unfoldable pub answer_of :
      Request → String → Bool → Dict (ContextEntry F) → Exec Service (Observation F)
  unfolding ◌>>=◌ pure make_answer format_context
  answer_of req episode_uuid is_cold entries = do
    format_context (make_answer req episode_uuid is_cold entries).entries
    pure (make_answer req episode_uuid is_cold entries)

  unfoldable pub observe_read : Request → Exec Service (Observation F)
  unfolding ◌>>=◌ session_entries augment answer_of
  observe_read req = do
    entries ← session_entries req "" (o.embed req.content)
    answer_of req "" false (augment req.content (o.embed req.content) entries)

  -- What follows the writes.
  unfoldable pub answer_new : Request → E → Fresh E → Exec Service (Observation F)
  unfolding ◌>>=◌ pure spawn session_entries answer_of
  answer_new req v new = do
    entries ← session_entries req new.episode_uuid (some v)
    answer ← answer_of req new.episode_uuid new.is_cold entries
    spawn (hydration req.session_id req.content new.episode_uuid)
    pure answer

  -- Without an embedding the answer is empty, under a uuid that nothing is stored for.
  unfoldable pub observe_write : Request → Option E → Exec Service (Observation F)
  unfolding ◌>>=◌ pure gets spawn store_observation answer_new
  observe_write req none = do
    spawn (span_start "embed")
    spawn (span_end "embed" true)
    uuid ← gets (λ s. o.fresh_uuid s.server)
    pure (record { episode_uuid = uuid; entries = []; is_cold = false; search_query = "" })
  observe_write req (some v) = do
    spawn (span_start "embed")
    spawn (span_end "embed" false)
    new ← store_observation req v
    answer_new req v new

  -- The nodes that the minimal path finds: a search that raises ends the call.
  unfoldable pub minimal_nodes : Option E → Option (List (Node E × Option F))
  minimal_nodes none = some []
  minimal_nodes (some v) = if o.has_ontology_store then o.search_nodes v else some []

  unfoldable pub observe_minimal : Request → Exec Service (Observation F)
  unfolding ◌>>=◌ pure from_option minimal_nodes put_facts put_nodes put_episodes
  observe_minimal req = do
    facts ← from_option (o.search_hybrid req.content)
    episodes ← from_option (o.search_episodes req.content)
    nodes ← from_option (minimal_nodes (o.embed req.content))
    pure (record {
      episode_uuid = "";
      entries = put_episodes o episodes (put_nodes o nodes (put_facts o facts []));
      is_cold = false;
      search_query = req.content;
    })

  unfoldable pub observe_core_inner : Request → Exec Service (Observation F)
  unfolding ◌>>=◌ pure branch spawn observe_minimal observe_read observe_write
  observe_core_inner req = do
    branch req.read_only (pure tt) (spawn (ensure_session req.session_id req.parent_session_id))
    branch req.minimal (observe_minimal req)
        (branch req.read_only (observe_read req) (observe_write req (o.embed req.content)))

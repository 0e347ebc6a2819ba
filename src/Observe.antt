-- ===== src/Observe.antt =====
-- services/observe.py: one observation, from the embedding to the entries of the context. What it
-- searches outside the session comes in as a record; the text that is made of the entries and the
-- log are left out. A task that is started with asyncio.create_task is listed, those by which
-- SpanTracer (src/memory_service/intelligence/timing.py) reports a span too.
pub mod Context
pub mod Paths
pub mod Bounds
pub mod Tracing
pub mod ReadOnly
pub mod Cold
pub mod Background
use segnog.Prelude.{
  ℕ, suc, ◌+◌, String, Bool, true, false, not, keep_if, Option, List, [], ◌∷◌, Dict, contains, keys,
  insert, length, ltb, take, sort_by, if◌then◌else◌,
}
use segnog.Scoring.{Numbers, get_or}
use segnog.Exec.{Exec, pure, ◌>>=◌, ◌>>◌}
use segnog.Sessions.{Server, Codec, Outages}
use segnog.Sessions.Search.{Hit}
use segnog.Sessions.Hydration.{Found}
use segnog.Sessions.Batches.{Fact, Node}

-- An entry of the context: `rank` is none where the key is missing.
pub record ContextEntry (F : Type 0) : Type 0 where
  pub content : String
  pub source_type : String
  pub rank : Option F

-- A causal claim that was found, with the text that is made of its summaries and its confidence.
pub record ClaimHit (F : Type 0) : Type 0 where
  pub uuid : String
  pub text : String
  pub score : Option F

-- The constants 0.75, 0.80, 0.85 and 0.99 that are compared with scores.
pub record Marks (F : Type 0) : Type 0 where
  pub knowledge : F
  pub claim : F
  pub node : F
  pub near : F

-- What the observation calls: `none` is an exception. `created_at` is the time that the JSON text of
-- an entry holds, by its uuid.
pub record Sources (E F : Type 0) : Type 0 where
  pub numbers : Numbers F
  pub marks : Marks F
  pub codec : Codec E
  pub outages : Outages
  pub embed : String → Option E
  pub embed_batch : List String → Option (List E)
  pub cosine : E → E → Option F
  pub has_norm : E → Bool
  pub fresh_uuid : Server → String
  pub created_at : String → F
  pub score_3dim : String → List (Hit F) → Option (List (Hit F))
  pub format_entries : Dict (ContextEntry F) → Option String
  pub search_falkordb : String → E → String → Option (List (Found E F) × List (Fact E))
  pub search_hybrid : String → Option (List (Fact E × Option F))
  pub search_episodes : String → Option (List (Found E F))
  pub search_with_embedding : E → Option (List (Found E F))
  pub has_ontology_store : Bool
  pub hydrate_ontology : Bool
  pub search_nodes : E → Option (List (Node E × Option F))
  pub has_causal_store : Bool
  pub search_claims : E → Option (List (ClaimHit F))

-- The tasks that are started: `span_start` and `span_end` are those of SpanTracer.start and end for a
-- step, the latter with the flag `error`.
pub data Task : Type 0 where
  ensure_session : String → Option String → Task
  hydration : String → String → String → Task
  span_start : String → Task
  span_end : String → Bool → Task

pub is_span : Task → Bool
is_span (ensure_session session_id parent) = false
is_span (hydration session_id content uuid) = false
is_span (span_start step) = true
is_span (span_end step error) = true

-- The tasks that do more than report a span.
unfoldable pub works : List Task → List Task
unfolding keep_if is_span
works = keep_if (λ t. not (is_span t))

-- The server of the sessions, and the tasks started so far, the last one first.
pub record Service : Type 0 where
  pub server : Server
  pub tasks : List Task

-- The arguments of a call; those that only the searches read are left to them.
pub record Request : Type 0 where
  pub session_id : String
  pub content : String
  pub metadata : Dict String
  pub read_only : Bool
  pub minimal : Bool
  pub top_k : ℕ
  pub parent_session_id : Option String

-- What a call returns; the text of the context is made of the entries.
pub record Observation (F : Type 0) : Type 0 where
  pub episode_uuid : String
  pub entries : Dict (ContextEntry F)
  pub is_cold : Bool
  pub search_query : String

-- Code on the server alone.
unfoldable pub on_server : {A : Type 0} → Exec Server A → Exec Service A
on_server m s = let (server', r) = m s.server in (record s { server = server' }, r)

unfoldable pub spawn : Task → Exec Service (Unit {0})
spawn t s = (record s { tasks = t ∷ s.tasks }, Option.some tt)

-- A step between `tracer.start` and `tracer.end`: the latter is not reached if the step raises.
unfoldable pub traced : {A : Type 0} → String → Exec Service A → Exec Service A
unfolding ◌>>=◌ pure spawn
traced step m = do spawn (span_start step); a ← m; spawn (span_end step false); pure a

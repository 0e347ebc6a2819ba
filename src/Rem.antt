-- ===== src/Rem.antt =====
-- The REM worker, which consolidates raw episodes in the background
-- (src/memory_service/workers/rem_worker.py, rem_sweep_worker.py), over the graph database. What it
-- calls of the other components comes in as a record: curation, the ontology pipelines, the
-- embedding service.
pub mod Discovery
pub mod Consolidation
pub mod Decay
pub mod Cycle
pub mod Ready
pub mod Lifecycle
pub mod Settled
pub mod Sweeps
use segnog.Prelude.{ℕ, String, Bool, Option, List, ◌==◌, ◌&&◌}
use segnog.Scoring.{Numbers}
use segnog.Exec.{Exec}
use segnog.Graph.{Episode, Database}

-- The components that the worker calls. `similarity` is `(2 - vec.cosineDistance(a, b)) / 2`,
-- `fresh_uuid` is `uuid4()`.
pub record Outside (E F : Type 0) : Type 0 where
  pub numbers : Numbers F
  pub hundredth : F
  pub similarity : E → E → F
  pub embed : String → Option E
  pub fresh_uuid : Database E F → String
  pub run_curation : String → List String → String → Exec (Database E F) (Unit {0})
  pub fast_coverage_ontology : String → List String → String → Exec (Database E F) (Unit {0})
  pub create_about_edges_by_similarity : String → Exec (Database E F) (Unit {0})
  pub update_group_ontology : String → List String → String → Exec (Database E F) (Unit {0})

-- The worker's arguments and the configuration it reads; times are milliseconds.
pub record Settings (F : Type 0) : Type 0 where
  pub batch_size : ℕ
  pub min_episodes : ℕ
  pub has_ontology_store : Bool
  pub dedup_threshold : F
  pub hebbian_enabled : Bool
  pub decay_rate : F
  pub decay_interval : ℕ

module _ {E : Type 0} where
  -- `e.consolidation_status = 'pending' AND e.episode_type = 'raw'`
  unfoldable pub is_pending : Episode E → Bool
  is_pending e = e.consolidation_status == "pending" && e.episode_type == "raw"

-- A group to consolidate.
pub record GroupInfo : Type 0 where
  pub group_id : String
  pub raw_count : ℕ
  pub oldest_ts : ℕ
  pub is_priority : Bool

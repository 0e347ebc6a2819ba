-- ===== src/Graph.antt =====
-- The graph database as the stores and workers use it: episodes, knowledge entries and the edges
-- between episodes (src/memory_service/storage/long_term/episode_store.py and the queries of
-- storage/retrieval/hebbian.py and workers/rem_worker.py). A uuid names one node. The clauses of a
-- Cypher query are functions on the lists; a query may raise, and has changed nothing then.
pub mod Queries
pub mod Update
pub mod Hebbian
pub mod Bounds
pub mod Weights
pub mod Load
use segnog.Prelude.{
  ℕ, zero, suc, ◌+◌, String, Bool, true, false, Option, none, some, List, [], ◌∷◌, ◌==◌, ◌&&◌, Dict,
  if◌then◌else◌,
}

-- An episode's node, with the properties that the code reads or writes. Times are milliseconds.
pub record Episode (E : Type 0) : Type 0 where
  pub group_id : String
  pub content : String
  pub episode_type : String
  pub consolidation_status : String
  pub created_at : ℕ
  pub embedding : Option E
  pub knowledge_extracted : Bool
  pub activation_count : Option ℕ
  pub last_activated_at : Option ℕ

-- A knowledge entry's node.
pub record Knowledge : Type 0 where
  pub activation_count : Option ℕ
  pub last_activated_at : Option ℕ

-- A CO_ACTIVATED edge.
pub record CoActivated (F : Type 0) : Type 0 where
  pub from : String
  pub to : String
  pub weight : F
  pub co_activation_count : ℕ
  pub created_at : ℕ
  pub last_activated_at : ℕ

-- The database: its nodes by uuid, its edges (of an ABOUT edge, the episode), and the number of queries that were sent to it.
pub record Database (E F : Type 0) : Type 0 where
  pub episodes : Dict (Episode E)
  pub knowledge : Dict Knowledge
  pub co_activated : List (CoActivated F)
  pub derived_from : List (String × String)
  pub duplicate_of : List (String × String)
  pub follows : List (String × String)
  pub about : List String
  pub queries : ℕ

-- Which queries raise, by their number.
abbrev pub Faults : Type 0
Faults = ℕ → Bool

module _ {E F A : Type 0} where
  -- One query: `none` is an exception.
  unfoldable pub run_query :
      Faults → (Database E F → Database E F × A) → Database E F → Database E F × Option A
  run_query faults q db =
      let sent = record db { queries = suc db.queries } in
      if faults db.queries then (sent, none) else ((q sent).0, some (q sent).1)

  -- A query that only reads.
  unfoldable pub ro_query : Faults → (Database E F → A) → Database E F → Database E F × Option A
  unfolding run_query
  ro_query faults f = run_query faults (λ db. (db, f db))

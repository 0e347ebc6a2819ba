-- ===== src/Graph/Load.antt =====
-- How much Hebbian reinforcement (storage/retrieval/hebbian.py) asks of the database.
use segnog.Prelude.{
  ℕ, suc, ◌+◌, ◌*◌, ◌≤◌, String, List, [], ◌∷◌, ◌≡◌, refl, map, take, length, length-append,
  length-take-le, Bool-cases, inl, inr, arith,
}
use segnog.Scoring.{Numbers}
use segnog.Graph.{CoActivated, Database, Faults, run_query}
use segnog.Graph.Hebbian.{
  has_edge, strengthen_edge, activate_query, co_activate_query, activate_episode, merge_edge,
  co_activate, reinforce_pair, reinforce_pairs, reinforce_co_activations,
}

-- At most `edges` more edges and at most `sent` more queries than before.
record Adds {E F : Type 0} (edges sent : ℕ) (before after : Database E F) : Type 0 where
  edges_le : length after.co_activated ≤ length before.co_activated + edges
  sent_le : after.queries ≤ before.queries + sent

module _ {F : Type 0} (n : Numbers F) (now : ℕ) where
  length-strengthened :
      (from to : String) (lr : F) (rs : List (CoActivated F))
      → length (map (strengthen_edge n from to lr now) rs) ≡ length rs
  length-strengthened from to lr [] = refl
  length-strengthened from to lr (r ∷ rs) = omega (arith, length-strengthened from to lr rs)

  length-merge_edge :
      (from to : String) (lr : F) (rs : List (CoActivated F))
      → length (merge_edge n from to lr now rs) ≤ suc (length rs)
  unfolding merge_edge
  length-merge_edge from to lr rs = elim (Bool-cases (has_edge from to rs)) [
    | inl e ↦ rw (e, length-strengthened from to lr rs) (omega arith)
    | inr e ↦ rw e (omega (arith, length-append rs (_ ∷ [])))
  ]

module _ {E F : Type 0} (n : Numbers F) (faults : Faults) (activation_cap now : ℕ) where
  activate_episode-Adds :
      (uuid : String) (db : Database E F)
      → Adds 0 1 db (activate_episode faults uuid activation_cap now db).0
  unfolding activate_episode run_query activate_query
  activate_episode-Adds uuid db = ground arith

  co_activate-Adds :
      (trigger result : String) (lr : F) (db : Database E F)
      → Adds 1 1 db (co_activate n faults trigger result lr now db).0
  unfolding co_activate run_query co_activate_query
  co_activate-Adds trigger result lr db =
      ground (arith, length-merge_edge n now trigger result lr db.co_activated)

  reinforce_pair-Adds :
      (trigger result : String) (lr : F) (db : Database E F)
      → Adds 1 2 db (reinforce_pair n faults trigger result lr activation_cap now db).0
  unfolding reinforce_pair
  reinforce_pair-Adds trigger result lr db =
      let db' = (activate_episode faults result activation_cap now db).0 in
      ground (arith, activate_episode-Adds result db, co_activate-Adds trigger result lr db')

  reinforce_pairs-Adds :
      (trigger : String) (lr : F) (results : List String) (db : Database E F)
      → Adds
          (length results)
          (2 * length results)
          db
          (reinforce_pairs n faults trigger lr activation_cap now results db).0
  unfolding reinforce_pairs
  reinforce_pairs-Adds trigger lr [] db = ground arith
  reinforce_pairs-Adds trigger lr (result ∷ rest) db =
      let db' = (reinforce_pair n faults trigger result lr activation_cap now db).0 in
      ground (
        arith,
        reinforce_pair-Adds trigger result lr db,
        reinforce_pairs-Adds trigger lr rest db,
        reinforce_pairs-Adds trigger lr rest db',
      )

  -- However many results there are, reinforcement adds at most `max_pairs` edges, and sends at most
  -- one query and two more for each of `max_pairs` results.
  pub reinforce_co_activations-le :
      (trigger : String) (results : List String) (lr : F) (max_pairs : ℕ) (db : Database E F)
      → (length
            (reinforce_co_activations n faults trigger results lr max_pairs activation_cap now
              db).0.co_activated
          ≤ length db.co_activated + max_pairs)
        × ((reinforce_co_activations n faults trigger results lr max_pairs activation_cap now
              db).0.queries
            ≤ db.queries + (2 * max_pairs + 1))
  unfolding reinforce_co_activations
  reinforce_co_activations-le trigger results lr max_pairs db =
      let db' = (activate_episode faults trigger activation_cap now db).0 in
      ground (
        arith,
        activate_episode-Adds trigger db,
        length-take-le max_pairs results,
        reinforce_pairs-Adds trigger lr (take max_pairs results) db',
      )

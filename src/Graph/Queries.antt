-- ===== src/Graph/Queries.antt =====
-- The rule for a query to the graph database.
use segnog.Prelude.{suc, ◌≡◌, true, inl, inr, Bool-cases}
use segnog.Exec.Triples.{Triple}
use segnog.Graph.{Database, Faults, run_query}

abbrev pub sent : {E F : Type 0} → Database E F → Database E F
sent db = record db { queries = suc db.queries }

module _ {E F A : Type 0} {P : Database E F → Type 0} {Q : A → Database E F → Type 0}
    {X : Database E F → Type 0} where
  -- A query that raises has only been counted.
  pub Triple-run_query :
      (faults : Faults) (q : Database E F → Database E F × A)
      → ((d : Database E F) → P d → faults d.queries ≡ true → X (sent d))
      → ((d : Database E F) → P d → Q (q (sent d)).1 (q (sent d)).0)
      → Triple P (run_query faults q) Q X
  unfolding run_query
  Triple-run_query faults q hx hq = record {
    at = λ d h. elim (Bool-cases (faults d.queries)) [
      | inl raises ↦ rw raises (hx d h raises)
      | inr fine ↦ rw fine (hq d h)
    ];
  }

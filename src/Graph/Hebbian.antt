-- ===== src/Graph/Hebbian.antt =====
-- storage/retrieval/hebbian.py: the reinforcement of what a search found
-- (src/memory_service/storage/retrieval/hebbian.py).
use segnog.Prelude.{
  ℕ, suc, String, Bool, true, false, Option, none, some, List, [], ◌∷◌, ◌++◌, ◌==◌, ◌&&◌, ◌||◌, map,
  Dict, lookup, insert, contains, take, ltb, if◌then◌else◌,
}
use segnog.Scoring.{Numbers, get_or}
use segnog.Graph.{Episode, Knowledge, CoActivated, Database, Faults, run_query}
use segnog.Graph.Update.{update}

-- `CASE WHEN COALESCE(n, 0) < $activation_cap THEN COALESCE(n, 0) + 1 ELSE $activation_cap END`
unfoldable pub next_count : ℕ → Option ℕ → ℕ
next_count activation_cap count =
    if ltb (get_or count 0) activation_cap then suc (get_or count 0) else activation_cap

unfoldable pub has_node : {V : Type 0} → String → Dict V → Bool
unfolding lookup
has_node uuid nodes = elim (lookup uuid nodes) [ none ↦ false | some v ↦ true ]

module _ {E : Type 0} where
  unfoldable pub activate : ℕ → ℕ → Episode E → Episode E
  unfolding next_count
  activate activation_cap now e = record e {
    activation_count = some (next_count activation_cap e.activation_count);
    last_activated_at = some now;
  }

unfoldable pub activate_knowledge : ℕ → ℕ → Knowledge → Knowledge
unfolding next_count
activate_knowledge activation_cap now k = record k {
  activation_count = some (next_count activation_cap k.activation_count);
  last_activated_at = some now;
}

module _ {F : Type 0} where
  unfoldable pub is_edge : String → String → CoActivated F → Bool
  is_edge from to r = r.from == from && r.to == to

  unfoldable pub has_edge : String → String → List (CoActivated F) → Bool
  unfolding is_edge
  has_edge from to [] = false
  has_edge from to (r ∷ rs) = is_edge from to r || has_edge from to rs

  unfoldable pub weights_from : String → List String → List (CoActivated F) → Dict F → Dict F
  unfolding contains insert
  weights_from trigger results [] weights = weights
  weights_from trigger results (r ∷ rs) weights =
      weights_from trigger results rs (
        if r.from == trigger && contains r.to results
        then insert r.to r.weight weights
        else weights)

module _ {F : Type 0} (n : Numbers F) where
  -- `r.weight + $lr * (1.0 - r.weight)`
  abbrev pub grown : F → F → F
  grown lr w = n.add w (n.mul lr (n.sub n.one w))

  unfoldable pub strengthen : F → ℕ → CoActivated F → CoActivated F
  strengthen lr now r = record r {
    weight = grown lr r.weight;
    co_activation_count = suc r.co_activation_count;
    last_activated_at = now;
  }

  unfoldable pub strengthen_edge : String → String → F → ℕ → CoActivated F → CoActivated F
  unfolding is_edge strengthen
  strengthen_edge from to lr now r = if is_edge from to r then strengthen lr now r else r

  -- `MERGE (trigger)-[r:CO_ACTIVATED]->(result) ON CREATE SET … ON MATCH SET …`: all edges that
  -- match are strengthened, and one is created if none does.
  unfoldable pub merge_edge : String → String → F → ℕ → List (CoActivated F) → List (CoActivated F)
  unfolding has_edge strengthen_edge
  merge_edge from to lr now rs =
      if has_edge from to rs
      then map (strengthen_edge from to lr now) rs
      else rs
        ++ record {
          from = from;
          to = to;
          weight = lr;
          co_activation_count = 1;
          created_at = now;
          last_activated_at = now;
        }
          ∷ []

module _ {E F : Type 0} where
  -- The query that increments an episode's count.
  unfoldable pub activate_query : String → ℕ → ℕ → Database E F → Database E F × Unit {0}
  unfolding update activate
  activate_query uuid activation_cap now db =
      (record db { episodes = update uuid (activate activation_cap now) db.episodes }, tt)

  -- The query that creates or strengthens an edge, if there are both episodes.
  unfoldable pub co_activate_query :
      Numbers F → String → String → F → ℕ → Database E F → Database E F × Unit {0}
  unfolding has_node merge_edge
  co_activate_query n trigger result lr now db = (
    if has_node trigger db.episodes && has_node result db.episodes
        then record db { co_activated = merge_edge n trigger result lr now db.co_activated }
        else db,
    tt,
  )

module _ {E F : Type 0} (faults : Faults) where
  unfoldable pub activate_episode : String → ℕ → ℕ → Database E F → Database E F × Option (Unit {0})
  unfolding run_query activate_query
  activate_episode uuid activation_cap now =
      run_query faults (activate_query uuid activation_cap now)

  -- `reinforce_knowledge_activations`, with the number of entries activated.
  unfoldable pub reinforce_knowledge : List String → ℕ → ℕ → Database E F → Database E F × ℕ
  unfolding run_query update activate_knowledge
  reinforce_knowledge [] activation_cap now db = (db, 0)
  reinforce_knowledge (uuid ∷ rest) activation_cap now db =
      let (db', done) =
        run_query faults
          (λ d. (
            record d {
              knowledge = update uuid (activate_knowledge activation_cap now) d.knowledge;
            },
            tt {0},
          ))
          db in
      let (db'', count) = reinforce_knowledge rest activation_cap now db' in
      (db'', elim done [ none ↦ count | some ok ↦ suc count ])

  -- A query that raises gives no weights.
  unfoldable pub get_co_activation_weights :
      String → List String → Database E F → Database E F × Dict F
  unfolding run_query weights_from
  get_co_activation_weights trigger results db =
      let (db', rows) =
        run_query faults (λ d. (d, weights_from trigger results d.co_activated [])) db in
      if trigger == ""
      then (db, [])
      else (elim results [ [] ↦ (db, []) | r ∷ rs ↦ (db', get_or rows []) ])

module _ {E F : Type 0} (n : Numbers F) (faults : Faults) where
  unfoldable pub co_activate :
      String → String → F → ℕ → Database E F → Database E F × Option (Unit {0})
  unfolding run_query co_activate_query
  co_activate trigger result lr now = run_query faults (co_activate_query n trigger result lr now)

  -- The two queries for one result, in a `try`: whether both went through.
  unfoldable pub reinforce_pair : String → String → F → ℕ → ℕ → Database E F → Database E F × Bool
  unfolding activate_episode co_activate
  reinforce_pair trigger result lr activation_cap now db =
      let (db', first) = activate_episode faults result activation_cap now db in
      elim first [
        | none ↦ (db', false)
        | some done ↦
            let (db'', second) = co_activate trigger result lr now db' in
            (db'', elim second [ none ↦ false | some done' ↦ true ])
      ]

  -- `for result_uuid in …`: the database, and how many were reinforced.
  unfoldable pub reinforce_pairs :
      String → F → ℕ → ℕ → List String → Database E F → Database E F × ℕ
  unfolding reinforce_pair
  reinforce_pairs trigger lr activation_cap now [] db = (db, 0)
  reinforce_pairs trigger lr activation_cap now (result ∷ rest) db =
      let skip = reinforce_pairs trigger lr activation_cap now rest db in
      let (db', done) = reinforce_pair trigger result lr activation_cap now db in
      let (db'', count) = reinforce_pairs trigger lr activation_cap now rest db' in
      if result == trigger then skip else (db'', if done then suc count else count)

  unfoldable pub reinforce_co_activations :
      String → List String → F → ℕ → ℕ → ℕ → Database E F → Database E F × ℕ
  unfolding activate_episode reinforce_pairs
  reinforce_co_activations trigger results lr max_pairs activation_cap now db =
      reinforce_pairs trigger lr activation_cap now (take max_pairs results)
        (activate_episode faults trigger activation_cap now db).0

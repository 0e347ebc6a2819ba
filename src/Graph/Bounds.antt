-- ===== src/Graph/Bounds.antt =====
-- What Hebbian reinforcement (storage/retrieval/hebbian.py) keeps of the graph, whichever queries
-- raise: the bounds on counts and weights, and the shape of the edges.
use segnog.Prelude.{
  ℕ, suc, ◌≤◌, String, false, List, [], ◌∷◌, ◌≡◌, ◌==◌, ◌&&◌, inl, inr, map, take, All, All-append,
  Bool-cases, Option-cases, arith,
}
use segnog.Scoring.{Numbers, get_or}
use segnog.Graph.{Episode, CoActivated, Database, Faults, run_query}
use segnog.Graph.Update.{All-update}
use segnog.Graph.Hebbian.{
  has_node, activate, activate_query, co_activate_query, activate_episode, is_edge, has_edge,
  strengthen, strengthen_edge, merge_edge, co_activate, reinforce_pair, reinforce_pairs,
  reinforce_co_activations,
}
use segnog.Graph.Weights.{IsUnit, IsGrowing, grown-IsUnit}

-- The nodes' counts within the cap, the edges' weights between nought and one, and no edge from an
-- episode to itself.
pub record IsBounded {E F : Type 0} (n : Numbers F) (activation_cap : ℕ) (db : Database E F)
    : Type 0 where
  pub counts : All (λ e. get_or e.1.activation_count 0 ≤ activation_cap) db.episodes
  pub weights : All (λ r. IsUnit n r.weight) db.co_activated
  pub loopless : All (λ r. (r.to == r.from) ≡ false) db.co_activated

module _ {E F A : Type 0} where
  -- A query keeps what its effect keeps, if the number of queries does not matter.
  pub run_query-keeps :
      (P : Database E F → Type 0) (faults : Faults) (q : Database E F → Database E F × A)
      (db : Database E F)
      → ((d : Database E F) → P d → P (record d { queries = suc d.queries }))
      → ((d : Database E F) → P d → P (q d).0)
      → P db
      → P (run_query faults q db).0
  unfolding run_query
  run_query-keeps P faults q db count keep h = elim (Bool-cases (faults db.queries)) [
    | inl raises ↦ rw raises (count db h)
    | inr fine ↦ rw fine (keep (record db { queries = suc db.queries }) (count db h))
  ]

module _ {F : Type 0} (n : Numbers F) (now : ℕ) where
  All-strengthened :
      (P : CoActivated F → Type 0) (from to : String) (lr : F) (rs : List (CoActivated F))
      → ((r : CoActivated F) → P r → P (strengthen n lr now r))
      → All P rs
      → All P (map (strengthen_edge n from to lr now) rs)
  unfolding strengthen_edge
  All-strengthened P from to lr [] grow h = tt
  All-strengthened P from to lr (r ∷ rs) grow h =
      let later = All-strengthened P from to lr rs grow h.1 in
      elim (Bool-cases (is_edge from to r)) [
        | inl e ↦ rw e (grow r h.0, later)
        | inr e ↦ rw e (h.0, later)
      ]

  merge_edge-IsUnit :
      (g : IsGrowing n) (from to : String) (lr : F) (rs : List (CoActivated F))
      → IsUnit n lr
      → All (λ r. IsUnit n r.weight) rs
      → All (λ r. IsUnit n r.weight) (merge_edge n from to lr now rs)
  unfolding merge_edge strengthen
  merge_edge-IsUnit g from to lr rs u h = elim (Bool-cases (has_edge from to rs)) [
    | inl e ↦ rw e (
        All-strengthened (λ r. IsUnit n r.weight) from to lr rs
          (λ r v. grown-IsUnit n g lr r.weight u v) h)
    | inr e ↦ rw e (All-append (λ r. IsUnit n r.weight) rs _ h (u, tt))
  ]

  merge_edge-loopless :
      (from to : String) (lr : F) (rs : List (CoActivated F))
      → (to == from) ≡ false
      → All (λ r. (r.to == r.from) ≡ false) rs
      → All (λ r. (r.to == r.from) ≡ false) (merge_edge n from to lr now rs)
  unfolding merge_edge strengthen
  merge_edge-loopless from to lr rs u h = elim (Bool-cases (has_edge from to rs)) [
    | inl e ↦
        rw e (All-strengthened (λ r. (r.to == r.from) ≡ false) from to lr rs (λ r apart. apart) h)
    | inr e ↦ rw e (All-append (λ r. (r.to == r.from) ≡ false) rs _ h (u, tt))
  ]

module _ {E F : Type 0} (n : Numbers F) (g : IsGrowing n) (faults : Faults)
    (activation_cap now : ℕ) where
  count-IsBounded :
      (d : Database E F)
      → IsBounded n activation_cap d
      → IsBounded n activation_cap (record d { queries = suc d.queries })
  count-IsBounded d b = record { counts = b.counts; weights = b.weights; loopless = b.loopless }

  activate_episode-IsBounded :
      (uuid : String) (db : Database E F)
      → IsBounded n activation_cap db
      → IsBounded n activation_cap (activate_episode faults uuid activation_cap now db).0
  unfolding activate_episode activate_query activate
  activate_episode-IsBounded uuid db b =
      run_query-keeps (IsBounded n activation_cap) faults (activate_query uuid activation_cap now)
        db count-IsBounded
        (λ d k. record {
          counts =
              All-update (λ e. get_or e.activation_count 0 ≤ activation_cap) uuid
                (activate activation_cap now) d.episodes (λ e h. activate-le e) k.counts;
          weights = k.weights;
          loopless = k.loopless;
        })
        b
    where
      activate-le :
          (e : Episode E)
          → get_or (activate activation_cap now e).activation_count 0 ≤ activation_cap
      activate-le e = ground arith

  co_activate-IsBounded :
      (trigger result : String) (lr : F) (db : Database E F)
      → IsUnit n lr
      → (result == trigger) ≡ false
      → IsBounded n activation_cap db
      → IsBounded n activation_cap (co_activate n faults trigger result lr now db).0
  unfolding co_activate co_activate_query
  co_activate-IsBounded trigger result lr db u other b =
      run_query-keeps (IsBounded n activation_cap) faults
        (co_activate_query n trigger result lr now) db count-IsBounded
        (λ d k. elim (Bool-cases (has_node trigger d.episodes && has_node result d.episodes)) [
          | inl found ↦ rw found (record {
            counts = k.counts;
            weights = merge_edge-IsUnit n now g trigger result lr d.co_activated u k.weights;
            loopless = merge_edge-loopless n now trigger result lr d.co_activated other k.loopless;
          })
          | inr missing ↦ rw missing k
        ])
        b

  reinforce_pair-IsBounded :
      (trigger result : String) (lr : F) (db : Database E F)
      → IsUnit n lr
      → (result == trigger) ≡ false
      → IsBounded n activation_cap db
      → IsBounded n activation_cap
          (reinforce_pair n faults trigger result lr activation_cap now db).0
  unfolding reinforce_pair
  reinforce_pair-IsBounded trigger result lr db u other b =
      let (db', first) = activate_episode faults result activation_cap now db in
      let b' = activate_episode-IsBounded result db b in
      elim (Option-cases first) [
        | inr raised ↦ rw (raised, reinforce_pair) b'
        | inl (done, fine) ↦
            rw (fine, reinforce_pair) (co_activate-IsBounded trigger result lr db' u other b')
      ]

  reinforce_pairs-IsBounded :
      (trigger : String) (lr : F) (results : List String) (db : Database E F)
      → IsUnit n lr
      → IsBounded n activation_cap db
      → IsBounded n activation_cap
          (reinforce_pairs n faults trigger lr activation_cap now results db).0
  unfolding reinforce_pairs
  reinforce_pairs-IsBounded trigger lr [] db u b = b
  reinforce_pairs-IsBounded trigger lr (result ∷ rest) db u b =
      elim (Bool-cases (result == trigger)) [
        | inl same ↦ rw same (reinforce_pairs-IsBounded trigger lr rest db u b)
        | inr other ↦ rw other (
            reinforce_pairs-IsBounded trigger lr rest
              (reinforce_pair n faults trigger result lr activation_cap now db).0 u
              (reinforce_pair-IsBounded trigger result lr db u other b))
      ]

-- With arithmetic that has the laws `IsGrowing`, as that of doubles has, and a learning rate between nought and one, reinforcement keeps every activation count within
-- the cap and every weight between nought and one, and makes no edge from an episode to itself,
-- whichever queries raise.
pub reinforce_co_activations-IsBounded :
    {E F : Type 0} (n : Numbers F) (g : IsGrowing n) (faults : Faults) (trigger : String)
    (results : List String) (lr : F) (max_pairs activation_cap now : ℕ) (db : Database E F)
    → IsUnit n lr
    → IsBounded n activation_cap db
    → IsBounded n activation_cap
        (reinforce_co_activations n faults trigger results lr max_pairs activation_cap now db).0
unfolding reinforce_co_activations
reinforce_co_activations-IsBounded n g faults trigger results lr max_pairs activation_cap now db u
      b =
    reinforce_pairs-IsBounded n g faults activation_cap now trigger lr (take max_pairs results)
      (activate_episode faults trigger activation_cap now db).0 u
      (activate_episode-IsBounded n g faults activation_cap now trigger db b)

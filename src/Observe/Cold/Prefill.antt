-- ===== src/Observe/Cold/Prefill.antt =====
-- services/observe.py: the pre-fill of a cold start leaves the entry of the observation alone, on a
-- connection on which no command fails.
use segnog.Prelude.{ℕ, String, false, List, [], ◌∷◌, ◌≡◌, ◌&&◌, length, take, map, arith}
use segnog.Exec.{pure, from_option}
use segnog.Exec.Triples.{
  NoRaise, Triple, Triple-pure, Triple-attempt, Triple-bind, Triple-branch, Triple-weaken,
  Triple-from_option,
}
use segnog.Sessions.{Server, session}
use segnog.Sessions.Exact.{Grew, Triple-hydrate_loop}
use segnog.Sessions.Hydration.{Found, hydrate_episodes}
use segnog.Sessions.Batches.{
  Fact, fact_items, node_items, hydrate_knowledge, hydrate_ontology_nodes,
}
use segnog.Observe.{Sources}
use segnog.Observe.Cold.Items.{Has, Triple-batch}
use segnog.Observe.Paths.{search_and_hydrate_ontology, prefill_found, cold_start_prefill}

module _ {E F : Type 0} (o : Sources E F) (fine : (k : ℕ) → o.outages k ≡ false)
    (session_id uuid text : String) where
  abbrev Holds : Server → Type 0
  Holds = Has o fine session_id uuid text

  Triple-episodes :
      (episodes : List (Found E F))
      → Triple Holds
          (hydrate_episodes o.numbers o.marks.near o.embed o.codec o.outages session_id uuid 15
            episodes)
          (λ _. Holds)
          NoRaise
  unfolding hydrate_episodes
  Triple-episodes episodes = record {
    at = λ s h.
        let size = length (session session_id s) in
        let start = (uuid, text) ∷ [] in
        let m =
          hydrate_episodes o.numbers o.marks.near o.embed o.codec o.outages session_id uuid 15
            episodes in
        let Grows : ℕ → Server → Type 0 =
          Grew o.numbers o.marks.near o.embed o.codec o.outages fine session_id uuid size start in
        let grown : Triple (Grows 0) m (λ _. Holds) NoRaise =
          Triple-weaken m (λ s' h'. h') (λ k s' h'. (h'.0, h'.2.0)) (λ s' h'. h')
            (Triple-hydrate_loop o.numbers o.marks.near o.embed o.codec o.outages fine session_id
              uuid size start 15 0 episodes) in
        grown.at s (h.0, omega arith, (h.1, tt));
  }

  Triple-ontology :
      (v : E) → Triple Holds (search_and_hydrate_ontology o session_id v) (λ _. Holds) NoRaise
  unfolding search_and_hydrate_ontology hydrate_ontology_nodes
  Triple-ontology v =
      Triple-branch (o.has_ontology_store && o.hydrate_ontology) _ (pure 0)
        (λ e.
          Triple-attempt _ (pure 0) Holds
            (Triple-bind (from_option (o.search_nodes v)) _ (λ _. Holds)
              (Triple-from_option (o.search_nodes v) (λ gone s h. h) (λ nodes s h. h))
              (λ nodes.
                Triple-weaken
                  (hydrate_ontology_nodes o.codec o.outages session_id o.embed_batch 5
                    (map (λ hit. hit.0) nodes))
                  (λ s h. h) (λ a s h. h) (λ s h. absurd h)
                  (Triple-batch o fine session_id uuid text "ontology_node"
                    (node_items (take 5 (map (λ hit. hit.0) nodes))))))
            (Triple-pure 0 (λ s h. h)))
        (λ e. Triple-pure 0 (λ s h. h))

  Triple-found :
      (v : E) (found : List (Found E F) × List (Fact E))
      → Triple Holds (prefill_found o session_id v uuid found) (λ _. Holds) NoRaise
  unfolding prefill_found hydrate_knowledge
  Triple-found v (episodes, knowledge) =
      Triple-bind _ _ (λ _. Holds) (Triple-episodes episodes)
        (λ _.
          Triple-bind _ _ (λ _. Holds)
            (Triple-batch o fine session_id uuid text "hydrated_knowledge"
              (fact_items (take 10 knowledge)))
            (λ _.
              Triple-bind _ _ (λ _. Holds) (Triple-ontology v) (λ _. Triple-pure tt (λ s h. h))))

  -- Whatever is found, and whatever raises, the pre-fill leaves the entry as it is.
  pub Triple-cold_start_prefill :
      (content : String) (v : E)
      → Triple Holds (cold_start_prefill o session_id content v uuid) (λ _. Holds) NoRaise
  unfolding cold_start_prefill
  Triple-cold_start_prefill content v =
      Triple-attempt _ (pure tt) Holds
        (Triple-bind (from_option (o.search_falkordb content v uuid)) _ (λ _. Holds)
          (Triple-from_option (o.search_falkordb content v uuid) (λ gone s h. h) (λ found s h. h))
          (λ found.
            Triple-weaken (prefill_found o session_id v uuid found) (λ s h. h) (λ a s h. h)
              (λ s h. absurd h) (Triple-found v found)))
        (Triple-pure tt (λ s h. h))

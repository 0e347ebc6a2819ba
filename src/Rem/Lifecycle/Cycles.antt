-- ===== src/Rem/Lifecycle/Cycles.antt =====
-- The whole cycle, under what the other components keep.
use segnog.Prelude.{
  ℕ, String, Bool, true, false, some, List, [], ◌∷◌, ◌≡◌, ◌-◌, ◌++◌, refl, inl, Dict, keys, lookup,
  Distinct, length, leb, take,
}
use segnog.Exec.{pure, branch}
use segnog.Exec.Triples.{
  NoRaise, returned, Triple, Triple-pure, Triple-attempt, Triple-bind, Triple-branch,
}
use segnog.Graph.{Episode, Database, Faults, run_query, ro_query}
use segnog.Rem.{Outside, Settings, GroupInfo}
use segnog.Rem.Discovery.{
  find_ontology_groups, find_rows, query_pending_groups, find_pending_groups, ontology_groups,
  discovery_rows,
}
use segnog.Rem.Consolidation.{consolidate_group}
use segnog.Rem.Decay.{decay_query, prune_query, decay_hebbian_weights}
use segnog.Rem.Cycle.{try_group, try_groups, run_cycle}
use segnog.Rem.Lifecycle.{MayStep}
use segnog.Rem.Lifecycle.Quiet.{IsQuiet, IsStable, Triple-quiet, Triple-ro_query}
use segnog.Rem.Lifecycle.Groups.{Stepped, Stepped-IsStable, Triple-consolidate_group}

module _ {E F : Type 0} {P : Database E F → Type 0} (st : IsStable P) (faults : Faults) where
  Triple-query_pending_groups :
      (since min_episodes : ℕ) (has_ontology : Bool) (limit now : ℕ)
      → Triple P
          (query_pending_groups faults since min_episodes has_ontology limit now)
          (λ _. P)
          NoRaise
  unfolding query_pending_groups find_ontology_groups find_rows
  Triple-query_pending_groups since min_episodes has_ontology limit now =
      Triple-bind (find_ontology_groups faults) _ (λ _. P)
        (Triple-attempt (ro_query faults (λ db. ontology_groups db.about db.episodes)) (pure []) P
          (Triple-ro_query st faults (λ db. ontology_groups db.about db.episodes))
          (Triple-pure [] (λ d s. s)))
        λ names.
          Triple-bind (find_rows faults since min_episodes limit) _ (λ _. P)
            (Triple-attempt
              (ro_query faults (λ db. discovery_rows since min_episodes limit db.episodes))
              (pure []) P
              (Triple-ro_query st faults
                (λ db. discovery_rows since min_episodes limit db.episodes))
              (Triple-pure [] (λ d s. s)))
            λ rows. Triple-pure _ (λ d s. s)

  pub Triple-find_pending_groups :
      (since min_episodes limit now : ℕ)
      → Triple P (find_pending_groups faults since min_episodes limit now) (λ _. P) NoRaise
  unfolding find_pending_groups branch
  Triple-find_pending_groups since min_episodes limit now =
      Triple-bind (query_pending_groups faults since min_episodes false limit now) _ (λ _. P)
        (Triple-query_pending_groups since min_episodes false limit now)
        λ priority.
          Triple-branch (leb limit (length priority)) (pure (take limit priority)) _
            (λ e. Triple-pure (take limit priority) (λ d s. s))
            (λ e.
              Triple-bind
                (query_pending_groups faults since min_episodes true (limit - length priority) now)
                _ (λ _. P)
                (Triple-query_pending_groups since min_episodes true (limit - length priority) now)
                (λ normal. Triple-pure (priority ++ normal) (λ d s. s)))

  pub Triple-decay :
      (o : Outside E F) (cfg : Settings F) (now : ℕ)
      → Triple P (decay_hebbian_weights o cfg faults now) (λ _. P) NoRaise
  unfolding decay_hebbian_weights decay_query prune_query
  Triple-decay o cfg now =
      Triple-branch cfg.hebbian_enabled _ (pure tt)
        (λ e.
          Triple-attempt _ (pure tt) P
            (Triple-bind (run_query faults (decay_query o cfg now)) _ (λ _. P)
              (Triple-quiet st faults (decay_query o cfg now) (λ d. refl))
              (λ _. Triple-quiet st faults (prune_query o cfg) (λ d. refl)))
            (Triple-pure tt (λ d s. s)))
        (λ e. Triple-pure tt (λ d s. s))

module _ {E F : Type 0} (d0 : Dict (Episode E)) (o : Outside E F) (quiet : IsQuiet o)
    (cfg : Settings F) (faults : Faults) where
  Triple-try_groups :
      (now : ℕ) (gs : List GroupInfo)
      → Triple (Stepped d0) (try_groups o cfg faults now gs) (λ _. Stepped d0) NoRaise
  unfolding try_groups try_group
  Triple-try_groups now [] = Triple-pure true (λ d s. s)
  Triple-try_groups now (g ∷ gs) =
      Triple-bind (try_group o cfg faults now g) _ (λ _. Stepped d0)
        (Triple-attempt _ (pure false) (Stepped d0)
          (Triple-bind (consolidate_group o cfg faults g now) (λ _. pure true) (λ _. Stepped d0)
            (Triple-consolidate_group d0 o quiet cfg faults g now)
            (λ _. Triple-pure true (λ d s. s)))
          (Triple-pure false (λ d s. s)))
        λ done.
          Triple-bind (try_groups o cfg faults now gs) _ (λ _. Stepped d0)
            (Triple-try_groups now gs) (λ rest. Triple-pure _ (λ d s. s))

  Triple-run_cycle :
      (last_sweep cycle_start now : ℕ)
      → Triple
          (Stepped d0)
          (run_cycle o cfg faults last_sweep cycle_start now)
          (λ _. Stepped d0)
          NoRaise
  unfolding run_cycle
  Triple-run_cycle last_sweep cycle_start now =
      Triple-bind _ _ (λ _. Stepped d0)
        (Triple-find_pending_groups (Stepped-IsStable d0) faults last_sweep cfg.min_episodes
          cfg.batch_size now)
        λ groups.
          Triple-bind (try_groups o cfg faults now groups) _ (λ _. Stepped d0)
            (Triple-try_groups now groups)
            λ done.
              Triple-bind (decay_hebbian_weights o cfg faults now) _ (λ _. Stepped d0)
                (Triple-decay (Stepped-IsStable d0) faults o cfg now) λ _. Triple-pure _ (λ d s. s)

-- If the other components add episodes only and leave the status of those that are there, then a
-- cycle from a database whose uuids name one node each loses no episode, keeps its type, and
-- changes its status at most from pending, if the episode is raw, to duplicate or consolidated,
-- whichever queries and components raise.
pub run_cycle-MayStep :
    {E F : Type 0} (o : Outside E F) (quiet : IsQuiet o) (cfg : Settings F) (faults : Faults)
    (last_sweep cycle_start now : ℕ) (db : Database E F)
    → Distinct (keys db.episodes)
    → (uuid : String) (e : Episode E) → lookup uuid db.episodes ≡ some e
    → (e' : Episode E) × (lookup uuid
          (run_cycle o cfg faults last_sweep cycle_start now db).0.episodes
        ≡ some e')
      × MayStep e e'
run_cycle-MayStep o quiet cfg faults last_sweep cycle_start now db dis uuid e found =
    let start : Stepped db.episodes db = record {
      distinct = dis;
      at = λ uuid e h. (e, h, inl (refl, refl));
    } in
    let (time, ends, stepped) =
      returned (run_cycle o cfg faults last_sweep cycle_start now) db
        (Triple-run_cycle db.episodes o quiet cfg faults last_sweep cycle_start now) start in
    stepped.at uuid e found

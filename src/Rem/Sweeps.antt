-- ===== src/Rem/Sweeps.antt =====
-- The cycle as a whole: it ends without an exception, and with which time of the last sweep.
use segnog.Prelude.{
  ℕ, true, false, Option, none, some, List, [], ◌∷◌, ◌≡◌, refl, inl, inr, ◌⊎◌, Bool-cases,
  if◌then◌else◌,
}
use segnog.Exec.{Exec, pure, ◌>>◌}
use segnog.Exec.Triples.{
  Ends, NoRaise, returned, Triple, Triple-pure, Triple-attempt, Triple-bind, Triple-branch,
}
use segnog.Graph.{Database, Faults, run_query}
use segnog.Rem.{Outside, Settings, GroupInfo}
use segnog.Rem.Discovery.{find_pending_groups}
use segnog.Rem.Consolidation.{consolidate_group}
use segnog.Rem.Decay.{decay_query, prune_query, decay_hebbian_weights}
use segnog.Rem.Cycle.{try_group, try_groups, run_cycle}
use segnog.Rem.Ready.{find_pending_groups-IsReady}

abbrev Anything : {S : Type 0} → S → Type 0
Anything s = Unit

Triple-any : {S A : Type 0} (m : Exec S A) → Triple Anything m (λ _. Anything) Anything
Triple-any {S = S} {A = A} m = record { at = λ s h. ends (m s).0 (m s).1 }
  where
    ends : (s : S) (r : Option A) → Ends (λ _. Anything) Anything s r
    ends s none = tt
    ends s (some a) = tt

module _ {E F : Type 0} (o : Outside E F) (cfg : Settings F) (faults : Faults) where
  Triple-try_groups :
      (now : ℕ) (gs : List GroupInfo)
      → Triple Anything (try_groups o cfg faults now gs) (λ _. Anything) NoRaise
  unfolding try_groups try_group
  Triple-try_groups now [] = Triple-pure true (λ d s. tt)
  Triple-try_groups now (g ∷ gs) =
      let body = consolidate_group o cfg faults g now >> pure true in
      Triple-bind (try_group o cfg faults now g) _ (λ _. Anything)
        (Triple-attempt body (pure false) Anything (Triple-any body)
          (Triple-pure false (λ d s. tt)))
        λ done.
          Triple-bind (try_groups o cfg faults now gs) _ (λ _. Anything) (Triple-try_groups now gs)
            (λ rest. Triple-pure _ (λ d s. tt))

  Triple-decay :
      (now : ℕ) → Triple Anything (decay_hebbian_weights o cfg faults now) (λ _. Anything) NoRaise
  unfolding decay_hebbian_weights
  Triple-decay now =
      let body = run_query faults (decay_query o cfg now) >> run_query faults (prune_query o cfg) in
      Triple-branch cfg.hebbian_enabled _ (pure tt)
        (λ e. Triple-attempt body (pure tt) Anything (Triple-any body) (Triple-pure tt (λ d s. tt)))
        (λ e. Triple-pure tt (λ d s. tt))

  Triple-find :
      (since min_episodes limit now : ℕ)
      → Triple Anything
          (find_pending_groups {E = E} {F = F} faults since min_episodes limit now)
          (λ _. Anything)
          NoRaise
  Triple-find since min_episodes limit now = record {
    at = λ d h.
        let (gs, ends, few, ready, same) =
          find_pending_groups-IsReady faults since min_episodes limit now d in
        rw ends tt;
  }

  -- Whichever queries and components raise, no exception leaves a cycle, and the time of the last
  -- sweep stays or becomes the time at which the cycle started.
  pub run_cycle-returns :
      (last_sweep cycle_start now : ℕ) (db : Database E F)
      → (t : ℕ) × ((run_cycle o cfg faults last_sweep cycle_start now db).1 ≡ some t)
        × ((t ≡ cycle_start) ⊎ (t ≡ last_sweep))
  unfolding run_cycle
  run_cycle-returns last_sweep cycle_start now db =
      returned {Q = λ t d. (t ≡ cycle_start) ⊎ (t ≡ last_sweep)}
        (run_cycle o cfg faults last_sweep cycle_start now) db
        (Triple-bind _ _ (λ _. Anything)
          (Triple-find last_sweep cfg.min_episodes cfg.batch_size now)
          λ groups.
            Triple-bind (try_groups o cfg faults now groups) _ (λ _. Anything)
              (Triple-try_groups now groups)
              λ done.
                Triple-bind (decay_hebbian_weights o cfg faults now) _ (λ _. Anything)
                  (Triple-decay now)
                  λ _. Triple-pure (if done then cycle_start else last_sweep) (λ d s.
                    elim (Bool-cases done) [
                      | inl all ↦ rw all (inl refl)
                      | inr failed ↦ rw failed (inr refl)
                    ]))
        tt

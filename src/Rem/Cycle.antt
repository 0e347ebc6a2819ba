-- ===== src/Rem/Cycle.antt =====
-- rem_worker.py: `_run_cycle`, and `_run_sweep` of rem_sweep_worker.py. The clock is read at the
-- start of the cycle, for the discovery, for each group and for the decay; a model's cycle is given
-- the first reading and one for the rest.
use segnog.Prelude.{ℕ, Bool, true, false, List, [], ◌∷◌, if◌then◌else◌}
use segnog.Exec.{Exec, pure, attempt, ◌>>=◌, ◌>>◌}
use segnog.Graph.{Database, Faults}
use segnog.Rem.{Outside, Settings, GroupInfo}
use segnog.Rem.Discovery.{find_pending_groups}
use segnog.Rem.Consolidation.{consolidate_group}
use segnog.Rem.Decay.{decay_hebbian_weights}

module _ {E F : Type 0} (o : Outside E F) (cfg : Settings F) (faults : Faults) where
  -- Whether the group's consolidation went through: an exception is logged.
  unfoldable pub try_group : ℕ → GroupInfo → Exec (Database E F) Bool
  unfolding attempt pure ◌>>=◌ consolidate_group
  try_group now g = attempt (do consolidate_group o cfg faults g now; pure true) (pure false)

  -- The loop over the groups: whether none failed.
  unfoldable pub try_groups : ℕ → List GroupInfo → Exec (Database E F) Bool
  unfolding ◌>>=◌ pure try_group
  try_groups now [] = pure true
  try_groups now (g ∷ gs) = do
    done ← try_group now g
    rest ← try_groups now gs
    pure (if done then rest else false)

  -- The cycle gives the time of the last sweep for the next one.
  unfoldable pub run_cycle : ℕ → ℕ → ℕ → Exec (Database E F) ℕ
  unfolding ◌>>=◌ pure find_pending_groups try_groups decay_hebbian_weights
  run_cycle last_sweep cycle_start now = do
    groups ← find_pending_groups faults last_sweep cfg.min_episodes cfg.batch_size now
    done ← try_groups now groups
    decay_hebbian_weights o cfg faults now
    pure (if done then cycle_start else last_sweep)

  -- A sweep is a cycle of a new worker, whose last sweep is at nought.
  unfoldable pub run_sweep : ℕ → ℕ → Exec (Database E F) ℕ
  unfolding run_cycle
  run_sweep cycle_start now = run_cycle 0 cycle_start now

-- ===== src/Rem/Decay.antt =====
-- rem_worker.py: `_decay_hebbian_weights`.
use segnog.Prelude.{
  ℕ, suc, ◌+◌, ◌≡◌, true, false, List, [], ◌∷◌, not, ltb, if◌then◌else◌, keep_if, All, All-keep_if,
  All-map, arith, keep_if_lem, inl, inr, Bool-cases, map, ◌==◌,
}
use segnog.Exec.{Exec, pure, attempt, branch, ◌>>=◌, ◌>>◌}
use segnog.Graph.{CoActivated, Database, Faults, run_query}
use segnog.Exec.Triples.{returned, Triple-pure, Triple-attempt, Triple-bind, Triple-branch}
use segnog.Graph.Queries.{Triple-run_query, sent}
use segnog.Graph.Weights.{IsUnit, IsGrowing, decayed-IsUnit}
use segnog.Graph.Bounds.{IsBounded}
use segnog.Rem.{Outside, Settings}

module _ {E F : Type 0} (o : Outside E F) (cfg : Settings F) where
  -- `last_activated_at < cutoff`, where the cutoff is the time less the interval.
  unfoldable pub decay_edge : ℕ → CoActivated F → CoActivated F
  decay_edge now r =
      if ltb (r.last_activated_at + cfg.decay_interval) now
      then record r { weight = o.numbers.mul r.weight (o.numbers.sub o.numbers.one cfg.decay_rate) }
      else r

  unfoldable pub decay_query : ℕ → Database E F → Database E F × Unit {0}
  unfolding decay_edge
  decay_query now db = (record db { co_activated = map (decay_edge now) db.co_activated }, tt)

  unfoldable pub prune_query : Database E F → Database E F × Unit {0}
  unfolding keep_if
  prune_query db = (
    record db {
      co_activated = keep_if (λ r. not (o.numbers.lt r.weight o.hundredth)) db.co_activated;
    },
    tt,
  )

  -- A query that raises ends the work.
  unfoldable pub decay_hebbian_weights : Faults → ℕ → Exec (Database E F) (Unit {0})
  unfolding attempt branch run_query decay_query prune_query ◌>>=◌ pure
  decay_hebbian_weights faults now =
      branch cfg.hebbian_enabled
        (attempt (run_query faults (decay_query now) >> run_query faults prune_query) (pure tt))
        (pure tt)

module _ {E F : Type 0} (o : Outside E F) (cfg : Settings F) (g : IsGrowing o.numbers)
    (faults : Faults) (activation_cap : ℕ) where
  abbrev Bounded : Database E F → Type 0
  Bounded d = IsBounded o.numbers activation_cap d

  decay_edges-IsUnit :
      (now : ℕ) (rs : List (CoActivated F))
      → IsUnit o.numbers cfg.decay_rate
      → All (λ r. IsUnit o.numbers r.weight) rs
      → All (λ r. IsUnit o.numbers r.weight) (map (decay_edge o cfg now) rs)
  unfolding decay_edge
  decay_edges-IsUnit now [] u h = tt
  decay_edges-IsUnit now (r ∷ rs) u h =
      elim (Bool-cases (ltb (r.last_activated_at + cfg.decay_interval) now)) [
        | inl old ↦ rw old (
          decayed-IsUnit o.numbers g cfg.decay_rate r.weight u h.0,
          decay_edges-IsUnit now rs u h.1,
        )
        | inr new ↦ rw new (h.0, decay_edges-IsUnit now rs u h.1)
      ]

  decay_edges-loopless :
      (now : ℕ) (rs : List (CoActivated F))
      → All (λ r. (r.to == r.from) ≡ false) rs
      → All (λ r. (r.to == r.from) ≡ false) (map (decay_edge o cfg now) rs)
  unfolding decay_edge
  decay_edges-loopless now [] h = tt
  decay_edges-loopless now (r ∷ rs) h =
      elim (Bool-cases (ltb (r.last_activated_at + cfg.decay_interval) now)) [
        | inl old ↦ rw old (h.0, decay_edges-loopless now rs h.1)
        | inr new ↦ rw new (h.0, decay_edges-loopless now rs h.1)
      ]

  decay-Bounded :
      (now : ℕ) (d : Database E F)
      → IsUnit o.numbers cfg.decay_rate
      → Bounded d
      → Bounded (decay_query o cfg now d).0
  unfolding decay_query
  decay-Bounded now d u b = record {
    counts = b.counts;
    weights = decay_edges-IsUnit now d.co_activated u b.weights;
    loopless = decay_edges-loopless now d.co_activated b.loopless;
  }

  prune-Bounded : (d : Database E F) → Bounded d → Bounded (prune_query o cfg d).0
  unfolding prune_query
  prune-Bounded d b =
      let strong = λ (r : CoActivated F). not (o.numbers.lt r.weight o.hundredth) in
      record {
        counts = b.counts;
        weights = All-keep_if (λ r. IsUnit o.numbers r.weight) strong d.co_activated b.weights;
        loopless = All-keep_if (λ r. (r.to == r.from) ≡ false) strong d.co_activated b.loopless;
      }

  -- With arithmetic that has the laws `IsGrowing`, as that of doubles has, decay with a rate between nought and one keeps the bounds of the graph, whichever queries raise.
  pub decay_hebbian_weights-IsBounded :
      (now : ℕ) (db : Database E F)
      → IsUnit o.numbers cfg.decay_rate
      → Bounded db
      → Bounded (decay_hebbian_weights o cfg faults now db).0
  unfolding decay_hebbian_weights
  decay_hebbian_weights-IsBounded now db u b =
      let (done, ends, bounded) =
        returned {Q = λ _. Bounded} (decay_hebbian_weights o cfg faults now) db
          (Triple-branch cfg.hebbian_enabled _ (pure tt)
            (λ e.
              Triple-attempt _ (pure tt) Bounded
                (Triple-bind (run_query faults (decay_query o cfg now))
                  (λ _. run_query faults (prune_query o cfg)) (λ _. Bounded)
                  (Triple-run_query faults (decay_query o cfg now) (λ d h raises. count d h)
                    (λ d h. decay-Bounded now (sent d) u (count d h)))
                  (λ _.
                    Triple-run_query faults (prune_query o cfg) (λ d h raises. count d h)
                      (λ d h. prune-Bounded (sent d) (count d h))))
                (Triple-pure tt (λ d h. h)))
            (λ e. Triple-pure tt (λ d h. h)))
          b in
      bounded
    where
      count : (d : Database E F) → Bounded d → Bounded (sent d)
      count d b = record { counts = b.counts; weights = b.weights; loopless = b.loopless }

-- If decay is enabled and no query raises, then no edge is left whose weight is below a hundredth.
pub decay_hebbian_weights-pruned :
    {E F : Type 0} (o : Outside E F) (cfg : Settings F) (faults : Faults) (now : ℕ)
    (db : Database E F)
    → cfg.hebbian_enabled ≡ true
    → ((k : ℕ) → faults k ≡ false)
    → All
        (λ r. o.numbers.lt r.weight o.hundredth ≡ false)
        (decay_hebbian_weights o cfg faults now db).0.co_activated
unfolding decay_hebbian_weights decay_query prune_query run_query branch attempt ◌>>=◌
decay_hebbian_weights-pruned {F = F} o cfg faults now db on fine =
    let strong = λ (r : CoActivated F). not (o.numbers.lt r.weight o.hundredth) in
    let edges = map (decay_edge o cfg now) db.co_activated in
    rw (on, fine db.queries, fine (suc db.queries))
      (All-map (λ r. strong r ≡ true) (λ r. o.numbers.lt r.weight o.hundredth ≡ false)
        (keep_if strong edges) (λ r h. ground arith) (keep_if_lem strong edges))

-- ===== src/Rem/Lifecycle/Quiet.antt =====
-- Steps of consolidation that keep each episode's status.
use segnog.Prelude.{
  String, false, Option, none, some, List, ◌≡◌, refl, keys, lookup, contains, Distinct,
  lookup_present, eq_iff, arith,
}
use segnog.Exec.{Exec}
use segnog.Exec.Triples.{Ends, Triple}
use segnog.Graph.{Episode, Database, Faults, run_query, ro_query}
use segnog.Graph.Queries.{Triple-run_query, sent}
use segnog.Rem.{Outside}
use segnog.Rem.Consolidation.{create_episode}
use segnog.Rem.Lifecycle.{SameStatus, Since, Since-refl}

module _ {E F : Type 0} where
  -- What holds still when the episodes keep their status, and has the uuids name one node each.
  pub record IsStable (P : Database E F → Type 0) : Type 0 where
    pub distinct : (d : Database E F) → P d → Distinct (keys d.episodes)
    pub step : (d d' : Database E F) → P d → Since SameStatus d.episodes d'.episodes → P d'

  -- Code keeps the status of the episodes, whether it raises or not.
  pub record KeepsStatus {A : Type 0} (m : Exec (Database E F) A) : Type 0 where
    pub at :
        (d : Database E F)
        → Distinct (keys d.episodes)
        → Since SameStatus d.episodes (m d).0.episodes

  module _ {P : Database E F → Type 0} (st : IsStable P) where
    same_episodes : (d d' : Database E F) → d'.episodes ≡ d.episodes → P d → P d'
    same_episodes d d' e h = st.step d d' h (rw e (Since-refl d.episodes (st.distinct d h)))

  module _ {A : Type 0} {P : Database E F → Type 0} (st : IsStable P) where
    pub Triple-KeepsStatus : (m : Exec (Database E F) A) → KeepsStatus m → Triple P m (λ _. P) P
    Triple-KeepsStatus m k = record {
      at = λ d h. ends (m d).0 (m d).1 (st.step d (m d).0 h (k.at d (st.distinct d h)));
    }
      where
        ends : (d : Database E F) (r : Option A) → P d → Ends (λ _. P) P d r
        ends d none h = h
        ends d (some a) h = h

    -- A query that leaves the episodes.
    pub Triple-quiet :
        (faults : Faults) (q : Database E F → Database E F × A)
        → ((d : Database E F) → (q d).0.episodes ≡ d.episodes)
        → Triple P (run_query faults q) (λ _. P) P
    Triple-quiet faults q keep =
        Triple-run_query faults q (λ d h raises. same_episodes st d (sent d) refl h)
          (λ d h. same_episodes st d (q (sent d)).0 (keep (sent d)) h)

    -- A query that only reads.
    pub Triple-ro_query :
        (faults : Faults) (f : Database E F → A) → Triple P (ro_query faults f) (λ _. P) P
    unfolding ro_query
    Triple-ro_query faults f = Triple-quiet faults (λ db. (db, f db)) (λ d. refl)

  -- A new node with a uuid of its own.
  pub create_episode-Since :
      (uuid : String) (e : Episode E) (d : Database E F)
      → Distinct (keys d.episodes)
      → contains uuid (keys d.episodes) ≡ false
      → Since SameStatus d.episodes (create_episode uuid e d).0.episodes
  unfolding create_episode lookup
  create_episode-Since uuid e d dis new = record {
    distinct = (new, dis);
    at = λ k f found.
        (f, ground (arith, lookup_present k f d.episodes, eq_iff k uuid), (refl, refl));
  }

-- What the worker relies on: the other components add episodes and leave the status of those that
-- are there, and a fresh uuid names no node.
pub record IsQuiet {E F : Type 0} (o : Outside E F) : Type 0 where
  pub curation :
      (gid : String) (uuids : List String) (text : String)
      → KeepsStatus (o.run_curation gid uuids text)
  pub coverage :
      (gid : String) (uuids : List String) (text : String)
      → KeepsStatus (o.fast_coverage_ontology gid uuids text)
  pub about_edges : (gid : String) → KeepsStatus (o.create_about_edges_by_similarity gid)
  pub ontology :
      (gid : String) (uuids : List String) (text : String)
      → KeepsStatus (o.update_group_ontology gid uuids text)
  pub fresh : (d : Database E F) → contains (o.fresh_uuid d) (keys d.episodes) ≡ false

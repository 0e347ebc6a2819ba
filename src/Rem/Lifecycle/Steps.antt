-- ===== src/Rem/Lifecycle/Steps.antt =====
-- The steps of `_consolidate_group` for its unique episodes, for any conditions that the calls of
-- the other components keep.
use segnog.Prelude.{
  ℕ, String, Bool, true, false, none, List, ◌≡◌, keys, contains, leb, length, arith,
}
use segnog.Exec.{Exec, pure, gets, from_option, each}
use segnog.Exec.Triples.{
  Triple, Triple-pure, Triple-gets, Triple-from_option, Triple-attempt, Triple-bind, Triple-branch,
  Triple-each, Triple-weaken,
}
use segnog.Graph.{Episode, Database, Faults, run_query}
use segnog.Graph.Queries.{Triple-run_query, sent}
use segnog.Rem.{Outside, Settings}
use segnog.Rem.Consolidation.{
  link_source_query, create_episode, update_ontology, mark_episodes_consolidated, link_source,
  compressed_episode, compress_raw_episodes, combined_content, uuids_of, consolidate_unique,
}
use segnog.Rem.Lifecycle.{Since-refl}
use segnog.Rem.Lifecycle.Quiet.{
  IsStable, KeepsStatus, IsQuiet, Triple-KeepsStatus, Triple-quiet, create_episode-Since,
}

-- What the calls do with a condition `P`: they keep it, or raise with `X`.
pub record Calls {E F : Type 0} (o : Outside E F) (faults : Faults) (P X : Database E F → Type 0)
    : Type 0 where
  pub stable : IsStable P
  pub query : (d : Database E F) → P d → faults d.queries ≡ true → X (sent d)
  pub curation :
      (gid : String) (uuids : List String) (text : String)
      → Triple P (o.run_curation gid uuids text) (λ _. P) X
  pub coverage :
      (gid : String) (uuids : List String) (text : String)
      → Triple P (o.fast_coverage_ontology gid uuids text) (λ _. P) X
  pub about_edges : (gid : String) → Triple P (o.create_about_edges_by_similarity gid) (λ _. P) X
  pub ontology :
      (gid : String) (uuids : List String) (text : String)
      → Triple P (o.update_group_ontology gid uuids text) (λ _. P) X
  pub embedding : (text : String) → o.embed text ≡ none → (d : Database E F) → P d → X d
  pub fresh : (d : Database E F) → contains (o.fresh_uuid d) (keys d.episodes) ≡ false

-- Calls that keep the status of the episodes keep what is stable, also where they raise.
pub Calls-quiet :
    {E F : Type 0} {P X : Database E F → Type 0} (o : Outside E F) (faults : Faults)
    → IsQuiet o
    → IsStable P
    → ((d : Database E F) → P d → X d)
    → Calls o faults P X
Calls-quiet {E = E} {F = F} {P = P} {X = X} o faults quiet st out = record {
  stable = st;
  query =
      λ d h raises. out (sent d) (st.step d (sent d) h (Since-refl d.episodes (st.distinct d h)));
  curation = λ gid uuids text. call (quiet.curation gid uuids text);
  coverage = λ gid uuids text. call (quiet.coverage gid uuids text);
  about_edges = λ gid. call (quiet.about_edges gid);
  ontology = λ gid uuids text. call (quiet.ontology gid uuids text);
  embedding = λ text fails. out;
  fresh = quiet.fresh;
}
  where
    call : {m : Exec (Database E F) (Unit {0})} → KeepsStatus m → Triple P m (λ _. P) X
    call {m} k = Triple-weaken m (λ d h. h) (λ _ d h. h) out (Triple-KeepsStatus st m k)

module _ {E F : Type 0} {P X : Database E F → Type 0} (o : Outside E F) (cfg : Settings F)
    (faults : Faults) (c : Calls o faults P X) where
  create :
      (uuid : String) (e : Episode E)
      → Triple
          (λ d. P d × (contains uuid (keys d.episodes) ≡ false))
          (run_query faults (create_episode uuid e))
          (λ _. P)
          X
  create uuid e =
      Triple-run_query faults (create_episode uuid e) (λ d s raises. c.query d s.0 raises)
        (λ d s.
          c.stable.step d (create_episode uuid e (sent d)).0 s.0
            (create_episode-Since uuid e (sent d) (c.stable.distinct d s.0) s.1))

  pub Triple-compress :
      (gid : String) (uuids : List String) (text : String) (now : ℕ)
      → Triple P (compress_raw_episodes o cfg faults gid uuids text now) (λ _. P) X
  unfolding compress_raw_episodes link_source link_source_query
  Triple-compress gid uuids text now =
      Triple-bind (from_option (o.embed text)) _ (λ _. P)
        (Triple-from_option (o.embed text) (λ fails. c.embedding text fails) (λ v d s. s))
        λ v.
          Triple-bind (gets o.fresh_uuid) _
            (λ uuid d. P d × (contains uuid (keys d.episodes) ≡ false))
            (Triple-gets o.fresh_uuid (λ d s. (s, c.fresh d)))
            λ uuid.
              Triple-bind
                (run_query faults (create_episode uuid (compressed_episode gid text v now))) _
                (λ _. P) (create uuid (compressed_episode gid text v now))
                λ _.
                  Triple-bind (each (link_source faults uuid) uuids) _ (λ _. P)
                    (Triple-each (link_source faults uuid) uuids λ source.
                      Triple-attempt (run_query faults (link_source_query uuid source)) (pure tt) P
                        (Triple-quiet c.stable faults (link_source_query uuid source)
                          (λ d. ground arith))
                        (Triple-pure tt (λ d s. s)))
                    λ _. Triple-pure uuid (λ d s. s)

  Triple-update_ontology :
      (prio : Bool) (gid : String) (uuids : List String) (text : String)
      → Triple P (update_ontology o cfg faults prio gid uuids text) (λ _. P) X
  unfolding update_ontology
  Triple-update_ontology prio gid uuids text =
      Triple-branch prio _ (o.update_group_ontology gid uuids text)
        (λ e.
          Triple-bind (o.fast_coverage_ontology gid uuids text)
            (λ _. o.create_about_edges_by_similarity gid) (λ _. P) (c.coverage gid uuids text)
            (λ _. c.about_edges gid))
        (λ e. c.ontology gid uuids text)

-- From `P` the unique episodes are marked, then `P'` holds.
pub Triple-consolidate_unique :
    {E F : Type 0} {P P' X : Database E F → Type 0} (o : Outside E F) (cfg : Settings F)
    (faults : Faults) (c : Calls o faults P X) (c' : Calls o faults P' X) (prio : Bool)
    (gid : String) (now : ℕ) (unique : List (String × Episode E))
    → Triple P (mark_episodes_consolidated faults (uuids_of unique)) (λ _. P') X
    → Triple P (consolidate_unique o cfg faults prio gid now unique) (λ _. P') X
unfolding consolidate_unique
Triple-consolidate_unique {P = P} {P' = P'} o cfg faults c c' prio gid now unique marks =
    let us = uuids_of unique in
    let text = combined_content unique in
    Triple-bind (o.run_curation gid us text) _ (λ _. P) (c.curation gid us text)
      λ _.
        Triple-bind _ _ (λ _. P)
          (Triple-branch cfg.has_ontology_store (update_ontology o cfg faults prio gid us text)
            (pure tt) (λ e. Triple-update_ontology o cfg faults c prio gid us text)
            (λ e. Triple-pure tt (λ d s. s)))
          λ _.
            Triple-bind (mark_episodes_consolidated faults us) _ (λ _. P') marks
              λ count.
                Triple-bind _ _ (λ _. P')
                  (Triple-branch (leb 2 (length unique))
                    (compress_raw_episodes o cfg faults gid us text now) (pure "")
                    (λ e. Triple-compress o cfg faults c' gid us text now)
                    (λ e. Triple-pure "" (λ d s. s)))
                  λ compressed. Triple-pure (count, compressed) (λ d s. s)

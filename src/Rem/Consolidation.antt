-- ===== src/Rem/Consolidation.antt =====
-- rem_worker.py: `_consolidate_group` and the queries it sends, with `mark_episodes_consolidated`
-- and `compress_raw_episodes` of storage/long_term/episode_store.py. Episodes are listed with
-- their uuids.
use Prim.Native.String.{◌++◌ as ◌+++◌}
use segnog.Prelude.{
  ℕ, suc, String, Bool, false, Option, none, some, List, [], ◌∷◌, map, ◌==◌, ◌&&◌, not, Dict,
  contains, take, length, ltb, leb, if◌then◌else◌, keep_if, sort_by,
}
use segnog.Exec.{Exec, pure, gets, from_option, attempt, branch, ◌>>=◌, ◌>>◌, each}
use segnog.Graph.{Episode, Database, Faults, run_query, ro_query}
use segnog.Graph.Update.{update_where}
use segnog.Graph.Hebbian.{has_node}
use segnog.Rem.{Outside, Settings, GroupInfo, is_pending}

-- What `_consolidate_group` returns: the numbers of duplicates and of episodes marked, and the
-- uuid of the compressed episode.
pub data Outcome : Type 0 where
  skipped : Outcome
  consolidated : ℕ → ℕ → String → Outcome

-- The contents that are not empty, with a line of dashes between each two.
unfoldable pub join_contents : List String → String
join_contents [] = ""
join_contents (c ∷ cs) =
    let rest = join_contents cs in
    if c == "" then rest else (if rest == "" then c else c +++ "\n---\n" +++ rest)

unfoldable pub set_status : {E : Type 0} → String → Episode E → Episode E
set_status status e = record e { consolidation_status = status }

module _ {E F : Type 0} where
  -- `MATCH (e:Episode) WHERE e.uuid IN $uuids SET e.consolidation_status = …`
  unfoldable pub mark : String → List String → Database E F → Database E F × Unit {0}
  unfolding update_where set_status contains
  mark status uuids db = (
    record db {
      episodes = update_where (λ uuid e. contains uuid uuids) (set_status status) db.episodes;
    },
    tt,
  )

  unfoldable pub fetch_pending : String → Database E F → List (String × Episode E)
  unfolding keep_if sort_by is_pending
  fetch_pending gid db = take 20 (
      sort_by (λ y x. ltb y.1.created_at x.1.created_at)
        (keep_if (λ row. row.1.group_id == gid && is_pending row.1) db.episodes))

  unfoldable pub link_duplicate_query : String → String → Database E F → Database E F × Unit {0}
  unfolding has_node
  link_duplicate_query dup original db = (
    if has_node dup db.episodes && has_node original db.episodes
        then record db { duplicate_of = (dup, original) ∷ db.duplicate_of }
        else db,
    tt,
  )

  unfoldable pub link_source_query : String → String → Database E F → Database E F × Unit {0}
  unfolding has_node
  link_source_query compressed source db = (
    if has_node compressed db.episodes && has_node source db.episodes
        then record db { derived_from = (compressed, source) ∷ db.derived_from }
        else db,
    tt,
  )

  unfoldable pub create_episode : String → Episode E → Database E F → Database E F × Unit {0}
  create_episode uuid e db = (record db { episodes = (uuid, e) ∷ db.episodes }, tt)

abbrev pub first_uuid : {F : Type 0} → Dict F → Option String
first_uuid [] = none
first_uuid (row ∷ rows) = some row.0

module _ {E : Type 0} where
  -- `UNWIND $uuids AS uid MATCH (e:Episode {uuid: uid}) SET …`: the number of nodes found.
  unfoldable pub found_in : Dict (Episode E) → List String → ℕ
  unfolding has_node
  found_in es [] = 0
  found_in es (uuid ∷ uuids) =
      let rest = found_in es uuids in if has_node uuid es then suc rest else rest

  unfoldable pub compressed_episode : String → String → E → ℕ → Episode E
  compressed_episode gid content v now = record {
    group_id = gid;
    content = content;
    episode_type = "compressed";
    consolidation_status = "consolidated";
    created_at = now;
    embedding = some v;
    knowledge_extracted = false;
    activation_count = none;
    last_activated_at = none;
  }

  unfoldable pub combined_content : List (String × Episode E) → String
  unfolding join_contents
  combined_content episodes =
      let joined = join_contents (map (λ ep. ep.1.content) (take 10 episodes)) in
      if joined == "" then "(no content available)" else joined

  abbrev pub uuids_of : List (String × Episode E) → List String
  uuids_of = map (λ ep. ep.0)

  unfoldable pub add_part :
      String × Episode E
      → Option String
      → List String × List (String × Episode E)
      → List String × List (String × Episode E)
  add_part ep none parts = (parts.0, ep ∷ parts.1)
  add_part ep (some original) parts = (ep.0 ∷ parts.0, parts.1)

module _ {E F : Type 0} (faults : Faults) where
  unfoldable pub link_duplicate_episode : String → String → Exec (Database E F) (Unit {0})
  unfolding attempt run_query pure link_duplicate_query
  link_duplicate_episode dup original =
      attempt (run_query faults (link_duplicate_query dup original)) (pure tt)

  unfoldable pub mark_episodes_duplicate : List String → Exec (Database E F) (Unit {0})
  unfolding attempt run_query pure mark
  mark_episodes_duplicate uuids = attempt (run_query faults (mark "duplicate" uuids)) (pure tt)

  unfoldable pub mark_episodes_consolidated : List String → Exec (Database E F) ℕ
  unfolding ◌>>=◌ pure run_query mark found_in
  mark_episodes_consolidated [] = pure 0
  mark_episodes_consolidated (uuid ∷ uuids) =
      run_query faults
        (λ db. ((mark "consolidated" (uuid ∷ uuids) db).0, found_in db.episodes (uuid ∷ uuids)))

  -- Each link is made in a `try`.
  unfoldable pub link_source : String → String → Exec (Database E F) (Unit {0})
  unfolding attempt run_query pure link_source_query
  link_source compressed source =
      attempt (run_query faults (link_source_query compressed source)) (pure tt)

module _ {E F : Type 0} (o : Outside E F) (cfg : Settings F) where
  -- The consolidated raw episodes of the group with their scores, of those with an embedding.
  unfoldable pub scored : String → E → Dict (Episode E) → Dict F
  scored gid v [] = []
  scored gid v ((uuid, e) ∷ es) =
      let rest = scored gid v es in
      elim e.embedding [
        | none ↦ rest
        | some w ↦
            if e.group_id == gid
              && (e.consolidation_status == "consolidated" && e.episode_type == "raw")
              && o.numbers.le cfg.dedup_threshold (o.similarity w v)
            then (uuid, o.similarity w v) ∷ rest
            else rest
      ]

  -- `ORDER BY score DESC LIMIT 1`
  unfoldable pub most_similar : String → E → Database E F → Option String
  unfolding scored sort_by
  most_similar gid v db =
      first_uuid (sort_by (λ y x. o.numbers.lt x.1 y.1) (scored gid v db.episodes))

module _ {E F : Type 0} (o : Outside E F) (cfg : Settings F) (faults : Faults) where
  unfoldable pub find_similar_consolidated : String → E → Exec (Database E F) (Option String)
  unfolding attempt ro_query pure most_similar
  find_similar_consolidated gid v = attempt (ro_query faults (most_similar o cfg gid v)) (pure none)

  unfoldable pub similar_to : String → Episode E → Exec (Database E F) (Option String)
  unfolding pure find_similar_consolidated
  similar_to gid e = elim e.embedding [
    | none ↦ pure none
    | some v ↦ find_similar_consolidated gid v
  ]

  unfoldable pub link_if_similar : String → Option String → Exec (Database E F) (Unit {0})
  unfolding pure link_duplicate_episode
  link_if_similar dup none = pure tt
  link_if_similar dup (some original) = link_duplicate_episode faults dup original

  -- The loop over the episodes: the uuids of the duplicates, and the unique episodes.
  unfoldable pub split_duplicates :
      String
      → List (String × Episode E)
      → Exec (Database E F) (List String × List (String × Episode E))
  unfolding ◌>>=◌ pure similar_to link_if_similar add_part
  split_duplicates gid [] = pure ([], [])
  split_duplicates gid (ep ∷ eps) = do
    similar ← similar_to gid ep.1
    link_if_similar ep.0 similar
    rest ← split_duplicates gid eps
    pure (add_part ep similar rest)

  unfoldable pub update_ontology :
      Bool → String → List String → String → Exec (Database E F) (Unit {0})
  unfolding ◌>>=◌ branch
  update_ontology is_priority gid uuids text =
      branch is_priority
        (o.fast_coverage_ontology gid uuids text >> o.create_about_edges_by_similarity gid)
        (o.update_group_ontology gid uuids text)

  unfoldable pub compress_raw_episodes :
      String → List String → String → ℕ → Exec (Database E F) String
  unfolding ◌>>=◌ pure gets from_option run_query create_episode compressed_episode each link_source
  compress_raw_episodes gid sources content now = do
    v ← from_option (o.embed content)
    uuid ← gets o.fresh_uuid
    run_query faults (create_episode uuid (compressed_episode gid content v now))
    each (link_source faults uuid) sources
    pure uuid

  -- What is done with the unique episodes.
  unfoldable pub consolidate_unique :
      Bool → String → ℕ → List (String × Episode E) → Exec (Database E F) (ℕ × String)
  unfolding ◌>>=◌ pure branch update_ontology mark_episodes_consolidated compress_raw_episodes
      combined_content
  consolidate_unique is_priority gid now unique = do
    o.run_curation gid (uuids_of unique) (combined_content unique)
    branch cfg.has_ontology_store
        (update_ontology is_priority gid (uuids_of unique) (combined_content unique)) (pure tt)
    count ← mark_episodes_consolidated faults (uuids_of unique)
    compressed ←
        branch (leb 2 (length unique))
          (compress_raw_episodes gid (uuids_of unique) (combined_content unique) now) (pure "")
    pure (count, compressed)

  unfoldable pub mark_duplicates : List String → Exec (Database E F) (Unit {0})
  unfolding pure mark_episodes_duplicate
  mark_duplicates [] = pure tt
  mark_duplicates (uuid ∷ uuids) = mark_episodes_duplicate faults (uuid ∷ uuids)

  -- The rest of the work, with the number of duplicates.
  unfoldable pub consolidate_rest :
      GroupInfo → ℕ → ℕ → List (String × Episode E) → Exec (Database E F) Outcome
  unfolding ◌>>=◌ pure consolidate_unique
  consolidate_rest g now duplicates [] = pure (consolidated duplicates 0 "")
  consolidate_rest g now duplicates (ep ∷ eps) = do
    done ← consolidate_unique g.is_priority g.group_id now (ep ∷ eps)
    pure (consolidated duplicates done.0 done.1)

  unfoldable pub consolidate_episodes :
      GroupInfo → ℕ → List (String × Episode E) → Exec (Database E F) Outcome
  unfolding ◌>>=◌ pure split_duplicates mark_duplicates consolidate_rest
  consolidate_episodes g now [] = pure skipped
  consolidate_episodes g now (ep ∷ eps) = do
    parts ← split_duplicates g.group_id (ep ∷ eps)
    mark_duplicates parts.0
    consolidate_rest g now (length parts.0) parts.1

  unfoldable pub consolidate_group : GroupInfo → ℕ → Exec (Database E F) Outcome
  unfolding ◌>>=◌ ro_query fetch_pending keep_if consolidate_episodes
  consolidate_group g now = do
    rows ← ro_query faults (fetch_pending g.group_id)
    consolidate_episodes g now (keep_if (λ ep. not (ep.0 == "")) rows)

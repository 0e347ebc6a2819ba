-- ===== src/Rem/Discovery.antt =====
-- rem_worker.py: `_find_pending_groups` and `_query_pending_groups`.
use segnog.Prelude.{
  ℕ, suc, ◌+◌, ◌-◌, ◌*◌, String, Bool, true, false, Option, none, some, List, [], ◌∷◌, ◌++◌, map,
  ◌==◌, ◌&&◌, not, Dict, lookup, insert, contains, take, length, ltb, leb, if◌then◌else◌, keep_if,
  sort_by,
}
use segnog.Exec.{Exec, pure, attempt, branch, ◌>>=◌}
use segnog.Graph.{Episode, Database, Faults, ro_query}
use segnog.Rem.{GroupInfo, is_pending}

-- `count(e)` and `min(e.created_at)` of one group.
pub record Tally : Type 0 where
  pub raw_count : ℕ
  pub oldest_ts : ℕ

module _ {E : Type 0} where
  -- `WHERE … AND e.created_at > $since_ts`
  unfoldable pub is_new : ℕ → Episode E → Bool
  unfolding is_pending
  is_new since e = is_pending e && ltb since e.created_at

  unfoldable pub add_to : Option Tally → Episode E → Tally
  add_to none e = record { raw_count = 1; oldest_ts = e.created_at }
  add_to (some t) e = record {
    raw_count = suc t.raw_count;
    oldest_ts = if ltb e.created_at t.oldest_ts then e.created_at else t.oldest_ts;
  }

  -- `WITH e.group_id AS gid, count(e) AS raw_count, min(e.created_at) AS oldest_ts`
  unfoldable pub pending_rows : ℕ → Dict (Episode E) → Dict Tally
  unfolding is_new add_to lookup insert
  pending_rows since [] = []
  pending_rows since ((uuid, e) ∷ es) =
      let rows = pending_rows since es in
      if is_new since e then insert e.group_id (add_to (lookup e.group_id rows) e) rows else rows

  -- `WHERE raw_count >= $min_episodes … ORDER BY raw_count DESC LIMIT $limit`
  unfoldable pub discovery_rows : ℕ → ℕ → ℕ → Dict (Episode E) → Dict Tally
  unfolding pending_rows keep_if sort_by
  discovery_rows since min_episodes limit es = take limit (
      sort_by (λ y x. ltb x.1.raw_count y.1.raw_count)
        (keep_if (λ row. leb min_episodes row.1.raw_count) (pending_rows since es)))

  -- `RETURN DISTINCT e.group_id`, and in Python the names that are not empty.
  unfoldable pub ontology_groups : List String → Dict (Episode E) → List String
  unfolding contains
  ontology_groups about [] = []
  ontology_groups about ((uuid, e) ∷ es) =
      let rest = ontology_groups about es in
      if contains uuid about && not (e.group_id == "") then e.group_id ∷ rest else rest

-- Both scores are `raw_count * 0.5 + age_hours * 0.5`. A score is compared with another after
-- multiplication by 7,200,000, without the rounding of floats; `x` goes after `y` if `y` has more.
unfoldable pub scores_more : ℕ → GroupInfo → GroupInfo → Bool
scores_more now y x =
    let since_x = if leb x.oldest_ts 0 then now else x.oldest_ts in
    let since_y = if leb y.oldest_ts 0 then now else y.oldest_ts in
    ltb (3_600_000 * x.raw_count + since_y) (3_600_000 * y.raw_count + since_x)

unfoldable pub group_of : Bool → String × Tally → GroupInfo
group_of is_priority row = record {
  group_id = row.0;
  raw_count = row.1.raw_count;
  oldest_ts = row.1.oldest_ts;
  is_priority = is_priority;
}

-- `if not gid: continue` and the two tests on the ontology
unfoldable pub is_wanted : Bool → List String → String × Tally → Bool
unfolding contains
is_wanted has_ontology groups_with_ontology row =
    not (row.0 == "")
    && (if has_ontology
        then contains row.0 groups_with_ontology
        else not (contains row.0 groups_with_ontology))

module _ {E F : Type 0} (faults : Faults) where
  -- A query that raises is logged, and what it would have given is empty.
  unfoldable pub find_ontology_groups : Exec (Database E F) (List String)
  unfolding attempt ro_query pure ontology_groups
  find_ontology_groups =
      attempt (ro_query faults (λ db. ontology_groups db.about db.episodes)) (pure [])

  unfoldable pub find_rows : ℕ → ℕ → ℕ → Exec (Database E F) (Dict Tally)
  unfolding attempt ro_query pure discovery_rows
  find_rows since min_episodes limit =
      attempt (ro_query faults (λ db. discovery_rows since min_episodes limit db.episodes))
        (pure [])

  unfoldable pub query_pending_groups : ℕ → ℕ → Bool → ℕ → ℕ → Exec (Database E F) (List GroupInfo)
  unfolding ◌>>=◌ pure find_ontology_groups find_rows is_wanted group_of scores_more keep_if sort_by
  query_pending_groups since min_episodes has_ontology limit now = do
    groups_with_ontology ← find_ontology_groups
    rows ← find_rows since min_episodes limit
    pure (
        sort_by (scores_more now) (
          map (group_of (not has_ontology))
            (keep_if (is_wanted has_ontology groups_with_ontology) rows)))

  -- `if len(priority) >= limit: return priority[:limit]`
  unfoldable pub find_pending_groups : ℕ → ℕ → ℕ → ℕ → Exec (Database E F) (List GroupInfo)
  unfolding ◌>>=◌ pure branch query_pending_groups
  find_pending_groups since min_episodes limit now = do
    priority ← query_pending_groups since min_episodes false limit now
    branch (leb limit (length priority)) (pure (take limit priority)) (do
      normal ← query_pending_groups since min_episodes true (limit - length priority) now
      pure (priority ++ normal))

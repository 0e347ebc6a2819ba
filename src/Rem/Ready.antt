-- ===== src/Rem/Ready.antt =====
-- What `_find_pending_groups` gives, against an independent count of each group's raw pending
-- episodes.
pub mod Tallies
use mathlib.Core.Path.{subst}
use segnog.Prelude.{
  ℕ, suc, ◌-◌, ◌≤◌, String, Bool, true, false, Option, none, some, List, [], ◌∷◌, ◌++◌, ◌≡◌, refl,
  sym, ap, ◌∙◌, map, inl, inr, ◌==◌, ◌&&◌, not, Dict, keys, lookup, lookup-insert, Distinct,
  Distinct-insert, lookup_entries, All, All-map, All-both, All-append, All-keep_if, All-sort_by,
  All-take, keep_if, keep_if_lem, length-keep_if-le, length-sort_by, length-take-le, length-append,
  sort_by, take, length, ltb, leb, eq_iff, if◌then◌else◌, Bool-cases, arith,
}
use segnog.Exec.{pure}
use segnog.Exec.Triples.{
  NoRaise, returned, Triple, Triple-pure, Triple-attempt, Triple-bind, Triple-branch, Triple-weaken,
  Triple-given,
}
use segnog.Graph.{Episode, Database, Faults, ro_query}
use segnog.Graph.Queries.{Triple-run_query}
use segnog.Rem.{GroupInfo}
use segnog.Rem.Discovery.{
  Tally, is_new, add_to, pending_rows, discovery_rows, ontology_groups, scores_more, group_of,
  is_wanted, find_ontology_groups, find_rows, query_pending_groups, find_pending_groups,
}
use segnog.Rem.Ready.Tallies.{
  count_pending, IsCounted, discovery_rows-IsCounted, discovery_rows-length, IsReady,
  groups-IsReady,
}

length-map : {A B : Type 0} (f : A → B) (xs : List A) → length (map f xs) ≡ length xs
length-map f [] = refl
length-map f (x ∷ xs) = rw (length-map f xs) refl

module _ {E F : Type 0} (faults : Faults) (since min_episodes now : ℕ) (es : Dict (Episode E)) where
  abbrev At : Database E F → Type 0
  At d = d.episodes ≡ es

  -- What a list of groups is to be, for a limit.
  abbrev Ready : ℕ → List GroupInfo → Database E F → Type 0
  Ready limit gs d = At d × (length gs ≤ limit) × All (IsReady since min_episodes es) gs

  Triple-query_pending_groups :
      (has_ontology : Bool) (limit : ℕ)
      → Triple At
          (query_pending_groups faults since min_episodes has_ontology limit now)
          (Ready limit)
          NoRaise
  unfolding query_pending_groups find_ontology_groups find_rows ro_query
  Triple-query_pending_groups has_ontology limit =
      Triple-bind (find_ontology_groups faults) _ (λ _. At)
        (Triple-attempt (ro_query faults (λ db. ontology_groups db.about db.episodes)) (pure []) At
          (Triple-run_query faults (λ db. (db, ontology_groups db.about db.episodes))
            (λ d h raises. h) (λ d h. h))
          (Triple-pure [] (λ d h. h)))
        λ names.
          Triple-bind (find_rows faults since min_episodes limit) _
            (λ rows d. At d × (length rows ≤ limit) × All (IsCounted since min_episodes es) rows)
            (Triple-attempt
              (ro_query faults (λ db. discovery_rows since min_episodes limit db.episodes))
              (pure []) At
              (Triple-run_query faults
                (λ db. (db, discovery_rows since min_episodes limit db.episodes)) (λ d h raises. h)
                (λ d h. (
                  h,
                  discovery_rows-length since min_episodes limit d.episodes,
                  subst
                      (λ x.
                        All (IsCounted since min_episodes x)
                          (discovery_rows since min_episodes limit d.episodes))
                      h (discovery_rows-IsCounted since min_episodes limit d.episodes),
                )))
              (Triple-pure [] (λ d h. (h, omega arith, tt))))
            λ rows.
              let wanted = keep_if (is_wanted has_ontology names) rows in
              let groups = map (group_of (not has_ontology)) wanted in
              Triple-pure (sort_by (scores_more now) groups) (λ d h. (
                h.0,
                omega (
                  arith,
                  h.1,
                  length-sort_by (scores_more now) groups,
                  length-map (group_of (not has_ontology)) wanted,
                  length-keep_if-le (is_wanted has_ontology names) rows,
                ),
                All-sort_by (IsReady since min_episodes es) (scores_more now) groups (
                    groups-IsReady since min_episodes (not has_ontology) es wanted (
                      All-keep_if (IsCounted since min_episodes es) (is_wanted has_ontology names)
                        rows h.2)),
              ))

  Triple-find_pending_groups :
      (limit : ℕ)
      → Triple At (find_pending_groups faults since min_episodes limit now) (Ready limit) NoRaise
  unfolding find_pending_groups
  Triple-find_pending_groups limit =
      Triple-bind (query_pending_groups faults since min_episodes false limit now) _ (Ready limit)
        (Triple-query_pending_groups false limit)
        λ priority.
          Triple-branch (leb limit (length priority)) (pure (take limit priority)) _
            (λ e. Triple-pure (take limit priority) (λ d h. (
              h.0,
              length-take-le limit priority,
              All-take (IsReady since min_episodes es) limit priority h.2,
            )))
            (λ e.
              let room = limit - length priority in
              let rest = query_pending_groups faults since min_episodes true room now in
              Triple-given
                {C = (length priority ≤ limit) × All (IsReady since min_episodes es) priority} _
                (λ d h. (h.1, h.2))
                λ first.
                  Triple-bind rest _ (Ready room)
                    (Triple-weaken rest (λ d h. h.0) (λ _ d h. h) (λ d h. h)
                      (Triple-query_pending_groups true room))
                    (λ normal. Triple-pure (priority ++ normal) (λ d h. (
                      h.0,
                      omega (arith, h.1, first.0, length-append priority normal),
                      All-append (IsReady since min_episodes es) priority normal first.1 h.2,
                    ))))

-- Whichever queries raise, the discovery returns groups: no more than the batch size, and each has
-- at least the least number of raw pending episodes that are newer than the last sweep. It changes
-- no episode.
pub find_pending_groups-IsReady :
    {E F : Type 0} (faults : Faults) (since min_episodes limit now : ℕ) (db : Database E F)
    → (gs : List GroupInfo) × ((find_pending_groups faults since min_episodes limit now db).1
        ≡ some gs)
      × (length gs ≤ limit)
      × All (IsReady since min_episodes db.episodes) gs
      × ((find_pending_groups faults since min_episodes limit now db).0.episodes ≡ db.episodes)
find_pending_groups-IsReady faults since min_episodes limit now db =
    let (gs, ends, (same, few, ready)) =
      returned {Q = Ready faults since min_episodes now db.episodes limit}
        (find_pending_groups faults since min_episodes limit now) db
        (Triple-find_pending_groups faults since min_episodes now db.episodes limit) refl in
    (gs, ends, few, ready, same)

count_pending-old :
    {E : Type 0} (gid : String) (since : ℕ) (es : Dict (Episode E))
    → All (λ e. e.1.created_at ≤ since) es
    → count_pending gid since es ≡ 0
unfolding is_new
count_pending-old gid since [] h = refl
count_pending-old gid since ((uuid, e) ∷ es) h =
    ground (arith, count_pending-old gid since es h.1, h.0)

none_ready :
    {E : Type 0} (since min_episodes : ℕ) (es : Dict (Episode E)) (gs : List GroupInfo)
    → 1 ≤ min_episodes
    → All (λ e. e.1.created_at ≤ since) es
    → All (IsReady since min_episodes es) gs
    → gs ≡ []
none_ready since min_episodes es [] some_needed old h = refl
none_ready since min_episodes es (g ∷ gs) some_needed old h =
    absurd (omega (arith, h.0, count_pending-old g.group_id since es old))

-- The discovery gives no group, if no episode is newer than the last sweep, also where raw
-- episodes are pending.
pub find_pending_groups-old :
    {E F : Type 0} (faults : Faults) (since min_episodes limit now : ℕ) (db : Database E F)
    → 1 ≤ min_episodes
    → All (λ e. e.1.created_at ≤ since) db.episodes
    → (find_pending_groups faults since min_episodes limit now db).1 ≡ some []
find_pending_groups-old faults since min_episodes limit now db some_needed old =
    let (gs, ends, few, ready, same) =
      find_pending_groups-IsReady faults since min_episodes limit now db in
    ends ∙ ap some (none_ready since min_episodes db.episodes gs some_needed old ready)

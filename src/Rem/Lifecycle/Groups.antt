-- ===== src/Rem/Lifecycle/Groups.antt =====
-- A group's consolidation and the whole cycle, under what the other components keep.
use segnog.Prelude.{
  ℕ, String, true, false, some, List, [], ◌∷◌, ◌≡◌, refl, inl, inr, ◌==◌, ◌&&◌, not, map, Dict,
  keys, lookup, contains, Distinct, All, All-both, All-take, All-keep_if, All-sort_by, keep_if,
  keep_if_lem, sort_by, take, ltb, length, lookup_entries, Distinct-keep_if, Distinct-sort_by,
  Distinct-take, arith,
}
use segnog.Exec.{pure}
use segnog.Exec.Triples.{
  Triple, Triple-pure, Triple-attempt, Triple-bind, Triple-weaken, Triple-given,
}
use segnog.Graph.{Episode, Database, Faults, run_query, ro_query}
use segnog.Graph.Queries.{Triple-run_query, sent}
use segnog.Rem.{Outside, Settings, GroupInfo, is_pending}
use segnog.Rem.Consolidation.{
  skipped, consolidated, mark, fetch_pending, split_duplicates, found_in,
  mark_episodes_consolidated, mark_episodes_duplicate, mark_duplicates, uuids_of,
  consolidate_unique, consolidate_rest, consolidate_episodes, consolidate_group,
}
use segnog.Rem.Lifecycle.{MayStep, Since, Since-trans, ArePending, ArePending-Since}
use segnog.Rem.Lifecycle.Quiet.{IsQuiet, IsStable}
use segnog.Rem.Lifecycle.Split.{Parts, split-ArePending, split-disjoint, Triple-split_duplicates}
use segnog.Rem.Lifecycle.Marks.{mark-Since, mark-ArePending}
use segnog.Rem.Lifecycle.Steps.{Calls-quiet, Triple-consolidate_unique}

-- What is fetched: raw pending episodes of the database, each once.
fetch_pending-ArePending :
    {E : Type 0} (gid : String) (es : Dict (Episode E))
    → Distinct (keys es)
    → All
        (λ ep. (e : Episode E) × (lookup ep.0 es ≡ some e) × (is_pending e ≡ true))
        (keep_if (λ row. row.1.group_id == gid && is_pending row.1) es)
fetch_pending-ArePending gid es dis =
    All-both (λ ep. lookup ep.0 es ≡ some ep.1)
      (λ ep. (ep.1.group_id == gid && is_pending ep.1) ≡ true)
      (λ ep. (e : Episode _) × (lookup ep.0 es ≡ some e) × (is_pending e ≡ true))
      (keep_if (λ row. row.1.group_id == gid && is_pending row.1) es)
      (All-keep_if (λ ep. lookup ep.0 es ≡ some ep.1)
        (λ row. row.1.group_id == gid && is_pending row.1) es (lookup_entries es dis))
      (keep_if_lem (λ row. row.1.group_id == gid && is_pending row.1) es)
      (λ ep found wanted. (ep.1, found, ground arith))

All_keys :
    {V : Type 0} (P : String → Type 0) (d : Dict V) → All (λ e. P e.0) d → All P (map (λ e. e.0) d)
All_keys P [] h = tt
All_keys P (e ∷ d) h = (h.0, All_keys P d h.1)

module _ {E F : Type 0} where
  -- The rows that are not empty: each names a raw pending episode, and no uuid comes twice.
  pub rows_lem :
      (gid : String) (d : Database E F)
      → Distinct (keys d.episodes)
      → ArePending
          (map (λ ep. ep.0) (keep_if (λ ep. not (ep.0 == "")) (fetch_pending gid d)))
          d.episodes
        × Distinct (map (λ ep. ep.0) (keep_if (λ ep. not (ep.0 == "")) (fetch_pending gid d)))
  unfolding fetch_pending
  rows_lem gid d dis =
      let wanted = λ (row : String × Episode E). row.1.group_id == gid && is_pending row.1 in
      let older = λ (y x : String × Episode E). ltb y.1.created_at x.1.created_at in
      let named = λ (ep : String × Episode E). not (ep.0 == "") in
      let pending = λ (ep : String × Episode E).
        (e : Episode E) × (lookup ep.0 d.episodes ≡ some e) × (is_pending e ≡ true) in
      let kept = keep_if wanted d.episodes in
      (
        All_keys
            (λ uuid. (e : Episode E) × (lookup uuid d.episodes ≡ some e) × (is_pending e ≡ true))
            (keep_if named (take 20 (sort_by older kept)))
            (All-keep_if pending named (take 20 (sort_by older kept)) (
              All-take pending 20 (sort_by older kept)
                (All-sort_by pending older kept (fetch_pending-ArePending gid d.episodes dis)))),
        Distinct-keep_if named (take 20 (sort_by older kept)) (
            Distinct-take 20 (sort_by older kept)
              (Distinct-sort_by older kept (Distinct-keep_if wanted d.episodes dis))),
      )

module _ {E F : Type 0} (d0 : Dict (Episode E)) where
  -- Since `d0` every episode has taken a step that it may take.
  abbrev pub Stepped : Database E F → Type 0
  Stepped d = Since MayStep d0 d.episodes

  abbrev SteppedWith : List String → Database E F → Type 0
  SteppedWith uuids d = Stepped d × ArePending uuids d.episodes

  pub Stepped-IsStable : IsStable Stepped
  Stepped-IsStable = record {
    distinct = λ d s. s.distinct;
    step = λ d d' s t. Since-trans d0 d.episodes d'.episodes s t;
  }

  SteppedWith-IsStable : (uuids : List String) → IsStable (SteppedWith uuids)
  SteppedWith-IsStable uuids = record {
    distinct = λ d s. s.0.distinct;
    step = λ d d' s t. (
      Since-trans d0 d.episodes d'.episodes s.0 t,
      ArePending-Since uuids d.episodes d'.episodes t s.1,
    );
  }

  Triple-mark_consolidated :
      (faults : Faults) (uuids : List String)
      → Triple
          (SteppedWith uuids)
          (mark_episodes_consolidated {F = F} faults uuids)
          (λ _. Stepped)
          Stepped
  unfolding mark_episodes_consolidated
  Triple-mark_consolidated faults [] = Triple-pure 0 (λ d s. s.0)
  Triple-mark_consolidated faults (u ∷ us) =
      Triple-run_query faults
        (λ db. ((mark "consolidated" (u ∷ us) db).0, found_in db.episodes (u ∷ us)))
        (λ d s raises. s.0)
        (λ d s. mark-Since "consolidated" (u ∷ us) d0 (sent d) (inr refl) s.1 s.0)

module _ {E F : Type 0} (d0 : Dict (Episode E)) (o : Outside E F) (quiet : IsQuiet o)
    (cfg : Settings F) (faults : Faults) where
  abbrev SteppedApart : Parts E → Database E F → Type 0
  SteppedApart parts d =
      SteppedWith d0 parts.0 d
      × ArePending (map (λ ep. ep.0) parts.1) d.episodes
      × All (λ u. contains u parts.0 ≡ false) (map (λ ep. ep.0) parts.1)

  Triple-mark_duplicates :
      (parts : Parts E)
      → Triple
          (SteppedApart parts)
          (mark_duplicates o cfg faults parts.0)
          (λ _. SteppedWith d0 (map (λ ep. ep.0) parts.1))
          (Stepped d0)
  unfolding mark_duplicates mark_episodes_duplicate
  Triple-mark_duplicates ([], us) = Triple-pure tt (λ d s. (s.0.0, s.1))
  Triple-mark_duplicates (u ∷ ds, us) =
      Triple-attempt (run_query faults (mark "duplicate" (u ∷ ds))) (pure tt)
        (SteppedApart (u ∷ ds, us))
        (Triple-run_query faults (mark "duplicate" (u ∷ ds)) (λ d s raises. s)
          (λ d s. (
            mark-Since "duplicate" (u ∷ ds) d0 (sent d) (inl refl) s.0.1 s.0.0,
            mark-ArePending "duplicate" (u ∷ ds) (map (λ ep. ep.0) us) (sent d) s.2 s.1,
          )))
        (Triple-pure tt (λ d s. (s.0.0, s.1)))

  Triple-consolidate_rest :
      (g : GroupInfo) (now duplicates : ℕ) (unique : List (String × Episode E))
      → Triple
          (SteppedWith d0 (map (λ ep. ep.0) unique))
          (consolidate_rest o cfg faults g now duplicates unique)
          (λ _. Stepped d0)
          (Stepped d0)
  unfolding consolidate_rest
  Triple-consolidate_rest g now duplicates [] =
      Triple-pure (consolidated duplicates 0 "") (λ d s. s.0)
  Triple-consolidate_rest g now duplicates (ep ∷ eps) =
      Triple-bind (consolidate_unique o cfg faults g.is_priority g.group_id now (ep ∷ eps)) _
        (λ _. Stepped d0)
        (Triple-consolidate_unique o cfg faults
          (Calls-quiet o faults quiet (SteppedWith-IsStable d0 (uuids_of (ep ∷ eps))) (λ d s. s.0))
          (Calls-quiet o faults quiet (Stepped-IsStable d0) (λ d s. s)) g.is_priority g.group_id now
          (ep ∷ eps) (Triple-mark_consolidated d0 faults (uuids_of (ep ∷ eps))))
        (λ done. Triple-pure (consolidated duplicates done.0 done.1) (λ d s. s))

  Triple-consolidate_episodes :
      (g : GroupInfo) (now : ℕ) (eps : List (String × Episode E))
      → Distinct (map (λ ep. ep.0) eps)
      → Triple
          (SteppedWith d0 (map (λ ep. ep.0) eps))
          (consolidate_episodes o cfg faults g now eps)
          (λ _. Stepped d0)
          (Stepped d0)
  unfolding consolidate_episodes
  Triple-consolidate_episodes g now [] dis = Triple-pure skipped (λ d s. s.0)
  Triple-consolidate_episodes g now (ep ∷ eps) dis =
      let uuids = map (λ ep. ep.0) (ep ∷ eps) in
      Triple-bind (split_duplicates o cfg faults g.group_id (ep ∷ eps)) _
        (λ parts. SteppedApart parts)
        (Triple-weaken (split_duplicates o cfg faults g.group_id (ep ∷ eps)) (λ d s. s)
          (λ parts d s.
            let (hd, hu) = split-ArePending (ep ∷ eps) parts d.episodes s.1 s.0.1 in
            ((s.0.0, hd), hu, split-disjoint (ep ∷ eps) parts s.1 dis))
          (λ d s. absurd s)
          (Triple-split_duplicates (SteppedWith-IsStable d0 uuids) o cfg faults g.group_id
            (ep ∷ eps)))
        λ parts.
          Triple-bind (mark_duplicates o cfg faults parts.0) _
            (λ _. SteppedWith d0 (map (λ ep. ep.0) parts.1)) (Triple-mark_duplicates parts)
            λ _. Triple-consolidate_rest g now (length parts.0) parts.1

  pub Triple-consolidate_group :
      (g : GroupInfo) (now : ℕ)
      → Triple (Stepped d0) (consolidate_group o cfg faults g now) (λ _. Stepped d0) (Stepped d0)
  unfolding consolidate_group ro_query
  Triple-consolidate_group g now =
      let named = keep_if (λ (ep : String × Episode E). not (ep.0 == "")) in
      Triple-bind (ro_query faults (fetch_pending g.group_id)) _
        (λ rows d.
          SteppedWith d0 (map (λ ep. ep.0) (named rows)) d
          × Distinct (map (λ ep. ep.0) (named rows)))
        (Triple-run_query faults (λ db. (db, fetch_pending g.group_id db)) (λ d s raises. s)
          (λ d s.
            let (pending, dis) = rows_lem g.group_id (sent d) s.distinct in ((s, pending), dis)))
        λ rows.
          Triple-given (consolidate_episodes o cfg faults g now (named rows)) (λ d s. s.1)
            λ dis.
              Triple-weaken (consolidate_episodes o cfg faults g now (named rows)) (λ d s. s.0)
                (λ _ d s. s) (λ d s. s) (Triple-consolidate_episodes g now (named rows) dis)

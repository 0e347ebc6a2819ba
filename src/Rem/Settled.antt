-- ===== src/Rem/Settled.antt =====
-- Where nothing raises, a group's consolidation (workers/rem_worker.py `_consolidate_group`)
-- settles every episode that it fetches.
pub mod Marking
use segnog.Prelude.{
  ℕ, String, Bool, true, false, some, List, [], ◌∷◌, ◌≡◌, refl, ◌∙◌, inl, inr, ◌⊎◌, ◌==◌, ◌||◌, not,
  map, Dict, keys, lookup, contains, Distinct, All, All-map, All-both, eq_self, keep_if, length,
  arith, Bool-cases,
}
use segnog.Exec.{Exec, pure, ◌>>=◌}
use segnog.Exec.Triples.{
  NoRaise, returned, Triple, Triple-pure, Triple-attempt, Triple-bind, Triple-weaken,
}
use segnog.Graph.{Episode, Database, Faults, run_query, ro_query}
use segnog.Graph.Queries.{Triple-run_query, sent}
use segnog.Rem.{Outside, Settings, GroupInfo, is_pending}
use segnog.Rem.Consolidation.{
  Outcome, skipped, consolidated, set_status, mark, found_in, fetch_pending, split_duplicates,
  mark_episodes_duplicate, mark_episodes_consolidated, mark_duplicates, consolidate_unique,
  consolidate_rest, consolidate_episodes, consolidate_group,
}
use segnog.Rem.Lifecycle.{IsSettled}
use segnog.Rem.Lifecycle.Quiet.{IsStable, KeepsStatus, IsQuiet}
use segnog.Rem.Lifecycle.Split.{Parts, IsSplit, Triple-split_duplicates}
use segnog.Rem.Lifecycle.Marks.{lookup-mark, keys-mark}
use segnog.Rem.Lifecycle.Steps.{Calls, Triple-consolidate_unique}
use segnog.Rem.Lifecycle.Groups.{rows_lem}
use segnog.Rem.Settled.Marking.{
  IsUp, Calls-up, Waits, AllWait, AllWait-IsStable, AllWait-mark, split-covers,
}

module _ {E F : Type 0} (o : Outside E F) (quiet : IsQuiet o) (up : IsUp o) (cfg : Settings F)
    (faults : Faults) (fine : (k : ℕ) → faults k ≡ false) (uuids : List String) where
  abbrev Waiting : List String → Database E F → Type 0
  Waiting marked = AllWait (λ u. contains u marked) uuids

  abbrev Split : Parts E → Database E F → Type 0
  Split parts = AllWait (λ u. contains u parts.0 || contains u (map (λ ep. ep.0) parts.1)) uuids

  no_fault : (d : Database E F) → faults d.queries ≡ true → ⊥
  no_fault d raises = let none_raises = fine d.queries in cc

  Triple-mark_duplicates :
      (parts : Parts E)
      → Triple
          (Split parts)
          (mark_duplicates o cfg faults parts.0)
          (λ _. Waiting (map (λ ep. ep.0) parts.1))
          NoRaise
  unfolding mark_duplicates mark_episodes_duplicate contains
  Triple-mark_duplicates ([], us) = Triple-pure tt (λ d s. s)
  Triple-mark_duplicates (u ∷ ds, us) =
      Triple-attempt (run_query faults (mark "duplicate" (u ∷ ds))) (pure tt) NoRaise
        (Triple-run_query faults (mark "duplicate" (u ∷ ds)) (λ d s raises. no_fault d raises)
          (λ d s.
            AllWait-mark "duplicate" (u ∷ ds) uuids
              (λ k. contains k (u ∷ ds) || contains k (map (λ ep. ep.0) us))
              (λ k. contains k (map (λ ep. ep.0) us)) (sent d) (inl refl) (λ k h. h) s))
        (Triple-pure tt (λ d s. absurd s))

  Triple-mark_consolidated :
      (marked : List String)
      → Triple (Waiting marked) (mark_episodes_consolidated faults marked) (λ _. Waiting []) NoRaise
  unfolding mark_episodes_consolidated contains
  Triple-mark_consolidated [] = Triple-pure 0 (λ d s. s)
  Triple-mark_consolidated (u ∷ us) =
      Triple-run_query faults
        (λ db. ((mark "consolidated" (u ∷ us) db).0, found_in db.episodes (u ∷ us)))
        (λ d s raises. no_fault d raises)
        (λ d s.
          AllWait-mark "consolidated" (u ∷ us) uuids (λ k. contains k (u ∷ us)) (λ k. contains k [])
            (sent d) (inr refl) (λ k h. ground arith) s)

  Triple-consolidate_rest :
      (g : GroupInfo) (now duplicates : ℕ) (unique : List (String × Episode E))
      → Triple
          (Waiting (map (λ ep. ep.0) unique))
          (consolidate_rest o cfg faults g now duplicates unique)
          (λ _. Waiting [])
          NoRaise
  unfolding consolidate_rest
  Triple-consolidate_rest g now duplicates [] =
      Triple-pure (consolidated duplicates 0 "") (λ d s. s)
  Triple-consolidate_rest g now duplicates (ep ∷ eps) =
      let us = map (λ (ep : String × Episode E). ep.0) (ep ∷ eps) in
      Triple-bind (consolidate_unique o cfg faults g.is_priority g.group_id now (ep ∷ eps)) _
        (λ _. Waiting [])
        (Triple-consolidate_unique o cfg faults
          (Calls-up o quiet up faults fine (AllWait-IsStable (λ u. contains u us) uuids))
          (Calls-up o quiet up faults fine (AllWait-IsStable (λ u. contains u []) uuids))
          g.is_priority g.group_id now (ep ∷ eps) (Triple-mark_consolidated us))
        (λ done. Triple-pure (consolidated duplicates done.0 done.1) (λ d s. s))

  Triple-consolidate_episodes :
      (g : GroupInfo) (now : ℕ) (eps : List (String × Episode E))
      → Triple
          (Waiting (map (λ ep. ep.0) eps))
          (consolidate_episodes o cfg faults g now eps)
          (λ _. Waiting [])
          NoRaise
  unfolding consolidate_episodes
  Triple-consolidate_episodes g now [] = Triple-pure skipped (λ d s. s)
  Triple-consolidate_episodes g now (ep ∷ eps) =
      let us = map (λ (ep : String × Episode E). ep.0) (ep ∷ eps) in
      let split = split_duplicates o cfg faults g.group_id (ep ∷ eps) in
      Triple-bind split _ Split
        (Triple-weaken split (λ d s. s)
          (λ parts d s. weaken parts d s.0 (λ u h. split-covers (ep ∷ eps) parts u s.1 h))
          (λ d s. s)
          (Triple-split_duplicates (AllWait-IsStable (λ u. contains u us) uuids) o cfg faults
            g.group_id (ep ∷ eps)))
        λ parts.
          Triple-bind (mark_duplicates o cfg faults parts.0) _
            (λ _. Waiting (map (λ ep. ep.0) parts.1)) (Triple-mark_duplicates parts)
            λ _. Triple-consolidate_rest g now (length parts.0) parts.1
    where
      weaken :
          (parts : Parts E) (d : Database E F)
          → Waiting (map (λ ep. ep.0) (ep ∷ eps)) d
          → ((u : String)
              → contains u (map (λ ep. ep.0) (ep ∷ eps)) ≡ true
              → (contains u parts.0 || contains u (map (λ ep. ep.0) parts.1)) ≡ true)
          → Split parts d
      weaken parts d s covers = (
        s.0,
        All-map _ _ uuids
            (λ u w.
              (w.0, w.1, elim w.2 [ inl later ↦ inl (covers u later) | inr settled ↦ inr settled ]))
            s.1,
      )

contains_each : (us : List String) → All (λ u. contains u us ≡ true) us
unfolding contains
contains_each [] = tt
contains_each (v ∷ us) = (
  rw (eq_self v) refl,
  All-map (λ u. contains u us ≡ true) (λ u. contains u (v ∷ us) ≡ true) us (λ u h. ground arith)
      (contains_each us),
)

-- What `_consolidate_group` fetches: the rows whose uuid is not empty.
abbrev pub fetched : {E F : Type 0} → String → Database E F → List String
fetched gid db = map (λ ep. ep.0) (keep_if (λ ep. not (ep.0 == "")) (fetch_pending gid db))

-- If no query raises and the other components answer, add episodes only and leave the status of
-- those that are there, then a group's consolidation, from a database whose uuids name one node
-- each, returns, and every episode that it fetched is a duplicate or consolidated then.
pub consolidate_group-IsSettled :
    {E F : Type 0} (o : Outside E F) (quiet : IsQuiet o) (up : IsUp o) (cfg : Settings F)
    (faults : Faults) (g : GroupInfo) (now : ℕ) (db : Database E F)
    → ((k : ℕ) → faults k ≡ false)
    → Distinct (keys db.episodes)
    → (outcome : Outcome) × ((consolidate_group o cfg faults g now db).1 ≡ some outcome)
      × All
          (λ uuid.
            (e : Episode E) × (lookup uuid (consolidate_group o cfg faults g now db).0.episodes
              ≡ some e)
            × IsSettled e)
          (fetched g.group_id db)
unfolding consolidate_group ro_query run_query ◌>>=◌ contains fetch_pending
consolidate_group-IsSettled {E = E} {F = F} o quiet up cfg faults g now db fine dis =
    let uuids = fetched g.group_id db in
    let start = rows_lem g.group_id db dis in
    let named = keep_if (λ (ep : String × Episode E). not (ep.0 == "")) in
    let waits =
      All-both (λ u. (e : Episode E) × (lookup u db.episodes ≡ some e) × (is_pending e ≡ true))
        (λ u. contains u uuids ≡ true) (Waits (λ u. contains u uuids) db.episodes) uuids start.0
        (contains_each uuids) (λ u w c. (w.0, w.1, inl c)) in
    let settle = consolidate_episodes o cfg faults g now (named (fetch_pending g.group_id db)) in
    let (outcome, ends, settled) =
      returned settle (sent db)
        (Triple-consolidate_episodes o quiet up cfg faults fine uuids g now
          (named (fetch_pending g.group_id db)))
        (dis, waits) in
    rw (fine db.queries) (
      outcome,
      ends,
      All-map (Waits (λ u. contains u []) (settle (sent db)).0.episodes)
          (λ u. (e : Episode E) × (lookup u (settle (sent db)).0.episodes ≡ some e) × IsSettled e)
          uuids (λ u w. (w.0, w.1, elim w.2 [ inl no_more ↦ cc | inr done ↦ done ])) settled.1,
    )

-- ===== src/Curation/Trigger.antt =====
-- The body of a curation (workers/curation_worker.py `_trigger_curation`), over the graph database
-- and the marking and compression of the episode store. The handler's curation is that of the
-- record Outside of Rem; the context from the tool events, the latency and the message about the
-- end are left out, since they change no episode.
use Prim.Native.String.{◌++◌ as ◌+++◌}
use mathlib.Core.Path.{subst}
use segnog.Prelude.{
  ℕ, String, Bool, true, none, some, List, [], ◌∷◌, ◌≡◌, ◌⊎◌, refl, sym, ◌∙◌, inl, inr, ◌==◌, ◌&&◌,
  keys, lookup, lookup_entries, contains, All, All-map, Distinct, keep_if, sort_by, length, ltb,
  leb, if◌then◌else◌, Bool-cases,
}
use segnog.Exec.{Exec, pure, attempt, branch, ◌>>=◌, ◌>>◌}
use segnog.Exec.Triples.{returned, Triple, Triple-pure, Triple-attempt, Triple-bind, Triple-branch}
use segnog.Exec.Returns.{Returns-attempt}
use segnog.Graph.{Episode, Database, Faults, ro_query}
use segnog.Graph.Queries.{Triple-run_query, sent}
use segnog.Rem.{Outside, Settings}
use segnog.Rem.Consolidation.{
  set_status, mark, found_in, mark_episodes_consolidated, compress_raw_episodes,
}
use segnog.Rem.Lifecycle.Quiet.{IsStable, IsQuiet, Triple-ro_query}
use segnog.Rem.Lifecycle.Marks.{lookup-mark, keys-mark}
use segnog.Rem.Lifecycle.Steps.{Calls, Calls-quiet, Triple-compress}

module _ {E F : Type 0} where
  -- The raw episodes among the uuids, oldest first.
  unfoldable pub source_episodes : List String → Database E F → List (String × Episode E)
  unfolding contains keep_if sort_by
  source_episodes uuids db =
      sort_by (λ y x. ltb y.1.created_at x.1.created_at)
        (keep_if (λ row. contains row.0 uuids && row.1.episode_type == "raw") db.episodes)

module _ {E : Type 0} where
  -- `all(row[2] for row in result.result_set if row[0])`
  unfoldable pub all_extracted : List (String × Episode E) → Bool
  all_extracted [] = true
  all_extracted (row ∷ rows) =
      let rest = all_extracted rows in
      if row.0 == "" then rest else row.1.knowledge_extracted && rest

  unfoldable pub content_of : String → List (String × Episode E) → String
  unfolding lookup
  content_of uuid rows =
      if uuid == "" then "" else elim (lookup uuid rows) [ none ↦ "" | some e ↦ e.content ]

  -- `"\n---\n".join(…)` over the uuids of the events.
  unfoldable pub combine : List String → List (String × Episode E) → String
  unfolding content_of
  combine [] rows = ""
  combine (uuid ∷ []) rows = content_of uuid rows
  combine (uuid ∷ next ∷ uuids) rows =
      content_of uuid rows +++ "\n---\n" +++ combine (next ∷ uuids) rows

module _ {E F : Type 0} (o : Outside E F) (cfg : Settings F) (faults : Faults) where
  unfoldable pub curate_rows :
      String → List String → ℕ → List (String × Episode E) → Exec (Database E F) (Unit {0})
  unfolding ◌>>=◌ pure branch all_extracted combine mark_episodes_consolidated compress_raw_episodes
  curate_rows gid uuids now rows = do
    branch (all_extracted rows) (pure tt) (o.run_curation gid uuids (combine uuids rows))
    mark_episodes_consolidated faults uuids
    branch (leb 2 (length uuids))
        (compress_raw_episodes o cfg faults gid uuids (combine uuids rows) now) (pure "")
    pure tt

  -- An exception is logged.
  unfoldable pub curate_events : String → List String → ℕ → Exec (Database E F) (Unit {0})
  unfolding ◌>>=◌ pure attempt ro_query source_episodes curate_rows
  curate_events gid uuids now =
      attempt (do rows ← ro_query faults (source_episodes uuids); curate_rows gid uuids now rows)
        (pure tt)

-- The episode has its type still, and its status too, unless it is consolidated now and one of the
-- uuids names it.
abbrev pub MayConsolidate : {E : Type 0} → List String → String → Episode E → Episode E → Type 0
MayConsolidate uuids uuid e e' =
    (e'.episode_type ≡ e.episode_type)
    × ((e'.consolidation_status ≡ e.consolidation_status)
        ⊎ (contains uuid uuids ≡ true) × (e'.consolidation_status ≡ "consolidated"))

module _ {E F : Type 0} (uuids : List String) (uuid : String) (e : Episode E) where
  abbrev Kept : Database E F → Type 0
  Kept d =
      Distinct (keys d.episodes)
      × ((e' : Episode E) × (lookup uuid d.episodes ≡ some e') × MayConsolidate uuids uuid e e')

  Kept-IsStable : IsStable Kept
  Kept-IsStable = record {
    distinct = λ d h. h.0;
    step = λ d d' h t.
        let (e', found, (same_type, status)) = h.1 in
        let (e'', found', same) = t.at uuid e' found in
        (
          t.distinct,
          (
            e'',
            found',
            (
              same.1 ∙ same_type,
              elim status [
                | inl kept ↦ inl (same.0 ∙ kept)
                | inr (named, done) ↦ inr (named, same.0 ∙ done)
              ],
            ),
          ),
        );
  }

  mark-Kept : (d : Database E F) → Kept d → Kept (mark "consolidated" uuids d).0
  unfolding set_status
  mark-Kept d h =
      let (e', found, (same_type, status)) = h.1 in
      (
        rw (keys-mark "consolidated" uuids d) h.0,
        elim (Bool-cases (contains uuid uuids)) [
          | inl c ↦ (
            set_status "consolidated" e',
            rw (lookup-mark "consolidated" uuid uuids e' d found, c) refl,
            (same_type, inr (c, refl)),
          )
          | inr c ↦ (
            e',
            rw (lookup-mark "consolidated" uuid uuids e' d found, c) refl,
            (same_type, status),
          )
        ],
      )

module _ {E F : Type 0} (o : Outside E F) (quiet : IsQuiet o) (cfg : Settings F) (faults : Faults)
    (uuids : List String) (uuid : String) (e : Episode E) where
  calls : Calls o faults (Kept uuids uuid e) (Kept uuids uuid e)
  calls = Calls-quiet o faults quiet (Kept-IsStable uuids uuid e) (λ d h. h)

  Triple-marks :
      (marked : List String)
      → marked ≡ uuids
      → Triple
          (Kept uuids uuid e)
          (mark_episodes_consolidated {F = F} faults marked)
          (λ _. Kept uuids uuid e)
          (Kept uuids uuid e)
  unfolding mark_episodes_consolidated
  Triple-marks [] same = Triple-pure 0 (λ d h. h)
  Triple-marks (u ∷ us) same =
      Triple-run_query faults
        (λ db. ((mark "consolidated" (u ∷ us) db).0, found_in db.episodes (u ∷ us)))
        (λ d h raises. h)
        (λ d h.
          subst (λ m. Kept uuids uuid e (mark "consolidated" m (sent d)).0) (sym same)
            (mark-Kept uuids uuid e (sent d) h))

  Triple-curate_rows :
      (gid : String) (now : ℕ) (rows : List (String × Episode E))
      → Triple
          (Kept uuids uuid e)
          (curate_rows o cfg faults gid uuids now rows)
          (λ _. Kept uuids uuid e)
          (Kept uuids uuid e)
  unfolding curate_rows
  Triple-curate_rows gid now rows =
      let text = combine uuids rows in
      Triple-bind _ _ (λ _. Kept uuids uuid e)
        (Triple-branch (all_extracted rows) (pure tt) (o.run_curation gid uuids text)
          (λ h. Triple-pure tt (λ d k. k)) (λ h. calls.curation gid uuids text))
        λ _.
          Triple-bind (mark_episodes_consolidated faults uuids) _ (λ _. Kept uuids uuid e)
            (Triple-marks uuids refl)
            λ _.
              Triple-bind _ _ (λ _. Kept uuids uuid e)
                (Triple-branch (leb 2 (length uuids))
                  (compress_raw_episodes o cfg faults gid uuids text now) (pure "")
                  (λ h. Triple-compress o cfg faults calls gid uuids text now)
                  (λ h. Triple-pure "" (λ d k. k)))
                λ _. Triple-pure tt (λ d k. k)

module _ {E F : Type 0} (o : Outside E F) (quiet : IsQuiet o) (cfg : Settings F) (faults : Faults)
    (gid : String) (uuids : List String) (now : ℕ) (db : Database E F) where
  -- What a curation leaves of one episode.
  curate_events-Kept :
      Distinct (keys db.episodes)
      → (uuid : String) (e : Episode E) → lookup uuid db.episodes ≡ some e
      → Kept uuids uuid e (curate_events o cfg faults gid uuids now db).0
  unfolding curate_events
  curate_events-Kept dis uuid e found =
      let (done, ends, kept) =
        returned {Q = λ _. Kept uuids uuid e} (curate_events o cfg faults gid uuids now) db
          (Triple-attempt _ (pure tt) (Kept uuids uuid e)
            (Triple-bind (ro_query faults (source_episodes uuids))
              (λ rows. curate_rows o cfg faults gid uuids now rows) (λ _. Kept uuids uuid e)
              (Triple-ro_query (Kept-IsStable uuids uuid e) faults (source_episodes uuids))
              (Triple-curate_rows o quiet cfg faults uuids uuid e gid now))
            (Triple-pure tt (λ d k. k)))
          (dis, (e, found, (refl, inl refl))) in
      kept

  -- Whatever raises is caught, whatever the database holds.
  curate_events-returns : (curate_events o cfg faults gid uuids now db).1 ≡ some tt
  unfolding curate_events
  curate_events-returns =
      let body : Exec (Database E F) (Unit {0}) =
        ro_query faults (source_episodes uuids) >>= λ rows.
        curate_rows o cfg faults gid uuids now rows in
      let (done, ends, kept) = returned (attempt body (pure tt)) db (Returns-attempt body tt) tt in
      ends

-- If the handler adds episodes only and leaves the status of those that are there, then a curation,
-- from a database whose uuids name one node each, never raises, also where there is no episode. It
-- loses no episode, keeps the type of each, and changes its status only to consolidated, and only if
-- an event names the episode, whichever queries raise and whether the handler does.
pub curate_events-MayConsolidate :
    {E F : Type 0} (o : Outside E F) (quiet : IsQuiet o) (cfg : Settings F) (faults : Faults)
    (gid : String) (uuids : List String) (now : ℕ) (db : Database E F)
    → Distinct (keys db.episodes)
    → ((curate_events o cfg faults gid uuids now db).1 ≡ some tt)
      × All
          (λ row.
            (e' : Episode E) × (lookup row.0
                (curate_events o cfg faults gid uuids now db).0.episodes
              ≡ some e')
            × MayConsolidate uuids row.0 row.1 e')
          db.episodes
curate_events-MayConsolidate o quiet cfg faults gid uuids now db dis = (
  curate_events-returns o quiet cfg faults gid uuids now db,
  All-map (λ row. lookup row.0 db.episodes ≡ some row.1) _ db.episodes
      (λ row found.
        (curate_events-Kept o quiet cfg faults gid uuids now db dis row.0 row.1 found).1)
      (lookup_entries db.episodes dis),
)

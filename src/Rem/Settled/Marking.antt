-- ===== src/Rem/Settled/Marking.antt =====
-- The episodes that a group's consolidation (workers/rem_worker.py) still has to mark, and what
-- the calls of components that answer do.
use segnog.Prelude.{
  ℕ, String, Bool, true, false, some, List, [], ◌∷◌, ◌≡◌, refl, ◌∙◌, inl, inr, ◌⊎◌, ◌==◌, ◌||◌, map,
  Dict, keys, lookup, contains, Distinct, All, All-map, arith, Bool-cases,
}
use segnog.Exec.{Exec}
use segnog.Exec.Triples.{NoRaise, Triple}
use segnog.Graph.{Episode, Database, Faults}
use segnog.Rem.{Outside}
use segnog.Rem.Consolidation.{set_status, mark}
use segnog.Rem.Lifecycle.{IsSettled}
use segnog.Rem.Lifecycle.Quiet.{IsStable, KeepsStatus, IsQuiet}
use segnog.Rem.Lifecycle.Split.{Parts, IsSplit}
use segnog.Rem.Lifecycle.Marks.{lookup-mark, keys-mark}
use segnog.Rem.Lifecycle.Steps.{Calls}

-- The other components answer.
pub record IsUp {E F : Type 0} (o : Outside E F) : Type 0 where
  pub curation :
      (gid : String) (uuids : List String) (text : String) (d : Database E F)
      → (o.run_curation gid uuids text d).1 ≡ some tt
  pub coverage :
      (gid : String) (uuids : List String) (text : String) (d : Database E F)
      → (o.fast_coverage_ontology gid uuids text d).1 ≡ some tt
  pub about_edges :
      (gid : String) (d : Database E F) → (o.create_about_edges_by_similarity gid d).1 ≡ some tt
  pub ontology :
      (gid : String) (uuids : List String) (text : String) (d : Database E F)
      → (o.update_group_ontology gid uuids text d).1 ≡ some tt
  pub embedding : (text : String) → (v : E) × (o.embed text ≡ some v)

module _ {E F : Type 0} (o : Outside E F) (quiet : IsQuiet o) (up : IsUp o) (faults : Faults)
    (fine : (k : ℕ) → faults k ≡ false) where
  pub Calls-up : {P : Database E F → Type 0} → IsStable P → Calls o faults P NoRaise
  Calls-up {P} st = record {
    stable = st;
    query = λ d h raises. let none_raises = fine d.queries in cc;
    curation = λ gid uuids text. call (quiet.curation gid uuids text) (up.curation gid uuids text);
    coverage = λ gid uuids text. call (quiet.coverage gid uuids text) (up.coverage gid uuids text);
    about_edges = λ gid. call (quiet.about_edges gid) (up.about_edges gid);
    ontology = λ gid uuids text. call (quiet.ontology gid uuids text) (up.ontology gid uuids text);
    embedding = λ text fails d h. let (v, ok) = up.embedding text in cc;
    fresh = quiet.fresh;
  }
    where
      call :
          {m : Exec (Database E F) (Unit {0})}
          → KeepsStatus m
          → ((d : Database E F) → (m d).1 ≡ some tt)
          → Triple P m (λ _. P) NoRaise
      call {m} k returns = record {
        at = λ d h. rw (returns d) (st.step d (m d).0 h (k.at d (st.distinct d h)));
      }

module _ {E : Type 0} where
  -- The episode is there, and if it is not settled yet then it is still to be marked.
  abbrev pub Waits : (String → Bool) → Dict (Episode E) → String → Type 0
  Waits todo d uuid =
      (e : Episode E) × (lookup uuid d ≡ some e) × ((todo uuid ≡ true) ⊎ IsSettled e)

  -- Each of the episodes is in one of the parts.
  pub split-covers :
      (eps : List (String × Episode E)) (parts : Parts E) (u : String)
      → IsSplit eps parts
      → contains u (map (λ ep. ep.0) eps) ≡ true
      → (contains u parts.0 || contains u (map (λ ep. ep.0) parts.1)) ≡ true
  unfolding contains
  split-covers [] parts u s h = cc
  split-covers (ep ∷ eps) parts u (rest, s, inl e) h = elim (Bool-cases (u == ep.0)) [
    | inl same ↦ rw e (ground arith)
    | inr other ↦ let ih = split-covers eps rest u s (ground arith) in rw e (ground arith)
  ]
  split-covers (ep ∷ eps) parts u (rest, s, inr e) h = elim (Bool-cases (u == ep.0)) [
    | inl same ↦ rw e (ground arith)
    | inr other ↦ let ih = split-covers eps rest u s (ground arith) in rw e (ground arith)
  ]

module _ {E F : Type 0} where
  abbrev pub AllWait : (String → Bool) → List String → Database E F → Type 0
  AllWait todo uuids d = Distinct (keys d.episodes) × All (Waits todo d.episodes) uuids

  pub AllWait-IsStable :
      (todo : String → Bool) (uuids : List String) → IsStable (AllWait todo uuids)
  AllWait-IsStable todo uuids = record {
    distinct = λ d s. s.0;
    step = λ d d' s t. (
      t.distinct,
      All-map (Waits todo d.episodes) (Waits todo d'.episodes) uuids
          (λ uuid w.
            let (e, found, wait) = w in
            let (e', found', same) = t.at uuid e found in
            (
              e',
              found',
              elim wait [
                | inl later ↦ inl later
                | inr (inl settled) ↦ inr (inl (same.0 ∙ settled))
                | inr (inr settled) ↦ inr (inr (same.0 ∙ settled))
              ],
            ))
          s.1,
    );
  }

  -- Marking settles what is marked.
  pub AllWait-mark :
      (status : String) (marked uuids : List String) (todo todo' : String → Bool) (d : Database E F)
      → ((status ≡ "duplicate") ⊎ (status ≡ "consolidated"))
      → ((u : String) → todo u ≡ true → (contains u marked || todo' u) ≡ true)
      → AllWait todo uuids d
      → AllWait todo' uuids (mark status marked d).0
  unfolding set_status
  AllWait-mark status marked uuids todo todo' d which covers s = (
    rw (keys-mark status marked d) s.0,
    All-map (Waits todo d.episodes) (Waits todo' (mark status marked d).0.episodes) uuids step s.1,
  )
    where
      step :
          (u : String) → Waits todo d.episodes u → Waits todo' (mark status marked d).0.episodes u
      step u (e, found, wait) = elim (Bool-cases (contains u marked)) [
        | inl c ↦
            (set_status status e, rw (lookup-mark status u marked e d found, c) refl, inr which)
        | inr c ↦ (
          e,
          rw (lookup-mark status u marked e d found, c) refl,
          elim wait [
            | inl later ↦ inl (let covered = covers u later in ground arith)
            | inr settled ↦ inr settled
          ],
        )
      ]

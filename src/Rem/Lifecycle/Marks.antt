-- ===== src/Rem/Lifecycle/Marks.antt =====
-- The queries that mark episodes, as duplicates or as consolidated.
use segnog.Prelude.{
  String, true, false, some, List, [], ◌∷◌, ◌≡◌, refl, sym, ◌∙◌, ap, inl, inr, ◌⊎◌, ◌==◌, Dict,
  keys, lookup, contains, All, eq_iff, some_eq, arith, if◌then◌else◌, Bool-cases,
}
use segnog.Graph.{Episode, Database}
use segnog.Graph.Update.{lookup-update_where, keys-update_where}
use segnog.Rem.{is_pending}
use segnog.Rem.Consolidation.{set_status, mark}
use segnog.Rem.Lifecycle.{MayStep, MayStep-trans, Since, ArePending}

module _ {E : Type 0} where
  pending_at :
      (uuid : String) (e : Episode E) (uuids : List String) (d : Dict (Episode E))
      → ArePending uuids d
      → contains uuid uuids ≡ true
      → lookup uuid d ≡ some e
      → is_pending e ≡ true
  unfolding contains
  pending_at uuid e [] d h c found = cc
  pending_at uuid e (u ∷ uuids) d h c found = elim (Bool-cases (uuid == u)) [
    | inl same ↦
        let (f, found', pending) = h.0 in
        rw
          (some_eq {a = e} {b = f}
            (sym found ∙ ap (λ k. lookup k d) ((eq_iff uuid u).0 same) ∙ found'))
          pending
    | inr other ↦ pending_at uuid e uuids d h.1 (ground arith) found
  ]

module _ {E F : Type 0} where
  pub lookup-mark :
      (status uuid : String) (uuids : List String) (e : Episode E) (d : Database E F)
      → lookup uuid d.episodes ≡ some e
      → lookup uuid (mark status uuids d).0.episodes
        ≡ some (if contains uuid uuids then set_status status e else e)
  unfolding mark
  lookup-mark status uuid uuids e d found =
      rw
        (
          lookup-update_where (λ uuid e. contains uuid uuids) (set_status status) uuid d.episodes,
          found,
        )
        refl

  pub keys-mark :
      (status : String) (uuids : List String) (d : Database E F)
      → keys (mark status uuids d).0.episodes ≡ keys d.episodes
  unfolding mark
  keys-mark status uuids d =
      keys-update_where (λ uuid e. contains uuid uuids) (set_status status) d.episodes

  -- Marking raw pending episodes is a step that they may take.
  pub mark-Since :
      (status : String) (uuids : List String) (d0 : Dict (Episode E)) (d : Database E F)
      → ((status ≡ "duplicate") ⊎ (status ≡ "consolidated"))
      → ArePending uuids d.episodes
      → Since MayStep d0 d.episodes
      → Since MayStep d0 (mark status uuids d).0.episodes
  unfolding set_status
  mark-Since status uuids d0 d which pending s = record {
    distinct = rw (keys-mark status uuids d) s.distinct;
    at = λ uuid e h.
        let (e', h', r) = s.at uuid e h in
        (
          if contains uuid uuids then set_status status e' else e',
          lookup-mark status uuid uuids e' d h',
          MayStep-trans e e' (if contains uuid uuids then set_status status e' else e') r
              (step uuid e' h'),
        );
  }
    where
      step :
          (uuid : String) (e : Episode E)
          → lookup uuid d.episodes ≡ some e
          → MayStep e (if contains uuid uuids then set_status status e else e)
      step uuid e found = elim (Bool-cases (contains uuid uuids)) [
        | inl c ↦ rw c (inr (pending_at uuid e uuids d.episodes pending c found, refl, which))
        | inr c ↦ rw c (inl (refl, refl))
      ]

  -- The others are pending still.
  pub mark-ArePending :
      (status : String) (marked others : List String) (d : Database E F)
      → All (λ u. contains u marked ≡ false) others
      → ArePending others d.episodes
      → ArePending others (mark status marked d).0.episodes
  mark-ArePending status marked [] d apart h = tt
  mark-ArePending status marked (u ∷ others) d apart h =
      let (e, found, pending) = h.0 in
      (
        (e, rw (lookup-mark status u marked e d found, apart.0) refl, pending),
        mark-ArePending status marked others d apart.1 h.1,
      )

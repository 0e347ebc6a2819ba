-- ===== src/Workflow/Errors.antt =====
-- What an error of `topological_order` in workflows/base.py means, and that the model's fuel is
-- enough: a cycle that is reported is there, an unknown dependency is one, and nothing else fails.
use segnog.Prelude.{
  ℕ, zero, suc, ◌≤◌, ◌<◌, String, true, false, none, List, [], ◌∷◌, ◌≡◌, refl, contains,
  contains_head, contains_tail, not_contains_nil, Among, All, of_each, length, Bool-cases,
  Option-cases, inl, inr, arith, eq_iff, if◌then◌else◌, ◌==◌, ◌⊎◌,
}
use mathlib.Core.Path.{subst, ◌∙◌}
use segnog.Workflow.{
  Stage, Workflow, Error, cycle, unknown_dependency, no_fuel, Result, ok, err, >>=-eq-err, Visits,
  get_stage, visit_deps, finish, visit, visit_all, topological_order,
}
use segnog.Workflow.Order.{
  Inv, Sound, entered, entered-Inv, visit_lem, find_stage-Among, name-find_stage, start, start-Inv,
}

error_eq : {A : Type 0} {e f : Error} → ◌≡◌ {A = Result A} (err e) (err f) → e ≡ f
error_eq h = cc

module _ {V R : Type 0} where
  -- `a` depends on `b`, directly or through other stages.
  pub data Reaches (w : Workflow V R) : String → String → Type 0 where
    direct :
        {a b : String} (s : Stage V R)
        → Among s w.stages
        → s.name ≡ a
        → contains b s.depends_on ≡ true
        → Reaches w a b
    through : {a b c : String} → Reaches w a b → Reaches w b c → Reaches w a c

  -- A cycle error names a stage that depends on itself, an unknown dependency is listed by a
  -- stage of the workflow and is the name of none.
  abbrev pub Explains : Workflow V R → Error → Type 0
  Explains w (cycle n) = Reaches w n n
  Explains w (unknown_dependency owner d) =
      (s : Stage V R) × Among s w.stages
      × (s.name ≡ owner)
      × (contains d s.depends_on ≡ true)
      × (get_stage w d ≡ none)
  Explains w no_fuel = ⊥

  -- Stages whose names are not being visited: the bound on the nesting that is left.
  free : List (Stage V R) → List String → ℕ
  free [] visiting = 0
  free (s ∷ l) visiting =
      let rest = free l visiting in if contains s.name visiting then rest else suc rest

  free-cons-le : (x : String) (v : List String) (l : List (Stage V R)) → free l (x ∷ v) ≤ free l v
  unfolding free contains
  free-cons-le x v [] = omega arith
  free-cons-le x v (s ∷ l) = ground (arith, free-cons-le x v l)

  free-cons-lt :
      (v : List String) (s : Stage V R) (l : List (Stage V R))
      → contains s.name v ≡ false
      → Among s l
      → free l (s.name ∷ v) < free l v
  unfolding free contains
  free-cons-lt v s [] h m = absurd m
  free-cons-lt v s (t ∷ l) h (inl e) =
      ground (arith, free-cons-le s.name v l, eq_iff s.name s.name, eq_iff t.name s.name)
  free-cons-lt v s (t ∷ l) h (inr m) = ground (arith, free-cons-lt v s l h m)

  free-le-length : (v : List String) (l : List (Stage V R)) → free l v ≤ length l
  unfolding free
  free-le-length v [] = omega arith
  free-le-length v (s ∷ l) = ground (arith, free-le-length v l)

  -- Every stage that is being visited depends on `n`.
  abbrev Lead : Workflow V R → List String → String → Type 0
  Lead w visiting n = (x : String) → contains x visiting ≡ true → Reaches w x n

  Lead-entered :
      (w : Workflow V R) (s : Stage V R) (st : Visits V R) (d : String)
      → Among s w.stages
      → contains d s.depends_on ≡ true
      → Lead w st.visiting s.name
      → Lead w (entered s st).visiting d
  unfolding contains
  Lead-entered w s st d m listed lead x h = elim (Bool-cases (x == s.name)) [
    | inl e ↦ direct s m (ground (arith, eq_iff x s.name)) listed
    | inr e ↦ through (lead x (ground arith)) (direct s m refl listed)
  ]

  -- The condition under which a call of `_visit` fails for a reason.
  abbrev Explained : ℕ → Workflow V R → (Stage V R → Visits V R → Result (Visits V R)) → Type 0
  Explained fuel w go =
      (s : Stage V R) (st : Visits V R) (e : Error)
      → Among s w.stages
      → Inv w st
      → Lead w st.visiting s.name
      → free w.stages st.visiting < fuel
      → go s st ≡ err e
      → Explains w e

  visit_deps-Explains :
      (fuel : ℕ) (w : Workflow V R) (go : Stage V R → Visits V R → Result (Visits V R))
      (s : Stage V R)
      → Explained fuel w go
      → Sound w go
      → Among s w.stages
      → (ds : List String) (st : Visits V R) (e : Error)
      → ((d : String) → contains d ds ≡ true → contains d s.depends_on ≡ true)
      → Inv w st
      → ((d : String) → contains d s.depends_on ≡ true → Lead w st.visiting d)
      → free w.stages st.visiting < fuel
      → visit_deps go w s.name ds st ≡ err e
      → Explains w e
  unfolding visit_deps
  visit_deps-Explains fuel w go s ex sound m [] st e sub inv lead room h = cc
  visit_deps-Explains fuel w go s ex sound m (d ∷ ds) st e sub inv lead room h =
      elim (Option-cases (get_stage w d)) [
        | inr missing ↦
            subst (Explains w) (error_eq (rw (missing, visit_deps) at h))
              (s, m, refl, sub d (contains_head d ds), missing)
        | inl (dep, found) ↦
            let own = find_stage-Among d w.stages dep (unfold get_stage in found) in
            let name = name-find_stage d w.stages dep (unfold get_stage in found) in
            let listed = sub d (contains_head d ds) in
            elim (>>=-eq-err (go dep st) (visit_deps go w s.name ds) e
              (rw (found, visit_deps) at h)) [
                | inl failed ↦ ex dep st e own inv (rw name (lead d listed)) room failed
                | inr (mid, ran, rest) ↦
                    let (inv', ext, seen) = sound dep st mid own inv ran in
                    visit_deps-Explains fuel w go s ex sound m ds mid e
                      (λ x k. sub x (contains_tail x d ds k)) inv' (rw ext.visiting lead)
                      (rw ext.visiting room) rest
              ]
      ]

  visit-err-cases :
      (fuel : ℕ) (w : Workflow V R) (s : Stage V R) (st : Visits V R) (e : Error)
      → visit (suc fuel) w s st ≡ err e
      → (contains s.name st.visited ≡ false)
        × ((contains s.name st.visiting ≡ true) × (cycle s.name ≡ e)
            ⊎ (contains s.name st.visiting ≡ false)
              × (visit_deps (visit fuel w) w s.name s.depends_on (entered s st) ≡ err e))
  unfolding visit
  visit-err-cases fuel w s st e h = elim (Bool-cases (contains s.name st.visited)) [
    | inl old ↦ cc (rw old at h)
    | inr new ↦ elim (Bool-cases (contains s.name st.visiting)) [
      | inl busy ↦ (new, inl (busy, error_eq (rw (new, busy) at h)))
      | inr idle ↦
          elim (>>=-eq-err (visit_deps (visit fuel w) w s.name s.depends_on (entered s st))
            (λ st'. ok (finish s st')) e (rw (new, idle) at h)) [
              | inl failed ↦ (new, inr (idle, failed))
              | inr (mid, ran, last) ↦ cc
            ]
    ]
  ]

  visit-Explains : (fuel : ℕ) (w : Workflow V R) → Explained fuel w (visit fuel w)
  visit-Explains zero w s st e m inv lead room h = absurd (omega arith)
  visit-Explains (suc fuel) w s st e m inv lead room h =
      let (new, why) = visit-err-cases fuel w s st e h in
      elim why [
        | inl (busy, same) ↦ subst (Explains w) same (lead s.name busy)
        | inr (idle, failed) ↦
            visit_deps-Explains fuel w (visit fuel w) s (visit-Explains fuel w) (visit_lem fuel w) m
              s.depends_on (entered s st) e (λ d k. k) (entered-Inv w s st new inv)
              (λ d k. Lead-entered w s st d m k lead)
              (omega (arith, free-cons-lt st.visiting s w.stages idle m)) failed
      ]

  visit_all-Explains :
      (fuel : ℕ) (w : Workflow V R) (l : List (Stage V R)) (st : Visits V R) (e : Error)
      → All (λ s. Among s w.stages) l
      → Inv w st
      → st.visiting ≡ []
      → length w.stages < fuel
      → visit_all fuel w l st ≡ err e
      → Explains w e
  unfolding visit_all
  visit_all-Explains fuel w [] st e own inv idle room h = cc
  visit_all-Explains fuel w (s ∷ l) st e own inv idle room h =
      elim (>>=-eq-err (visit fuel w s st) (visit_all fuel w l) e h) [
        | inl failed ↦
            visit-Explains fuel w s st e own.0 inv (rw idle (λ x k. absurd (not_contains_nil x k)))
              (omega (arith, free-le-length st.visiting w.stages)) failed
        | inr (mid, ran, rest) ↦
            let (inv', ext, seen) = visit_lem fuel w s st mid own.0 inv ran in
            visit_all-Explains fuel w l mid e own.1 inv' (ext.visiting ∙ idle) room rest
      ]

  -- Every error of `topological_order` is explained: a reported cycle is a stage that depends on
  -- itself, a reported unknown dependency is listed by the stage that is named and is no stage's
  -- name, and the fuel of the model never runs out.
  pub topological_order-Explains :
      (w : Workflow V R) (e : Error) → topological_order w ≡ err e → Explains w e
  unfolding topological_order
  topological_order-Explains w e h =
      let fuel = suc (length w.stages) in
      elim (>>=-eq-err (visit_all fuel w w.stages start) (λ st. ok st.ordered) e h) [
        | inl failed ↦
            visit_all-Explains fuel w w.stages start e
              (of_each (λ s. Among s w.stages) w.stages (λ s m. m)) (start-Inv w) refl (omega arith)
              failed
        | inr (st, ran, last) ↦ cc
      ]

-- ===== src/Workflow/Order.antt =====
-- What `topological_order` of workflows/base.py returns: the local variables of the search satisfy
-- an invariant, which every call of `_visit` keeps.
use segnog.Prelude.{
  ℕ, zero, suc, String, true, false, some, List, [], ◌∷◌, ◌++◌, ◌==◌, ◌≡◌, refl, map, contains,
  discard, length, All, All-append, of_each, Among, Distinct, Distinct-append_one, contains-append,
  contains-append_one, contains-ne, contains_head, contains_tail, discard_head, Bool-cases,
  Option-cases, inl, inr, ◌⊎◌, arith, eq_iff, eq_self,
}
use mathlib.Core.Path.{subst}
use mathlib.Core.List.{map-append, append_assoc, append-nil}
use segnog.Workflow.{
  Stage, Workflow, Result, ok, Visits, find_stage, get_stage, visit_deps, finish, visit, visit_all,
  topological_order, >>=-eq-ok,
}

module _ {V R : Type 0} where
  abbrev pub names : List (Stage V R) → List String
  names = map (λ s. s.name)

  -- Every dependency of a stage is the name of a stage before it, or of one already seen.
  abbrev pub DepsBefore : List String → List (Stage V R) → Type 0
  DepsBefore seen [] = Unit
  DepsBefore seen (s ∷ rest) =
      All (λ d. contains d seen ≡ true) s.depends_on × DepsBefore (seen ++ s.name ∷ []) rest

  pub DepsBefore-append_one :
      (seen : List String) (xs : List (Stage V R)) (s : Stage V R)
      → DepsBefore seen xs
      → All (λ d. contains d (seen ++ names xs) ≡ true) s.depends_on
      → DepsBefore seen (xs ++ s ∷ [])
  DepsBefore-append_one seen [] s h k = (rw (append-nil {A = String}) at k, tt)
  DepsBefore-append_one seen (x ∷ xs) s h k =
      (h.0, DepsBefore-append_one (seen ++ x.name ∷ []) xs s h.1 (rw append_assoc k))

  pub record Inv (w : Workflow V R) (st : Visits V R) : Type 0 where
    pub same_names : names st.ordered ≡ st.visited
    pub distinct : Distinct st.visited
    pub deps_first : DepsBefore [] st.ordered
    pub own : All (λ s. Among s w.stages) st.ordered
    pub apart : (x : String) → contains x st.visiting ≡ true → contains x st.visited ≡ false

  pub record Extends (st st' : Visits V R) : Type 0 where
    pub visiting : st'.visiting ≡ st.visiting
    pub keeps : (x : String) → contains x st.visited ≡ true → contains x st'.visited ≡ true

  pub Extends-refl : (st : Visits V R) → Extends st st
  Extends-refl st = record { visiting = refl; keeps = λ x h. h }

  pub Extends-trans : {a b c : Visits V R} → Extends a b → Extends b c → Extends a c
  Extends-trans p q = record { visiting = ground arith; keeps = λ x h. q.keeps x (p.keeps x h) }

  pub name-find_stage :
      (key : String) (l : List (Stage V R)) (s : Stage V R)
      → find_stage key l ≡ some s
      → s.name ≡ key
  unfolding find_stage
  name-find_stage key [] s h = cc
  name-find_stage key (t ∷ l) s h = ground (arith, eq_iff t.name key, name-find_stage key l s)

  pub find_stage-Among :
      (key : String) (l : List (Stage V R)) (s : Stage V R) → find_stage key l ≡ some s → Among s l
  unfolding find_stage
  find_stage-Among key [] s h = cc
  find_stage-Among key (t ∷ l) s h = elim (Bool-cases (t.name == key)) [
    | inl e ↦ inl (ground arith)
    | inr e ↦ inr (find_stage-Among key l s (ground arith))
  ]

  visit-cases :
      (fuel : ℕ) (w : Workflow V R) (s : Stage V R) (st st' : Visits V R)
      → visit (suc fuel) w s st ≡ ok st'
      → ((contains s.name st.visited ≡ true) × (st ≡ st'))
        ⊎ ((contains s.name st.visited ≡ false)
            × (contains s.name st.visiting ≡ false)
            × ((mid : Visits V R) × (visit_deps
                    (visit fuel w)
                    w
                    s.name
                    s.depends_on
                    (record st { visiting = s.name ∷ st.visiting })
                  ≡ ok mid)
                × (finish s mid ≡ st')))
  unfolding visit
  visit-cases fuel w s st st' h = elim (Bool-cases (contains s.name st.visited)) [
    | inl e ↦ inl (e, ground arith)
    | inr e ↦ elim (Bool-cases (contains s.name st.visiting)) [
      | inl e' ↦ cc (rw (e, e') at h)
      | inr e' ↦
          let (mid, ran, last) = >>=-eq-ok _ _ (rw (e, e') at h) in
          inr (e, e', (mid, ran, ground arith))
    ]
  ]

  visit_deps-cases :
      (go : Stage V R → Visits V R → Result (Visits V R)) (w : Workflow V R) (owner d : String)
      (ds : List String) (st st' : Visits V R)
      → visit_deps go w owner (d ∷ ds) st ≡ ok st'
      → (dep : Stage V R) × (get_stage w d ≡ some dep)
        × ((mid : Visits V R) × (go dep st ≡ ok mid) × (visit_deps go w owner ds mid ≡ ok st'))
  unfolding visit_deps
  visit_deps-cases go w owner d ds st st' h = elim (Option-cases (get_stage w d)) [
    | inl (dep, found) ↦ (dep, found, >>=-eq-ok _ _ (rw (found, visit_deps) at h))
    | inr missing ↦ cc (rw (missing, visit_deps) at h)
  ]

  -- What a successful call of `_visit` on a stage with the name `n` does.
  abbrev pub Visited : Workflow V R → Visits V R → String → Visits V R → Type 0
  Visited w st n st' = Inv w st' × Extends st st' × (contains n st'.visited ≡ true)

  abbrev pub Sound : Workflow V R → (Stage V R → Visits V R → Result (Visits V R)) → Type 0
  Sound w go =
      (s : Stage V R) (st st' : Visits V R)
      → Among s w.stages
      → Inv w st
      → go s st ≡ ok st'
      → Visited w st s.name st'

  visit_deps_lem :
      (go : Stage V R → Visits V R → Result (Visits V R)) (w : Workflow V R) (owner : String)
      → Sound w go
      → (ds : List String) (st st' : Visits V R) → Inv w st
      → visit_deps go w owner ds st ≡ ok st'
      → Inv w st' × Extends st st' × All (λ d. contains d st'.visited ≡ true) ds
  unfolding visit_deps get_stage
  visit_deps_lem go w owner sound [] st st' inv h =
      subst (λ t. Inv w t × Extends st t × Unit {0}) (ground arith) (inv, Extends-refl st, tt)
  visit_deps_lem go w owner sound (d ∷ ds) st st' inv h =
      let (dep, found, (mid, first, rest)) = visit_deps-cases go w owner d ds st st' h in
      let (inv', ext, seen) = sound dep st mid (find_stage-Among d w.stages dep found) inv first in
      let (inv'', ext', seen') = visit_deps_lem go w owner sound ds mid st' inv' rest in
      let name : dep.name ≡ d = name-find_stage d w.stages dep found in
      (inv'', Extends-trans ext ext', (ext'.keeps d (rw name at seen), seen'))

  -- The state in which the loop over the dependencies of `s` starts.
  abbrev pub entered : Stage V R → Visits V R → Visits V R
  entered s st = record st { visiting = s.name ∷ st.visiting }

  pub entered-Inv :
      (w : Workflow V R) (s : Stage V R) (st : Visits V R)
      → contains s.name st.visited ≡ false
      → Inv w st
      → Inv w (entered s st)
  unfolding contains
  entered-Inv w s st new inv = record {
    same_names = inv.same_names;
    distinct = inv.distinct;
    deps_first = inv.deps_first;
    own = inv.own;
    apart = λ x h. ground (arith, inv.apart x, eq_iff x s.name);
  }

  finish-Visited :
      (w : Workflow V R) (s : Stage V R) (st mid : Visits V R)
      → Among s w.stages
      → contains s.name st.visited ≡ false
      → contains s.name st.visiting ≡ false
      → Inv w mid
        × Extends (entered s st) mid
        × All (λ d. contains d mid.visited ≡ true) s.depends_on
      → Visited w st s.name (finish s mid)
  unfolding finish
  finish-Visited w s st mid m new free (inv, ext, deps) = (
    record {
      same_names = rw (map-append, inv.same_names);
      distinct = Distinct-append_one mid.visited s.name absent inv.distinct;
      deps_first = DepsBefore-append_one [] mid.ordered s inv.deps_first (rw inv.same_names deps);
      own = All-append (λ t. Among t w.stages) mid.ordered (s ∷ []) inv.own (m, tt);
      apart = λ x h.
          let old = rw restored at h in
          rw (contains-append_one, contains-ne s.name x st.visiting free old)
            (inv.apart x (rw ext.visiting (contains_tail x s.name st.visiting old)));
    },
    record { visiting = restored; keeps = λ x h. rw (contains-append, ext.keeps x h) },
    rw (contains-append_one, eq_self),
  )
    where
      absent : contains s.name mid.visited ≡ false
      absent = inv.apart s.name (rw ext.visiting (contains_head s.name st.visiting))

      restored : discard s.name mid.visiting ≡ st.visiting
      restored = rw ext.visiting (discard_head s.name st.visiting free)

  pub visit_lem : (fuel : ℕ) (w : Workflow V R) → Sound w (visit fuel w)
  visit_lem zero w s st st' m inv h = unfold visit in cc h
  visit_lem (suc fuel) w s st st' m inv h = elim (visit-cases fuel w s st st' h) [
    | inl (old, same) ↦ subst (λ t. Visited w st s.name t) same (inv, Extends-refl st, old)
    | inr (new, free, (mid, ran, last)) ↦
        subst (λ t. Visited w st s.name t) last
          (finish-Visited w s st mid m new free (
            visit_deps_lem (visit fuel w) w s.name (visit_lem fuel w) s.depends_on (entered s st)
              mid (entered-Inv w s st new inv) ran))
  ]

  visit_all_lem :
      (fuel : ℕ) (w : Workflow V R) (l : List (Stage V R)) (st st' : Visits V R)
      → All (λ s. Among s w.stages) l
      → Inv w st
      → visit_all fuel w l st ≡ ok st'
      → Inv w st' × Extends st st' × All (λ s. contains s.name st'.visited ≡ true) l
  unfolding visit_all
  visit_all_lem fuel w [] st st' own inv h =
      subst (λ t. Inv w t × Extends st t × Unit {0}) (ground arith) (inv, Extends-refl st, tt)
  visit_all_lem fuel w (s ∷ l) st st' own inv h =
      let (mid, first, rest) = >>=-eq-ok _ _ h in
      let (inv', ext, seen) = visit_lem fuel w s st mid own.0 inv first in
      let (inv'', ext', seen') = visit_all_lem fuel w l mid st' own.1 inv' rest in
      (inv'', Extends-trans ext ext', (ext'.keeps s.name seen, seen'))

  abbrev pub start : Visits V R
  start = record { ordered = []; visited = []; visiting = [] }

  pub start-Inv : (w : Workflow V R) → Inv w start
  unfolding contains
  start-Inv w = record {
    same_names = refl;
    distinct = tt;
    deps_first = tt;
    own = tt;
    apart = λ x h. refl;
  }

  -- An order that is returned lists stages of the workflow, each name once, the name of every
  -- stage of the workflow among them, and every stage behind the stages that it depends on.
  pub topological_order_lem :
      (w : Workflow V R) (l : List (Stage V R))
      → topological_order w ≡ ok l
      → Distinct (names l)
        × DepsBefore [] l
        × All (λ s. Among s w.stages) l
        × All (λ s. contains s.name (names l) ≡ true) w.stages
  unfolding topological_order
  topological_order_lem w l h =
      let fuel = suc (length w.stages) in
      let (st, run, last) = >>=-eq-ok (λ st. ok st.ordered) (visit_all fuel w w.stages start) h in
      let own = of_each (λ s. Among s w.stages) w.stages (λ s m. m) in
      let (inv, ext, seen) = visit_all_lem fuel w w.stages start st own (start-Inv w) run in
      let same : st.ordered ≡ l = ground arith in
      subst
        (λ t.
          Distinct (names t)
          × DepsBefore [] t
          × All (λ s. Among s w.stages) t
          × All (λ s. contains s.name (names t) ≡ true) w.stages)
        same (rw inv.same_names (inv.distinct, inv.deps_first, inv.own, seen))

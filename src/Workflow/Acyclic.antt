-- ===== src/Workflow/Acyclic.antt =====
-- `topological_order` of workflows/base.py decides whether a workflow is a graph without cycles.
use segnog.Prelude.{
  ℕ, suc, ◌<◌, String, true, false, none, List, [], ◌∷◌, ◌++◌, ◌≡◌, refl, sym, ◌≢◌, ◌∙◌, ◌↔◌,
  contains, contains-append, Among, All, All-Among, All-contains, Distinct, length, Bool-cases, inl,
  inr, arith, eq_iff, if◌then◌else◌, ◌==◌, ◌⊎◌,
}
use mathlib.Core.Path.{ap}
use mathlib.Core.Bool.{false≢true}
use native.Mathlib.Nat.{lt_irrefl}
use mathlib.Core.List.{append_assoc}
use segnog.Workflow.{
  Stage, Workflow, Error, cycle, unknown_dependency, no_fuel, Result, ok, err, get_stage,
  find_stage, topological_order,
}
use segnog.Workflow.Order.{DepsBefore, names, topological_order_lem}
use segnog.Workflow.Errors.{Reaches, direct, through, Explains, topological_order-Explains}

-- The place of a name in a list.
index : String → List String → ℕ
index x [] = 0
index x (y ∷ ys) = if x == y then 0 else suc (index x ys)

index-lt :
    (x : String) (xs ys : List String) → contains x xs ≡ true → index x (xs ++ ys) < length xs
unfolding index contains
index-lt x [] ys h = cc
index-lt x (y ∷ xs) ys h = ground (arith, index-lt x xs ys)

contains_of_index :
    (x y : String) (xs : List String) → index x xs < index y xs → contains x xs ≡ true
unfolding index contains
contains_of_index x y [] h = absurd (omega arith)
contains_of_index x y (z ∷ xs) h = ground (arith, contains_of_index x y xs)

index-append :
    (x : String) (xs ys : List String) → contains x xs ≡ false → index x (xs ++ x ∷ ys) ≡ length xs
unfolding index contains
index-append x [] ys h = ground (arith, eq_iff x x)
index-append x (y ∷ xs) ys h = ground (arith, index-append x xs ys)

Distinct-append-absent :
    (xs : List String) (x : String) (ys : List String)
    → Distinct (xs ++ x ∷ ys)
    → contains x xs ≡ false
unfolding contains
Distinct-append-absent [] x ys d = refl
Distinct-append-absent (y ∷ xs) x ys d = ground (
  arith,
  Distinct-append-absent xs x ys d.1,
  contains-append y xs (x ∷ ys),
  eq_iff x y,
  eq_iff y x,
)

module _ {V R : Type 0} where
  -- In an ordered list the dependencies of a stage have smaller places than the stage.
  DepsBefore-index :
      (seen : List String) (l : List (Stage V R)) (s : Stage V R) (d : String)
      → Distinct (seen ++ names l)
      → DepsBefore seen l
      → Among s l
      → contains d s.depends_on ≡ true
      → index d (seen ++ names l) < index s.name (seen ++ names l)
  DepsBefore-index seen [] s d dis deps m h = absurd m
  DepsBefore-index seen (t ∷ l) s d dis deps (inl e) h =
      let before =
        index-lt d seen (t.name ∷ names l)
          (All-contains (λ x. contains x seen ≡ true) t.depends_on d deps.0 (rw e at h)) in
      let place =
        index-append t.name seen (names l) (Distinct-append-absent seen t.name (names l) dis) in
      rw e (omega (arith, before, place))
  DepsBefore-index seen (t ∷ l) s d dis deps (inr m) h =
      rw (append_assoc seen (t.name ∷ []) (names l)) at
        (DepsBefore-index (seen ++ t.name ∷ []) l s d (rw append_assoc dis) deps.1 m h)

  names-Among :
      (l : List (Stage V R)) (n : String)
      → contains n (names l) ≡ true
      → (t : Stage V R) × Among t l × (t.name ≡ n)
  unfolding contains
  names-Among [] n h = cc
  names-Among (s ∷ l) n h = elim (Bool-cases (n == s.name)) [
    | inl e ↦ (s, inl refl, ground (arith, eq_iff n s.name))
    | inr e ↦ let (t, m, q) = names-Among l n (ground arith) in (t, inr m, q)
  ]

  Among-names :
      (l : List (Stage V R)) (s : Stage V R) → Among s l → contains s.name (names l) ≡ true
  unfolding contains
  Among-names [] s m = absurd m
  Among-names (t ∷ l) s (inl e) = ground (arith, eq_iff s.name t.name)
  Among-names (t ∷ l) s (inr m) = ground (arith, Among-names l s m)

  Distinct-unique :
      (l : List (Stage V R)) (s t : Stage V R)
      → Distinct (names l)
      → Among s l
      → Among t l
      → s.name ≡ t.name
      → s ≡ t
  Distinct-unique [] s t d m k e = absurd m
  Distinct-unique (x ∷ l) s t d (inl p) (inl q) e = p ∙ sym q
  Distinct-unique (x ∷ l) s t d (inl p) (inr k) e =
      absurd
        (false≢true (sym d.0 ∙ rw (sym (ap (λ (u : Stage V R). u.name) p) ∙ e) (Among-names l t k)))
  Distinct-unique (x ∷ l) s t d (inr m) (inl q) e = absurd (
      false≢true
        (sym d.0 ∙ rw (sym (ap (λ (u : Stage V R). u.name) q) ∙ sym e) (Among-names l s m)))
  Distinct-unique (x ∷ l) s t d (inr m) (inr k) e = Distinct-unique l s t d.1 m k e

  -- A stage's dependencies are names of stages.
  abbrev pub DependenciesKnown : Workflow V R → Type 0
  DependenciesKnown w =
      (s : Stage V R) (d : String)
      → Among s w.stages
      → contains d s.depends_on ≡ true
      → get_stage w d ≢ none

  abbrev pub IsAcyclic : Workflow V R → Type 0
  IsAcyclic w = (n : String) → ¬ Reaches w n n

  Reaches-index :
      (w : Workflow V R) (l : List (Stage V R)) {a b : String}
      → Distinct (names w.stages)
      → Distinct (names l)
      → DepsBefore [] l
      → All (λ s. Among s w.stages) l
      → All (λ s. contains s.name (names l) ≡ true) w.stages
      → Reaches w a b
      → index b (names l) < index a (names l)
  Reaches-index w l one dis deps own all (direct s m e h) =
      let (t, k, q) =
        names-Among l s.name (All-Among (λ u. contains u.name (names l) ≡ true) w.stages s all m) in
      let t_own = All-Among (λ u. Among u w.stages) l t own k in
      let same : t ≡ s = Distinct-unique w.stages t s one t_own m q in
      rw (← e) (DepsBefore-index [] l s _ dis deps (rw same at k) h)
  Reaches-index w l one dis deps own all (through p q) =
      omega
        (arith, Reaches-index w l one dis deps own all p, Reaches-index w l one dis deps own all q)

  find_stage-ne-none :
      (n : String) (l : List (Stage V R)) → contains n (names l) ≡ true → find_stage n l ≢ none
  unfolding find_stage contains
  find_stage-ne-none n [] m h = cc
  find_stage-ne-none n (s ∷ l) m h =
      ground (arith, eq_iff n s.name, eq_iff s.name n, find_stage-ne-none n l)

  order-DependenciesKnown :
      (w : Workflow V R) (l : List (Stage V R))
      → Distinct (names w.stages)
      → Distinct (names l)
      → DepsBefore [] l
      → All (λ s. Among s w.stages) l
      → All (λ s. contains s.name (names l) ≡ true) w.stages
      → DependenciesKnown w
  unfolding get_stage
  order-DependenciesKnown w l one dis deps own all s d m h missing =
      let lower = Reaches-index w l one dis deps own all (direct s m refl h) in
      let (t, k, q) = names-Among l d (contains_of_index d s.name (names l) lower) in
      let t_own = All-Among (λ u. Among u w.stages) l t own k in
      find_stage-ne-none d w.stages (rw q at (Among-names w.stages t t_own)) missing

  Result-cases :
      (r : Result (List (Stage V R)))
      → ((l : List (Stage V R)) × (r ≡ ok l)) ⊎ ((e : Error) × (r ≡ err e))
  Result-cases (ok l) = inl (l, refl)
  Result-cases (err e) = inr (e, refl)

  not_error : (w : Workflow V R) → DependenciesKnown w → IsAcyclic w → (e : Error) → ¬ Explains w e
  not_error w known acyclic (cycle n) x = acyclic n x
  not_error w known acyclic (unknown_dependency owner d) (s, m, q, h, missing) =
      known s d m h missing
  not_error w known acyclic no_fuel x = x

  -- If the stages' names are distinct, then an order is returned exactly when every dependency is
  -- the name of a stage and no stage depends on itself, directly or through others.
  pub topological_order_iff :
      (w : Workflow V R)
      → Distinct (names w.stages)
      → ((l : List (Stage V R)) × (topological_order w ≡ ok l))
        ↔ (DependenciesKnown w × IsAcyclic w)
  topological_order_iff w one = (
    λ (l, h).
        let (dis, deps, own, all) = topological_order_lem w l h in
        (
          order-DependenciesKnown w l one dis deps own all,
          λ n r. absurd (lt_irrefl _ (Reaches-index w l one dis deps own all r)),
        ),
    λ (known, acyclic). elim (Result-cases (topological_order w)) [
      | inl found ↦ found
      | inr (e, h) ↦ absurd (not_error w known acyclic e (topological_order-Explains w e h))
    ],
  )

-- ===== src/Ontology/Excluded.antt =====
-- `_is_excluded` of ontology/schema_org.py asks whether an excluded family is among the ancestors.
use segnog.Prelude.{
  ℕ, zero, suc, ◌+◌, ◌<◌, String, Bool, true, false, some, List, [], ◌∷◌, ◌≡◌, refl, inl, inr, sym,
  ◌||◌, Dict, contains, contains-cons, contains_head, not_contains_nil, length, Bool-cases, arith,
  eq_iff,
}
use segnog.Ontology.{
  ClassInfo, Ontology, parents_of, links, extend, excluded_loop, or_false, is_excluded, any_in,
  ancestors,
}
use segnog.Ontology.Tables.{excluded_parents}
use segnog.Ontology.Hierarchy.{
  Up, weight, weight-le-links, Grows, weight-Grows, Search, Search-start, Search-skip, Search-visit,
  Search-done, ancestors_lem,
}

contains-extend :
    (x : String) (ps stack : List String)
    → contains x (extend ps stack) ≡ (contains x stack || contains x ps)
unfolding extend contains
contains-extend x [] stack = ground arith
contains-extend x (p ∷ ps) stack = ground (arith, contains-extend x ps (p ∷ stack))

length-extend : (ps stack : List String) → length (extend ps stack) ≡ length stack + length ps
unfolding extend
length-extend [] stack = omega arith
length-extend (p ∷ ps) stack = omega (arith, length-extend ps (p ∷ stack))

pub contains-any_in :
    (x : String) (names ds : List String)
    → contains x names ≡ true
    → contains x ds ≡ true
    → any_in names ds ≡ true
unfolding any_in contains
contains-any_in x names [] h k = cc
contains-any_in x names (d ∷ ds) h k = ground (arith, contains-any_in x names ds, eq_iff x d)

pub any_in_witness :
    (names ds : List String)
    → any_in names ds ≡ true
    → (x : String) × (contains x names ≡ true) × (contains x ds ≡ true)
unfolding any_in contains
any_in_witness names [] h = cc
any_in_witness names (d ∷ ds) h = elim (Bool-cases (contains d names)) [
  | inl e ↦ (d, e, ground (arith, eq_iff d d))
  | inr e ↦ let (x, p, q) = any_in_witness names ds (ground arith) in (x, p, ground arith)
]

-- What an answer of the search says.
abbrev Answer : Dict ClassInfo → String → Bool → Type 0
Answer classes a true = (x : String) × Up classes a x × (contains x excluded_parents ≡ true)
Answer classes a false = (x : String) → Up classes a x → contains x excluded_parents ≡ false

module _ {classes : Dict ClassInfo} {a : String} where
  excluded_loop_lem :
      (fuel : ℕ) (stack visited : List String)
      → Search classes a stack visited
      → ((x : String) → contains x visited ≡ true → contains x excluded_parents ≡ false)
      → length stack + weight classes visited < fuel
      → (b : Bool) × (excluded_loop fuel classes stack visited ≡ some b) × Answer classes a b
  unfolding excluded_loop
  excluded_loop_lem zero stack visited s ok room = absurd (omega arith)
  excluded_loop_lem (suc fuel) [] visited s ok room =
      (false, refl, λ x u. ok x ((Search-done visited s x).1 u))
  excluded_loop_lem (suc fuel) (c ∷ stack) visited s ok room =
      elim (Bool-cases (contains c visited)) [
        | inl old ↦ rw old (
            excluded_loop_lem fuel stack visited (Search-skip c stack visited old s) ok
              (omega arith))
        | inr new ↦ elim (Bool-cases (contains c excluded_parents)) [
          | inl out ↦ (true, rw (new, out), (c, s.waiting c (contains_head c stack), out))
          | inr fine ↦
              let g : Grows c visited (c ∷ visited) = record {
                member = λ x. contains-cons x c visited;
              } in
              rw (new, fine)
                (excluded_loop_lem fuel (extend (parents_of classes c) stack) (c ∷ visited)
                  (Search-visit c stack _ visited _ g
                    (λ x. contains-extend x (parents_of classes c) stack) s)
                  (λ x h. ground (arith, contains-cons x c visited, ok x, eq_iff x c))
                  (omega (
                    arith,
                    weight-Grows classes c visited (c ∷ visited) new g,
                    length-extend (parents_of classes c) stack,
                  )))
        ]
      ]

Answer-any_in :
    (o : Ontology) (a : String) (b : Bool)
    → Answer o.classes a b
    → b ≡ any_in (ancestors o a) excluded_parents
Answer-any_in o a true (x, u, h) =
    sym (contains-any_in x (ancestors o a) excluded_parents (((ancestors_lem o a).1 x).1 u) h)
Answer-any_in o a false none_out = elim (Bool-cases (any_in (ancestors o a) excluded_parents)) [
  | inr fine ↦ sym fine
  | inl hit ↦
      let (x, p, q) = any_in_witness (ancestors o a) excluded_parents hit in
      cc (none_out x (((ancestors_lem o a).1 x).0 p), q)
]

-- The depth-first search for an excluded family ends, and answers whether one of the excluded
-- names is among the class's ancestors.
pub is_excluded-any_in :
    (o : Ontology) (a : String) → is_excluded o a ≡ any_in (ancestors o a) excluded_parents
is_excluded-any_in o a =
    let (b, ran, answer) =
      excluded_loop_lem {classes = o.classes} {a = a} (suc (suc (links o.classes))) (a ∷ []) []
        Search-start (λ x h. absurd (not_contains_nil x h))
        (omega (arith, weight-le-links o.classes [])) in
    unfold is_excluded in rw (ran, or_false) (Answer-any_in o a b answer)

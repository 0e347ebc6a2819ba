-- ===== src/Ontology/Hierarchy.antt =====
-- `ancestors` of ontology/schema_org.py is the reflexive and transitive closure of the parents.
use segnog.Prelude.{
  ℕ, zero, suc, ◌+◌, ◌≤◌, ◌<◌, String, true, false, some, List, [], ◌∷◌, ◌++◌, ◌≡◌, refl, inl, inr,
  ◌↔◌, ◌==◌, ◌||◌, Dict, contains, contains-append, contains-append_one, contains_head,
  contains-cons, not_contains_nil, length, length-append, Distinct, Distinct-append_one, Bool-cases,
  arith, eq_iff, if◌then◌else◌,
}
use mathlib.Core.Path.{subst}
use segnog.Ontology.{ClassInfo, Ontology, parents_of, links, ancestors_loop, ancestors, or_empty}

-- `b` is reached from `a` by links to parents.
pub data Up (classes : Dict ClassInfo) (a : String) : String → Type 0 where
  here : Up classes a a
  parent :
      {b c : String} → Up classes a b → contains c (parents_of classes b) ≡ true → Up classes a c

-- The links of the classes that have not been visited.
pub weight : Dict ClassInfo → List String → ℕ
weight [] visited = 0
weight ((j, info) ∷ rest) visited =
    let w = weight rest visited in if contains j visited then w else length info.parents + w

pub weight-le-links :
    (classes : Dict ClassInfo) (visited : List String) → weight classes visited ≤ links classes
unfolding weight links
weight-le-links [] visited = omega arith
weight-le-links ((j, info) ∷ rest) visited = ground (arith, weight-le-links rest visited)

-- `after` has the members of `before`, and `c`.
pub record Grows (c : String) (before after : List String) : Type 0 where
  pub member : (x : String) → contains x after ≡ (x == c || contains x before)

pub weight-Grows-le :
    (classes : Dict ClassInfo) (c : String) (before after : List String)
    → Grows c before after
    → weight classes after ≤ weight classes before
unfolding weight
weight-Grows-le [] c before after g = omega arith
weight-Grows-le ((j, info) ∷ rest) c before after g =
    ground (arith, weight-Grows-le rest c before after g, g.member j)

-- A visit of `c` takes the links of `c` from the weight.
pub weight-Grows :
    (classes : Dict ClassInfo) (c : String) (before after : List String)
    → contains c before ≡ false
    → Grows c before after
    → weight classes after + length (parents_of classes c) ≤ weight classes before
unfolding weight parents_of
weight-Grows [] c before after new g = omega arith
weight-Grows ((j, info) ∷ rest) c before after new g = elim (Bool-cases (c == j)) [
  | inl e ↦
      ground (arith, weight-Grows-le rest c before after g, g.member j, eq_iff c j, eq_iff j c)
  | inr e ↦
      ground (arith, weight-Grows rest c before after new g, g.member j, eq_iff c j, eq_iff j c)
]

-- The state of a search for what `a` reaches, whatever the order in which the queue is taken.
pub record Search (classes : Dict ClassInfo) (a : String) (queue visited : List String)
    : Type 0 where
  pub waiting : (x : String) → contains x queue ≡ true → Up classes a x
  pub reached : (x : String) → contains x visited ≡ true → Up classes a x
  pub closed :
      (x p : String)
      → contains x visited ≡ true
      → contains p (parents_of classes x) ≡ true
      → contains p visited || contains p queue ≡ true
  pub begun : contains a visited || contains a queue ≡ true

module _ {classes : Dict ClassInfo} {a : String} where
  pub Search-start : Search classes a (a ∷ []) []
  unfolding contains
  Search-start = record {
    waiting = λ x h. subst (Up classes a) (ground (arith, eq_iff x a)) here;
    reached = λ x h. cc;
    closed = λ x p h k. cc;
    begun = ground (arith, eq_iff a a);
  }

  pub Search-skip :
      (c : String) (queue visited : List String)
      → contains c visited ≡ true
      → Search classes a (c ∷ queue) visited
      → Search classes a queue visited
  unfolding contains
  Search-skip c queue visited old s = record {
    waiting = λ x h. s.waiting x (ground arith);
    reached = s.reached;
    closed = λ x p h k. ground (arith, s.closed x p h k, eq_iff p c);
    begun = ground (arith, s.begun, eq_iff a c);
  }

  pub Search-visit :
      (c : String) (queue queue' visited visited' : List String)
      → Grows c visited visited'
      → ((x : String) → contains x queue' ≡ (contains x queue || contains x (parents_of classes c)))
      → Search classes a (c ∷ queue) visited
      → Search classes a queue' visited'
  Search-visit c queue queue' visited visited' g q s =
      let found : Up classes a c = s.waiting c (contains_head c queue) in
      record {
        waiting = λ x h. elim (Bool-cases (contains x queue)) [
          | inl old ↦ s.waiting x (ground (arith, contains-cons x c queue))
          | inr new ↦ parent found (ground (arith, q x))
        ];
        reached = λ x h. elim (Bool-cases (x == c)) [
          | inl e ↦ subst (Up classes a) (ground (arith, eq_iff x c)) found
          | inr e ↦ s.reached x (ground (arith, g.member x))
        ];
        closed = λ x p h k. elim (Bool-cases (x == c)) [
          | inl e ↦
              let k' : contains p (parents_of classes c) ≡ true = rw ((eq_iff x c).0 e) at k in
              ground (arith, q p, g.member p)
          | inr e ↦
              let h' : contains x visited ≡ true = ground (arith, g.member x) in
              ground (arith, q p, g.member p, s.closed x p h' k, contains-cons p c queue)
        ];
        begun = ground (arith, q a, g.member a, s.begun, contains-cons a c queue);
      }

  pub Search-done :
      (visited : List String)
      → Search classes a [] visited
      → (b : String) → (contains b visited ≡ true) ↔ Up classes a b
  Search-done visited s b = (s.reached b, λ u. found u)
    where
      found : {x : String} → Up classes a x → contains x visited ≡ true
      found here = ground (arith, s.begun, not_contains_nil a)
      found (parent {b = y} {c = x} u k) =
          ground (arith, s.closed y x (found u) k, not_contains_nil x)

  -- The breadth-first loop ends, and its result is the closure, without repetition.
  pub ancestors_loop_lem :
      (fuel : ℕ) (queue result : List String)
      → Search classes a queue result
      → Distinct result
      → length queue + weight classes result < fuel
      → (l : List String) × (ancestors_loop fuel classes queue result ≡ some l)
        × Distinct l
        × ((b : String) → (contains b l ≡ true) ↔ Up classes a b)
  unfolding ancestors_loop
  ancestors_loop_lem zero queue result s d room = absurd (omega arith)
  ancestors_loop_lem (suc fuel) [] result s d room = (result, refl, d, Search-done result s)
  ancestors_loop_lem (suc fuel) (c ∷ queue) result s d room =
      elim (Bool-cases (contains c result)) [
        | inl old ↦ rw old (
            ancestors_loop_lem fuel queue result (Search-skip c queue result old s) d (omega arith))
        | inr new ↦
            let g : Grows c result (result ++ c ∷ []) = record {
              member = λ x. contains-append_one x c result;
            } in
            rw new (
              ancestors_loop_lem fuel (queue ++ parents_of classes c) (result ++ c ∷ [])
                (Search-visit c queue _ result _ g
                  (λ x. contains-append x queue (parents_of classes c)) s)
                (Distinct-append_one result c new d)
                (omega (
                  arith,
                  weight-Grows classes c result (result ++ c ∷ []) new g,
                  length-append queue (parents_of classes c),
                )))
      ]

-- The ancestors of a class are the class and all that it reaches by links to parents, each once.
pub ancestors_lem :
    (o : Ontology) (a : String)
    → Distinct (ancestors o a)
      × ((b : String) → (contains b (ancestors o a) ≡ true) ↔ Up o.classes a b)
ancestors_lem o a =
    let (l, ran, d, members) =
      ancestors_loop_lem {classes = o.classes} {a = a} (suc (suc (links o.classes))) (a ∷ []) []
        Search-start tt (omega (arith, weight-le-links o.classes [])) in
    unfold ancestors in rw (ran, or_empty) (d, members)

-- ===== src/Workflow.antt =====
-- workflows/base.py: stages, workflows and the depth-first order of a workflow's stages
-- (src/memory_service/workflows/base.py). A stage's handler is a parameter: what it returns for a
-- payload, and after how long. The proofs are in the modules below.
pub mod Order
pub mod Errors
pub mod Acyclic
use segnog.Prelude.{
  ℕ, zero, suc, String, Bool, true, false, Option, none, some, List, [], ◌∷◌, ◌++◌, ◌==◌, contains,
  discard, length, if◌then◌else◌, not, ◌≡◌, refl, ◌⊎◌, inl, inr,
}

-- `V` is the type of payloads, `R` that of a handler's outcome.
pub record Stage (V R : Type 0) : Type 0 where
  pub name : String
  pub handler : V → R
  pub sync : Bool
  pub depends_on : List String
  pub timeout : ℕ

pub record Workflow (V R : Type 0) : Type 0 where
  pub name : String
  pub stages : List (Stage V R)

-- `ValueError` with its two messages; `no_fuel` is the model's own and is shown never to occur.
pub data Error : Type 0 where
  cycle : String → Error
  unknown_dependency : String → String → Error
  no_fuel : Error

pub data Result (A : Type 0) : Type 0 where
  ok : A → Result A
  err : Error → Result A

infixl 5 ◌>>=◌
abbrev pub ◌>>=◌ : {A B : Type 0} → Result A → (A → Result B) → Result B
ok a >>= f = f a
err e >>= f = err e

-- A bind succeeds through a result of its first part.
pub >>=-eq-ok :
    {A B : Type 0} (next : A → Result B) (r : Result A) {out : B}
    → (r >>= next) ≡ ok out
    → (mid : A) × (r ≡ ok mid) × (next mid ≡ ok out)
>>=-eq-ok next (err e) q = cc
>>=-eq-ok next (ok mid) q = (mid, refl, q)

-- A bind fails in its first part, or in its second.
pub >>=-eq-err :
    {A B : Type 0} (m : Result A) (f : A → Result B) (e : Error)
    → (m >>= f) ≡ err e
    → (m ≡ err e) ⊎ ((a : A) × (m ≡ ok a) × (f a ≡ err e))
>>=-eq-err (ok a) f e h = inr (a, refl, h)
>>=-eq-err (err e') f e h = inl (cc)

-- The three local variables that `_visit` mutates.
pub record Visits (V R : Type 0) : Type 0 where
  pub ordered : List (Stage V R)
  pub visited : List String
  pub visiting : List String

module _ {V R : Type 0} where
  unfoldable pub find_stage : String → List (Stage V R) → Option (Stage V R)
  find_stage key [] = none
  find_stage key (s ∷ rest) = if s.name == key then some s else find_stage key rest

  unfoldable pub get_stage : Workflow V R → String → Option (Stage V R)
  unfolding find_stage
  get_stage w key = find_stage key w.stages

  unfoldable pub sync_stages : List (Stage V R) → List (Stage V R)
  sync_stages [] = []
  sync_stages (s ∷ rest) = let kept = sync_stages rest in if s.sync then s ∷ kept else kept

  unfoldable pub async_stages : List (Stage V R) → List (Stage V R)
  async_stages [] = []
  async_stages (s ∷ rest) = let kept = async_stages rest in if not s.sync then s ∷ kept else kept

  -- The loop over `stage.depends_on`; `go` is the recursive call of `_visit`.
  pub visit_deps :
      (Stage V R → Visits V R → Result (Visits V R))
      → Workflow V R
      → String
      → List String
      → Visits V R
      → Result (Visits V R)
  visit_deps go w owner [] st = ok st
  visit_deps go w owner (d ∷ ds) st = elim (get_stage w d) [
    | none ↦ err (unknown_dependency owner d)
    | some dep ↦ go dep st >>= λ st'. visit_deps go w owner ds st'
  ]

  -- `visiting.discard`, `visited.add` and `ordered.append` after the dependencies.
  pub finish : Stage V R → Visits V R → Visits V R
  finish s st = record {
    ordered = st.ordered ++ s ∷ [];
    visited = st.visited ++ s.name ∷ [];
    visiting = discard s.name st.visiting;
  }

  pub visit : ℕ → Workflow V R → Stage V R → Visits V R → Result (Visits V R)
  visit zero w s st = err no_fuel
  visit (suc fuel) w s st =
      let deps =
        visit_deps (visit fuel w) w s.name s.depends_on
          (record st { visiting = s.name ∷ st.visiting }) in
      if contains s.name st.visited
      then ok st
      else if contains s.name st.visiting
      then err (cycle s.name)
      else (deps >>= λ st'. ok (finish s st'))

  pub visit_all : ℕ → Workflow V R → List (Stage V R) → Visits V R → Result (Visits V R)
  visit_all fuel w [] st = ok st
  visit_all fuel w (s ∷ rest) st = visit fuel w s st >>= λ st'. visit_all fuel w rest st'

  -- The nesting of `_visit` is bounded by the number of stages.
  unfoldable pub topological_order : Workflow V R → Result (List (Stage V R))
  unfolding visit_all visit visit_deps finish get_stage contains discard
  topological_order w =
      visit_all (suc (length w.stages)) w w.stages
        (record { ordered = []; visited = []; visiting = [] })
      >>= λ st. ok st.ordered

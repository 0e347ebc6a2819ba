-- ===== src/Prelude/Sorting.antt =====
-- Sorting and filtering: Python's `list.sort` is stable, and so is a stable sort by a query's ORDER
-- BY, whose ties have no order of their own.
use Prim.Native.Nat.{ℕ, zero, suc, ◌≤◌}
use mathlib.Core.Path.{◌≡◌, refl}
use mathlib.Core.Logic.{inl, inr}
use mathlib.Core.Bool.{Bool, true, false, ◌||◌}
use Prim.Native.String.{String}
use text.Mathlib.Text.{◌==◌}
use text.Mathlib.TextEquality.{eq_iff}
use mathlib.Core.List.{List, [], ◌∷◌}
use native.Mathlib.Omega.{arith}
use segnog.Prelude.Tests.{if◌then◌else◌, Bool-cases}
use segnog.Prelude.Lists.{length, take, All, contains, Distinct}
use segnog.Prelude.Dicts.{Dict, keys}

module _ {A : Type 0} where
  -- `[x for x in xs if p(x)]`
  unfoldable pub keep_if : (A → Bool) → List A → List A
  keep_if p [] = []
  keep_if p (x ∷ xs) = let rest = keep_if p xs in if p x then x ∷ rest else rest

  -- `before y x`: the entry `y`, which comes later, has to go before `x`.
  unfoldable pub place : (A → A → Bool) → A → List A → List A
  place before x [] = x ∷ []
  place before x (y ∷ ys) =
      let later = place before x ys in if before y x then y ∷ later else x ∷ y ∷ ys

  unfoldable pub sort_by : (A → A → Bool) → List A → List A
  unfolding place
  sort_by before [] = []
  sort_by before (x ∷ xs) = place before x (sort_by before xs)

  pub All-keep_if : (P : A → Type 0) (p : A → Bool) (xs : List A) → All P xs → All P (keep_if p xs)
  unfolding keep_if
  All-keep_if P p [] h = tt
  All-keep_if P p (x ∷ xs) h = elim (Bool-cases (p x)) [
    | inl e ↦ rw e (h.0, All-keep_if P p xs h.1)
    | inr e ↦ rw e (All-keep_if P p xs h.1)
  ]

  -- What the test says holds of all that is kept.
  pub keep_if_lem : (p : A → Bool) (xs : List A) → All (λ x. p x ≡ true) (keep_if p xs)
  unfolding keep_if
  keep_if_lem p [] = tt
  keep_if_lem p (x ∷ xs) = elim (Bool-cases (p x)) [
    | inl e ↦ rw e (e, keep_if_lem p xs)
    | inr e ↦ rw e (keep_if_lem p xs)
  ]

  pub length-keep_if-le : (p : A → Bool) (xs : List A) → length (keep_if p xs) ≤ length xs
  unfolding keep_if
  length-keep_if-le p [] = omega arith
  length-keep_if-le p (x ∷ xs) = ground (arith, length-keep_if-le p xs)

  All-place :
      (P : A → Type 0) (before : A → A → Bool) (x : A) (xs : List A)
      → P x
      → All P xs
      → All P (place before x xs)
  unfolding place
  All-place P before x [] p h = (p, tt)
  All-place P before x (y ∷ ys) p h = elim (Bool-cases (before y x)) [
    | inl e ↦ rw e (h.0, All-place P before x ys p h.1)
    | inr e ↦ rw e (p, h)
  ]

  pub All-sort_by :
      (P : A → Type 0) (before : A → A → Bool) (xs : List A) → All P xs → All P (sort_by before xs)
  unfolding sort_by
  All-sort_by P before [] h = tt
  All-sort_by P before (x ∷ xs) h =
      All-place P before x (sort_by before xs) h.0 (All-sort_by P before xs h.1)

  length-place :
      (before : A → A → Bool) (x : A) (xs : List A) → length (place before x xs) ≡ suc (length xs)
  unfolding place
  length-place before x [] = refl
  length-place before x (y ∷ ys) = ground (arith, length-place before x ys)

  pub length-sort_by :
      (before : A → A → Bool) (xs : List A) → length (sort_by before xs) ≡ length xs
  unfolding sort_by
  length-sort_by before [] = refl
  length-sort_by before (x ∷ xs) =
      ground (arith, length-place before x (sort_by before xs), length-sort_by before xs)

  pub All-take : (P : A → Type 0) (n : ℕ) (xs : List A) → All P xs → All P (take n xs)
  All-take P zero xs h = tt
  All-take P (suc n) [] h = tt
  All-take P (suc n) (x ∷ xs) h = (h.0, All-take P n xs h.1)

-- Entries with distinct keys are still so when they are filtered, sorted or cut.
module _ {V : Type 0} where
  contains-keep_if :
      (k : String) (p : String × V → Bool) (d : Dict V)
      → contains k (keys d) ≡ false
      → contains k (keys (keep_if p d)) ≡ false
  unfolding contains keep_if
  contains-keep_if k p [] h = refl
  contains-keep_if k p (e ∷ d) h = ground (arith, contains-keep_if k p d)

  pub Distinct-keep_if :
      (p : String × V → Bool) (d : Dict V) → Distinct (keys d) → Distinct (keys (keep_if p d))
  unfolding keep_if
  Distinct-keep_if p [] h = tt
  Distinct-keep_if p (e ∷ d) h = elim (Bool-cases (p e)) [
    | inl t ↦ rw t (contains-keep_if e.0 p d h.0, Distinct-keep_if p d h.1)
    | inr f ↦ rw f (Distinct-keep_if p d h.1)
  ]

  contains-place :
      (k : String) (before : String × V → String × V → Bool) (e : String × V) (d : Dict V)
      → contains k (keys (place before e d)) ≡ (k == e.0 || contains k (keys d))
  unfolding contains place
  contains-place k before e [] = refl
  contains-place k before e (f ∷ d) = ground (arith, contains-place k before e d)

  Distinct-place :
      (before : String × V → String × V → Bool) (e : String × V) (d : Dict V)
      → contains e.0 (keys d) ≡ false
      → Distinct (keys d)
      → Distinct (keys (place before e d))
  unfolding place contains
  Distinct-place before e [] h dis = (refl, tt)
  Distinct-place before e (f ∷ d) h dis = elim (Bool-cases (before f e)) [
    | inl t ↦ rw t (
      ground (arith, contains-place f.0 before e d, eq_iff e.0 f.0, eq_iff f.0 e.0),
      Distinct-place before e d (ground arith) dis.1,
    )
    | inr t ↦ rw t (h, dis)
  ]

  contains-sort_by :
      (k : String) (before : String × V → String × V → Bool) (d : Dict V)
      → contains k (keys (sort_by before d)) ≡ contains k (keys d)
  unfolding contains sort_by
  contains-sort_by k before [] = refl
  contains-sort_by k before (e ∷ d) =
      rw (contains-place k before e (sort_by before d), contains-sort_by k before d) refl

  pub Distinct-sort_by :
      (before : String × V → String × V → Bool) (d : Dict V)
      → Distinct (keys d)
      → Distinct (keys (sort_by before d))
  unfolding sort_by
  Distinct-sort_by before [] h = tt
  Distinct-sort_by before (e ∷ d) h =
      Distinct-place before e (sort_by before d) (rw (contains-sort_by e.0 before d) h.0)
        (Distinct-sort_by before d h.1)

  contains-take :
      (k : String) (n : ℕ) (d : Dict V)
      → contains k (keys d) ≡ false
      → contains k (keys (take n d)) ≡ false
  unfolding contains
  contains-take k zero d h = refl
  contains-take k (suc n) [] h = refl
  contains-take k (suc n) (e ∷ d) h = ground (arith, contains-take k n d)

  pub Distinct-take : (n : ℕ) (d : Dict V) → Distinct (keys d) → Distinct (keys (take n d))
  Distinct-take zero d h = tt
  Distinct-take (suc n) [] h = tt
  Distinct-take (suc n) (e ∷ d) h = (contains-take e.0 n d h.0, Distinct-take n d h.1)

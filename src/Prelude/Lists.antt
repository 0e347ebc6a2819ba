-- ===== src/Prelude/Lists.antt =====
-- Lists over the native numbers, and membership of a text in a list, as Python's `x in xs`.
use Prim.Native.Nat.{ℕ, zero, suc, ◌+◌, ◌≤◌}
use Prim.Native.String.{String}
use mathlib.Core.Path.{◌≡◌, refl}
use mathlib.Core.Logic.{◌⊎◌, inl, inr}
use mathlib.Core.Bool.{Bool, true, false, ◌||◌}
use mathlib.Core.List.{List, [], ◌∷◌, ◌++◌}
use native.Mathlib.Omega.{arith}
use text.Mathlib.Text.{◌==◌}
use text.Mathlib.TextEquality.{eq_iff}
use segnog.Prelude.Tests.{if◌then◌else◌, Bool-cases}

module _ {ℓ} {A : Type ℓ} where
  abbrev pub length : List A → ℕ
  length [] = 0
  length (x ∷ xs) = suc (length xs)

  abbrev pub take : ℕ → List A → List A
  take zero xs = []
  take (suc n) [] = []
  take (suc n) (x ∷ xs) = x ∷ take n xs

  abbrev pub All {κ} : (A → Type κ) → List A → Type κ
  All P [] = Unit
  All P (x ∷ xs) = P x × All P xs

  pub length-append : (xs ys : List A) → length (xs ++ ys) ≡ length xs + length ys
  length-append [] ys = omega arith
  length-append (x ∷ xs) ys = omega (arith, length-append xs ys)

  pub All-append {κ} : (P : A → Type κ) (xs ys : List A) → All P xs → All P ys → All P (xs ++ ys)
  All-append P [] ys hx hy = hy
  All-append P (x ∷ xs) ys hx hy = (hx.0, All-append P xs ys hx.1 hy)

  pub All-map {κ} : (P Q : A → Type κ) (xs : List A) → ((x : A) → P x → Q x) → All P xs → All Q xs
  All-map P Q [] f h = tt
  All-map P Q (x ∷ xs) f h = (f x h.0, All-map P Q xs f h.1)

  pub All-both {κ μ ν} :
      (P : A → Type κ) (Q : A → Type μ) (R : A → Type ν) (xs : List A)
      → All P xs
      → All Q xs
      → ((x : A) → P x → Q x → R x)
      → All R xs
  All-both P Q R [] hp hq f = tt
  All-both P Q R (x ∷ xs) hp hq f = (f x hp.0 hq.0, All-both P Q R xs hp.1 hq.1 f)

  pub length-take-le : (n : ℕ) (xs : List A) → length (take n xs) ≤ n
  length-take-le zero xs = omega arith
  length-take-le (suc n) [] = omega arith
  length-take-le (suc n) (x ∷ xs) = omega (arith, length-take-le n xs)

-- `x` is one of the list, as a statement that computes.
abbrev pub Among : {A : Type 0} → A → List A → Type 0
Among x [] = ⊥
Among x (y ∷ ys) = (x ≡ y) ⊎ Among x ys

pub All-Among : {A : Type 0} (P : A → Type 0) (xs : List A) (x : A) → All P xs → Among x xs → P x
All-Among P [] x h m = absurd m
All-Among P (y ∷ xs) x h (inl e) = rw e h.0
All-Among P (y ∷ xs) x h (inr m) = All-Among P xs x h.1 m

pub of_each : {A : Type 0} (P : A → Type 0) (xs : List A) → ((x : A) → Among x xs → P x) → All P xs
of_each P [] f = tt
of_each P (x ∷ xs) f = (f x (inl refl), of_each P xs (λ y m. f y (inr m)))

pub Among-last : {A : Type 0} (x : A) (xs : List A) → Among x (xs ++ x ∷ [])
Among-last x [] = inl refl
Among-last x (y ∷ xs) = inr (Among-last x xs)

pub Among-append_left : {A : Type 0} (x : A) (xs ys : List A) → Among x xs → Among x (xs ++ ys)
Among-append_left x [] ys m = absurd m
Among-append_left x (y ∷ xs) ys (inl e) = inl e
Among-append_left x (y ∷ xs) ys (inr m) = inr (Among-append_left x xs ys m)

-- `x in xs`.
unfoldable pub contains : String → List String → Bool
contains x [] = false
contains x (y ∷ ys) = x == y || contains x ys

-- `xs.discard(x)` of a set that is kept as a list.
unfoldable pub discard : String → List String → List String
discard x [] = []
discard x (y ∷ ys) = let rest = discard x ys in if x == y then rest else y ∷ rest

pub not_contains_nil : (x : String) → ¬ (contains x [] ≡ true)
unfolding contains
not_contains_nil x h = cc

pub All-contains :
    (P : String → Type 0) (xs : List String) (x : String) → All P xs → contains x xs ≡ true → P x
unfolding contains
All-contains P [] x h m = cc
All-contains P (y ∷ xs) x h m = elim (Bool-cases (x == y)) [
  | inl e ↦ rw ((eq_iff x y).0 e) h.0
  | inr e ↦ All-contains P xs x h.1 (ground arith)
]

pub contains-cons :
    (x y : String) (xs : List String) → contains x (y ∷ xs) ≡ (x == y || contains x xs)
unfolding contains
contains-cons x y xs = refl

pub contains-append :
    (x : String) (xs ys : List String) → contains x (xs ++ ys) ≡ (contains x xs || contains x ys)
unfolding contains
contains-append x [] ys = refl
contains-append x (y ∷ xs) ys = ground (arith, contains-append x xs ys)

pub contains-append_one :
    (x y : String) (xs : List String) → contains x (xs ++ y ∷ []) ≡ (x == y || contains x xs)
unfolding contains
contains-append_one x y xs = ground (arith, contains-append x xs (y ∷ []))

pub contains_head : (x : String) (xs : List String) → contains x (x ∷ xs) ≡ true
unfolding contains
contains_head x xs = ground (arith, eq_iff x x)

pub contains_tail :
    (x y : String) (xs : List String) → contains x xs ≡ true → contains x (y ∷ xs) ≡ true
unfolding contains
contains_tail x y xs h = ground arith

pub contains-ne :
    (x y : String) (xs : List String)
    → contains x xs ≡ false
    → contains y xs ≡ true
    → (y == x) ≡ false
contains-ne x y xs h k = ground (arith, eq_iff y x)

pub discard_absent : (x : String) (xs : List String) → contains x xs ≡ false → discard x xs ≡ xs
unfolding contains discard
discard_absent x [] h = refl
discard_absent x (y ∷ xs) h = ground (arith, discard_absent x xs)

pub discard_head : (x : String) (xs : List String) → contains x xs ≡ false → discard x (x ∷ xs) ≡ xs
unfolding discard
discard_head x xs h = ground (arith, eq_iff x x, discard_absent x xs)

pub contains-discard :
    (x y : String) (xs : List String)
    → contains y (discard x xs) ≡ (if x == y then false else contains y xs)
unfolding contains discard
contains-discard x y [] = ground arith
contains-discard x y (z ∷ xs) =
    ground (arith, contains-discard x y xs, eq_iff x y, eq_iff x z, eq_iff y z)

abbrev pub Distinct : List String → Type 0
Distinct [] = Unit
Distinct (x ∷ xs) = (contains x xs ≡ false) × Distinct xs

pub Distinct-append_one :
    (xs : List String) (x : String) → contains x xs ≡ false → Distinct xs → Distinct (xs ++ x ∷ [])
unfolding contains
Distinct-append_one [] x h d = (refl, tt)
Distinct-append_one (y ∷ ys) x h d = (
  ground (arith, contains-append y ys (x ∷ []), eq_iff x y, eq_iff y x),
  Distinct-append_one ys x (ground arith) d.1,
)

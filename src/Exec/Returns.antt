-- ===== src/Exec/Returns.antt =====
-- Code that returns from any state, unless there is a given reason to raise.
use segnog.Prelude.{Option, none, some, ◌≡◌, refl, ◌⊎◌, inl, inr}
use segnog.Exec.{Exec, pure, attempt, ◌>>=◌}
use segnog.Exec.Triples.{Ends, Triple, Triple-pure, Triple-attempt, Triple-bind}

-- From any state the code returns, or there is a reason `X` to raise.
abbrev pub Returns : {S A : Type 0} → Type 0 → Exec S A → Type 0
Returns X m = Triple (λ _. Unit) m (λ _ _. Unit) (λ _. X)

module _ {S A : Type 0} where
  either_way : (m : Exec S A) → Triple (λ _. Unit) m (λ _ _. Unit) (λ _. Unit)
  either_way m = record { at = λ s h. ends (m s).0 (m s).1 }
    where
      ends : (s : S) (r : Option A) → Ends (λ _ _. Unit {0}) (λ _. Unit {0}) s r
      ends s none = tt
      ends s (some a) = tt

module _ {S A X : Type 0} where
  pub Returns-pure : (a : A) → Returns {S = S} X (pure a)
  Returns-pure a = Triple-pure a (λ s h. tt)

  pub Returns-attempt : (m : Exec S A) (a : A) → Returns X (attempt m (pure a))
  Returns-attempt m a =
      Triple-attempt m (pure a) (λ _. Unit) (either_way m) (Triple-pure a (λ s h. tt))

module _ {S A B X : Type 0} where
  pub Returns-bind :
      (m : Exec S A) (f : A → Exec S B)
      → Returns X m
      → ((a : A) → Returns X (f a))
      → Returns X (m >>= f)
  Returns-bind m f hm hf = Triple-bind m f (λ _ _. Unit) hm hf

pub ended :
    {S : Type 0} {X : Type 0} (m : Exec S (Unit {0})) (s : S)
    → Returns X m
    → ((m s).1 ≡ some tt) ⊎ X
ended {S = S} {X = X} m s t = case_of (m s).0 (m s).1 (t.at s tt)
  where
    case_of :
        (s' : S) (r : Option (Unit {0})) → Ends (λ _ _. Unit {0}) (λ _. X) s' r → (r ≡ some tt) ⊎ X
    case_of s' none h = inr h
    case_of s' (some u) h = inl refl

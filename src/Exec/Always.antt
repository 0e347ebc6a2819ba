-- ===== src/Exec/Always.antt =====
-- Conditions that code keeps whether it returns or raises.
use segnog.Prelude.{Option, none, some}
use segnog.Exec.{Exec, pure, gets, from_option, attempt, ◌>>=◌}
use segnog.Exec.Triples.{
  Ends, Triple, Triple-pure, Triple-gets, Triple-from_option, Triple-attempt, Triple-bind,
}

-- The code keeps the condition, whether it returns or raises.
abbrev pub Always : {S A : Type 0} → (S → Type 0) → Exec S A → Type 0
Always P m = Triple P m (λ _. P) P

-- The state after code that may have raised.
pub Always-after :
    {S A : Type 0} (P : S → Type 0) (m : Exec S A) (s : S) → Always P m → P s → P (m s).0
Always-after {S = S} {A = A} P m s t h = kept (m s).0 (m s).1 (t.at s h)
  where
    kept : (s' : S) (r : Option A) → Ends (λ _. P) P s' r → P s'
    kept s' none h' = h'
    kept s' (some a) h' = h'

module _ {S A : Type 0} {P : S → Type 0} where
  pub Always-pure : (a : A) → Always P (pure a)
  Always-pure a = Triple-pure a (λ s h. h)

  pub Always-gets : (f : S → A) → Always P (gets f)
  Always-gets f = Triple-gets {Q = λ _. P} f (λ s h. h)

  pub Always-attempt : (m : Exec S A) (a : A) → Always P m → Always P (attempt m (pure a))
  Always-attempt m a t = Triple-attempt m (pure a) P t (Always-pure a)

module _ {S A B : Type 0} {P : S → Type 0} where
  pub Always-bind :
      (m : Exec S A) (f : A → Exec S B)
      → Always P m
      → ((a : A) → Always P (f a))
      → Always P (m >>= f)
  Always-bind m f hm hf = Triple-bind m f (λ _. P) hm hf

  pub Always-option :
      (r : Option A) (f : A → Exec S B)
      → ((a : A) → Always P (f a))
      → Always P (from_option r >>= f)
  Always-option r f hf =
      Always-bind (from_option r) f (Triple-from_option r (λ e s h. h) (λ a s h. h)) hf

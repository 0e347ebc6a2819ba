-- ===== src/Exec/Triples.antt =====
-- Hoare triples for code that may raise: from a state with `P` it returns a value and a state with
-- `Q`, or raises in a state with `X`. One rule for each way to build code.
use segnog.Prelude.{Bool, true, false, Option, none, some, List, [], ◌∷◌, ◌≡◌, refl}
use segnog.Exec.{
  Exec, pure, raise, gets, from_option, handle, attempt, branch, continue, ◌>>=◌, each,
}

module _ {S A : Type 0} where
  abbrev pub Ends : (A → S → Type 0) → (S → Type 0) → S → Option A → Type 0
  Ends Q X s none = X s
  Ends Q X s (some a) = Q a s

  pub record Triple (P : S → Type 0) (m : Exec S A) (Q : A → S → Type 0) (X : S → Type 0)
      : Type 0 where
    pub at : (s : S) → P s → Ends Q X (m s).0 (m s).1

  module _ {P : S → Type 0} {Q : A → S → Type 0} {X : S → Type 0} where
    pub Triple-pure : (a : A) → ((s : S) → P s → Q a s) → Triple P (pure a) Q X
    unfolding pure
    Triple-pure a h = record { at = h }

    pub Triple-raise : ((s : S) → P s → X s) → Triple P raise Q X
    unfolding raise
    Triple-raise h = record { at = h }

    pub Triple-gets : (f : S → A) → ((s : S) → P s → Q (f s) s) → Triple P (gets f) Q X
    unfolding gets
    Triple-gets f h = record { at = h }

    pub Triple-from_option :
        (r : Option A)
        → (r ≡ none → (s : S) → P s → X s)
        → ((a : A) → (s : S) → P s → Q a s)
        → Triple P (from_option r) Q X
    unfolding from_option
    Triple-from_option none hx hq = record { at = hx refl }
    Triple-from_option (some a) hx hq = record { at = hq a }

    pub Triple-branch :
        (b : Bool) (m k : Exec S A)
        → (b ≡ true → Triple P m Q X)
        → (b ≡ false → Triple P k Q X)
        → Triple P (branch b m k) Q X
    unfolding branch
    Triple-branch true m k hm hk = record { at = λ s h. (hm refl).at s h }
    Triple-branch false m k hm hk = record { at = λ s h. (hk refl).at s h }

    -- A stronger condition before, weaker ones after.
    pub Triple-weaken :
        {P' : S → Type 0} {Q' : A → S → Type 0} {X' : S → Type 0} (m : Exec S A)
        → ((s : S) → P s → P' s)
        → ((a : A) → (s : S) → Q' a s → Q a s)
        → ((s : S) → X' s → X s)
        → Triple P' m Q' X'
        → Triple P m Q X
    Triple-weaken {Q' = Q'} {X' = X'} m hp hq hx t = record {
      at = λ s h. after (m s).0 (m s).1 (t.at s (hp s h));
    }
      where
        after : (s : S) (r : Option A) → Ends Q' X' s r → Ends Q X s r
        after s none h = hx s h
        after s (some a) h = hq a s h

    -- A fact that the condition before gives may be used for the triple.
    pub Triple-given :
        {C : Type 0} (m : Exec S A) → ((s : S) → P s → C) → (C → Triple P m Q X) → Triple P m Q X
    Triple-given m fact t = record { at = λ s h. (t (fact s h)).at s h }

    pub Triple-attempt :
        (m handler : Exec S A) (Y : S → Type 0)
        → Triple P m Q Y
        → Triple Y handler Q X
        → Triple P (attempt m handler) Q X
    unfolding attempt
    Triple-attempt m handler Y hm hh = record { at = λ s h. after (m s).0 (m s).1 (hm.at s h) }
      where
        after :
            (s : S) (r : Option A)
            → Ends Q Y s r
            → Ends Q X (handle handler s r).0 (handle handler s r).1
        after s none h = hh.at s h
        after s (some a) h = h

module _ {S A B : Type 0} {P : S → Type 0} {R : B → S → Type 0} {X : S → Type 0} where
  pub Triple-bind :
      (m : Exec S A) (f : A → Exec S B) (Q : A → S → Type 0)
      → Triple P m Q X
      → ((a : A) → Triple (Q a) (f a) R X)
      → Triple P (m >>= f) R X
  unfolding ◌>>=◌
  Triple-bind m f Q hm hf = record { at = λ s h. after (m s).0 (m s).1 (hm.at s h) }
    where
      after : (s : S) (r : Option A) → Ends Q X s r → Ends R X (continue f s r).0 (continue f s r).1
      after s none h = h
      after s (some a) h = (hf a).at s h

module _ {S A : Type 0} {P : S → Type 0} {X : S → Type 0} where
  -- A loop keeps what its body keeps.
  pub Triple-each :
      (f : A → Exec S (Unit {0})) (xs : List A)
      → ((x : A) → Triple P (f x) (λ _. P) X)
      → Triple P (each f xs) (λ _. P) X
  unfolding each
  Triple-each f [] t = Triple-pure tt (λ s h. h)
  Triple-each f (x ∷ xs) t =
      Triple-bind (f x) (λ _. each f xs) (λ _. P) (t x) (λ _. Triple-each f xs t)

-- No exception leaves the code.
abbrev pub NoRaise : {S : Type 0} → S → Type 0
NoRaise s = ⊥

module _ {S A : Type 0} {P : S → Type 0} {Q : A → S → Type 0} where
  -- What the code returns, where it cannot raise.
  pub returned :
      (m : Exec S A) (s : S)
      → Triple P m Q NoRaise
      → P s
      → (a : A) × ((m s).1 ≡ some a) × Q a (m s).0
  returned m s t h = from_end (m s).0 (m s).1 (t.at s h)
    where
      from_end : (s' : S) (r : Option A) → Ends Q NoRaise s' r → (a : A) × (r ≡ some a) × Q a s'
      from_end s' none h = absurd h
      from_end s' (some a) h = (a, refl, h)

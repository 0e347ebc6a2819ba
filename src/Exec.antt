-- ===== src/Exec.antt =====
-- Code that changes a state and may raise, as the coroutines of src/memory_service do: what was
-- written before an exception stays written. An exception's class and text are left out.
pub mod Triples
pub mod Always
pub mod Returns
use segnog.Prelude.{Bool, Option, none, some, List, [], ◌∷◌, if◌then◌else◌}

abbrev pub Exec : Type 0 → Type 0 → Type 0
Exec S A = S → S × Option A

module _ {S A : Type 0} where
  unfoldable pub pure : A → Exec S A
  pure a s = (s, some a)

  unfoldable pub raise : Exec S A
  raise s = (s, none)

  unfoldable pub gets : (S → A) → Exec S A
  gets f s = (s, some (f s))

  unfoldable pub from_option : Option A → Exec S A
  from_option r s = (s, r)

  abbrev pub handle : Exec S A → S → Option A → S × Option A
  handle handler s none = handler s
  handle handler s (some a) = (s, some a)

  -- `try: … except Exception: …`
  unfoldable pub attempt : Exec S A → Exec S A → Exec S A
  attempt m handler s = let (s', r) = m s in handle handler s' r

  -- `try: … finally: …`, where what is done at the end does not raise.
  unfoldable pub finally : Exec S A → (S → S) → Exec S A
  finally m last s = let (s', r) = m s in (last s', r)

  -- An `if` whose branches run code.
  unfoldable pub branch : Bool → Exec S A → Exec S A → Exec S A
  branch b m k s = if b then m s else k s

module _ {S : Type 0} where
  unfoldable pub modify : (S → S) → Exec S (Unit {0})
  modify f s = (f s, some tt)

module _ {S A B : Type 0} where
  abbrev pub continue : (A → Exec S B) → S → Option A → S × Option B
  continue f s none = (s, none)
  continue f s (some a) = f a s

  infixl 10 ◌>>=◌ ◌>>◌
  unfoldable pub ◌>>=◌ : Exec S A → (A → Exec S B) → Exec S B
  ◌>>=◌ m f s = let (s', r) = m s in continue f s' r

  abbrev pub ◌>>◌ : Exec S A → Exec S B → Exec S B
  m >> k = m >>= λ _. k

module _ {S A : Type 0} where
  -- `for x in xs: …`
  unfoldable pub each : (A → Exec S (Unit {0})) → List A → Exec S (Unit {0})
  unfolding pure ◌>>=◌
  each f [] = pure tt
  each f (x ∷ xs) = f x >> each f xs

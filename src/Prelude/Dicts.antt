-- ===== src/Prelude/Dicts.antt =====
-- Association lists keyed by text, in insertion order: Python's `dict[str, V]`. A write to a key
-- that is there keeps its place, a new key goes to the end.
use Prim.Native.String.{String}
use mathlib.Core.Path.{◌≡◌, refl}
use mathlib.Core.Bool.{true, false, ◌||◌}
use mathlib.Core.Logic.{inl, inr}
use mathlib.Core.Option.{Option, none, some}
use mathlib.Core.List.{List, [], ◌∷◌, map}
use native.Mathlib.Omega.{arith}
use text.Mathlib.Text.{◌==◌}
use text.Mathlib.TextEquality.{eq_iff}
use segnog.Prelude.Tests.{if◌then◌else◌, Bool-cases, eq_self}
use segnog.Prelude.Lists.{contains, Distinct, All, All-both}

abbrev pub Dict {ℓ} : Type ℓ → Type ℓ
Dict V = List (String × V)

module _ {ℓ} {V : Type ℓ} where
  -- `d.get(k)`
  unfoldable pub lookup : String → Dict V → Option V
  lookup k [] = none
  lookup k ((j, v) ∷ d) = if k == j then some v else lookup k d

  -- `d[k] = v`
  unfoldable pub insert : String → V → Dict V → Dict V
  insert k v [] = (k, v) ∷ []
  insert k v ((j, w) ∷ d) = if k == j then (j, v) ∷ d else (j, w) ∷ insert k v d

  -- `d.pop(k, None)`
  unfoldable pub remove : String → Dict V → Dict V
  remove k [] = []
  remove k ((j, w) ∷ d) = let rest = remove k d in if k == j then rest else (j, w) ∷ rest

  abbrev pub keys : Dict V → List String
  keys = map (λ e. e.0)

  pub lookup-insert :
      (k j : String) (v : V) (d : Dict V)
      → lookup j (insert k v d) ≡ (if j == k then some v else lookup j d)
  unfolding lookup insert
  lookup-insert k j v [] = refl
  lookup-insert k j v ((i, w) ∷ d) =
      ground (arith, lookup-insert k j v d, eq_iff k i, eq_iff j i, eq_iff j k)

  pub lookup-remove :
      (k j : String) (d : Dict V) → lookup j (remove k d) ≡ (if j == k then none else lookup j d)
  unfolding lookup remove
  lookup-remove k j [] = ground arith
  lookup-remove k j ((i, w) ∷ d) =
      ground (arith, lookup-remove k j d, eq_iff k i, eq_iff j i, eq_iff j k)

  pub contains-insert :
      (k j : String) (v : V) (d : Dict V)
      → contains j (keys (insert k v d)) ≡ (j == k || contains j (keys d))
  unfolding contains insert
  contains-insert k j v [] = refl
  contains-insert k j v ((i, w) ∷ d) =
      ground (arith, contains-insert k j v d, eq_iff k i, eq_iff j i, eq_iff j k)

  pub lookup_absent : (k : String) (d : Dict V) → contains k (keys d) ≡ false → lookup k d ≡ none
  unfolding lookup contains
  lookup_absent k [] h = refl
  lookup_absent k ((j, v) ∷ d) h = ground (arith, lookup_absent k d)

  pub lookup_present :
      (k : String) (v : V) (d : Dict V) → lookup k d ≡ some v → contains k (keys d) ≡ true
  unfolding lookup contains
  lookup_present k v [] h = cc
  lookup_present k v ((j, w) ∷ d) h = ground (arith, lookup_present k v d)

  pub lookup_of_contains :
      (k : String) (d : Dict V) → contains k (keys d) ≡ true → (v : V) × (lookup k d ≡ some v)
  unfolding lookup contains
  lookup_of_contains k [] h = cc
  lookup_of_contains k ((j, w) ∷ d) h = elim (Bool-cases (k == j)) [
    | inl e ↦ (w, rw e)
    | inr e ↦ rw e (lookup_of_contains k d (ground arith))
  ]

  pub Distinct-insert :
      (k : String) (v : V) (d : Dict V) → Distinct (keys d) → Distinct (keys (insert k v d))
  unfolding insert contains
  Distinct-insert k v [] dis = (refl, tt)
  Distinct-insert k v ((j, w) ∷ d) dis = elim (Bool-cases (k == j)) [
    | inl e ↦ rw e dis
    | inr e ↦ rw e (
      ground (arith, contains-insert k j v d, eq_iff j k, eq_iff k j),
      Distinct-insert k v d dis.1,
    )
  ]

  pub contains-remove :
      (k j : String) (d : Dict V)
      → contains j (keys (remove k d)) ≡ (if j == k then false else contains j (keys d))
  unfolding contains remove
  contains-remove k j [] = ground arith
  contains-remove k j ((i, w) ∷ d) =
      ground (arith, contains-remove k j d, eq_iff k i, eq_iff j i, eq_iff j k)

  pub Distinct-remove : (k : String) (d : Dict V) → Distinct (keys d) → Distinct (keys (remove k d))
  unfolding remove
  Distinct-remove k [] dis = tt
  Distinct-remove k ((j, w) ∷ d) dis = elim (Bool-cases (k == j)) [
    | inl e ↦ rw e (Distinct-remove k d dis.1)
    | inr e ↦ rw e (ground (arith, contains-remove k j d), Distinct-remove k d dis.1)
  ]

  others : (j : String) (d : Dict V) → contains j (keys d) ≡ false → All (λ e. (e.0 == j) ≡ false) d
  unfolding contains
  others j [] h = tt
  others j ((k, v) ∷ d) h = (ground (arith, eq_iff j k, eq_iff k j), others j d (ground arith))

  -- Under distinct keys an entry is what its key is looked up to.
  pub lookup_entries : (d : Dict V) → Distinct (keys d) → All (λ e. lookup e.0 d ≡ some e.1) d
  unfolding lookup
  lookup_entries [] dis = tt
  lookup_entries ((j, w) ∷ d) dis = (
    rw (eq_self j) refl,
    All-both (λ e. lookup e.0 d ≡ some e.1) (λ e. (e.0 == j) ≡ false)
        (λ e. lookup e.0 ((j, w) ∷ d) ≡ some e.1) d (lookup_entries d dis.1) (others j d dis.0)
        (λ e found other. rw other found),
  )

-- ===== src/Graph/Update.antt =====
-- Changes of the nodes that a MATCH finds, in a dictionary of nodes.
use segnog.Prelude.{
  String, Bool, Option, none, some, [], ◌∷◌, ◌≡◌, ◌==◌, refl, Dict, keys, lookup, All,
  if◌then◌else◌, eq_iff, arith, inl, inr, Bool-cases,
}

module _ {V : Type 0} where
  -- `MATCH (n {uuid: $uuid}) SET …`
  unfoldable pub update : String → (V → V) → Dict V → Dict V
  update k f [] = []
  update k f ((j, v) ∷ d) = (j, if k == j then f v else v) ∷ update k f d

  -- `MATCH (n) WHERE … SET …`
  unfoldable pub update_where : (String → V → Bool) → (V → V) → Dict V → Dict V
  update_where p f [] = []
  update_where p f ((j, v) ∷ d) = (j, if p j v then f v else v) ∷ update_where p f d

  abbrev map_option : (V → V) → Option V → Option V
  map_option f none = none
  map_option f (some v) = some (f v)

  pub lookup-update :
      (k j : String) (f : V → V) (d : Dict V)
      → lookup j (update k f d) ≡ (if k == j then map_option f (lookup j d) else lookup j d)
  unfolding lookup update
  lookup-update k j f [] = ground arith
  lookup-update k j f ((i, v) ∷ d) =
      ground (arith, lookup-update k j f d, eq_iff k i, eq_iff j i, eq_iff k j)

  pub keys-update : (k : String) (f : V → V) (d : Dict V) → keys (update k f d) ≡ keys d
  unfolding update
  keys-update k f [] = refl
  keys-update k f ((j, v) ∷ d) = rw (keys-update k f d) refl

  -- A property of the values is kept if the change keeps it.
  pub All-update :
      (P : V → Type 0) (k : String) (f : V → V) (d : Dict V)
      → ((v : V) → P v → P (f v))
      → All (λ e. P e.1) d
      → All (λ e. P e.1) (update k f d)
  unfolding update
  All-update P k f [] keep h = tt
  All-update P k f ((j, v) ∷ d) keep h = elim (Bool-cases (k == j)) [
    | inl e ↦ rw e (keep v h.0, All-update P k f d keep h.1)
    | inr e ↦ rw e (h.0, All-update P k f d keep h.1)
  ]

  pub lookup-update_where :
      (p : String → V → Bool) (f : V → V) (j : String) (d : Dict V)
      → lookup j (update_where p f d)
        ≡ (elim (lookup j d) [ none ↦ none | some v ↦ some (if p j v then f v else v) ])
  unfolding lookup update_where
  lookup-update_where p f j [] = refl
  lookup-update_where p f j ((i, v) ∷ d) = ground (arith, lookup-update_where p f j d, eq_iff j i)

  pub keys-update_where :
      (p : String → V → Bool) (f : V → V) (d : Dict V) → keys (update_where p f d) ≡ keys d
  unfolding update_where
  keys-update_where p f [] = refl
  keys-update_where p f ((j, v) ∷ d) = rw (keys-update_where p f d) refl

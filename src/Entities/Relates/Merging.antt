-- ===== src/Entities/Relates/Merging.antt =====
-- Merging an edge into the edges that are there (storage/long_term/ontology_store.py).
use segnog.Prelude.{
  true, false, List, [], ◌∷◌, ◌≡◌, refl, Among, inl, inr, sym, Bool-cases, eq_self, arith,
  if◌then◌else◌,
}
use segnog.Scoring.{Numbers}
use segnog.Entities.{Edge, is_relates, merge_relates}

-- The edge is there, with a confidence that is not below its own.
abbrev pub Stands : {F : Type 0} → Numbers F → Edge F → List (Edge F) → Type 0
Stands {F = F} n e es =
    (e' : Edge F) × Among e' es
    × (is_relates e.subject e.predicate e.object e' ≡ true)
    × (n.lt e'.confidence e.confidence ≡ false)

abbrev pub IsStrict : {F : Type 0} → Numbers F → Type 0
IsStrict {F = F} n =
    ((c : F) → n.lt c c ≡ false)
    × ((a b c : F) → n.lt a b ≡ true → n.lt b c ≡ true → n.lt a c ≡ true)

module _ {F : Type 0} (n : Numbers F) (strict : IsStrict n) where
  pub is_relates_self : (e : Edge F) → is_relates e.subject e.predicate e.object e ≡ true
  unfolding is_relates
  is_relates_self e = ground (arith, eq_self e.subject, eq_self e.predicate, eq_self e.object)

  more_lem : (a b : F) → n.lt (if n.lt a b then b else a) b ≡ false
  more_lem a b = ground (arith, strict.0 b)

  more-keeps : (a b c : F) → n.lt a c ≡ false → n.lt (if n.lt a b then b else a) c ≡ false
  more-keeps a b c h = ground (arith, strict.1 a b c)

  pub Stands-cons : (e old : Edge F) (es : List (Edge F)) → Stands n e es → Stands n e (old ∷ es)
  Stands-cons e old es (e', m, h, c) = (e', inr m, h, c)

  pub merge_relates-Stands : (e : Edge F) (es : List (Edge F)) → Stands n e (merge_relates n e es)
  unfolding merge_relates
  merge_relates-Stands e [] = (e, inl refl, is_relates_self e, strict.0 e.confidence)
  merge_relates-Stands e (old ∷ es) =
      elim (Bool-cases (is_relates e.subject e.predicate e.object old)) [
        | inl same ↦ rw same (_, inl refl, same_edge same, more_lem old.confidence e.confidence)
        | inr other ↦ rw other (Stands-cons e old _ (merge_relates-Stands e es))
      ]
    where
      same_edge :
          is_relates e.subject e.predicate e.object old ≡ true
          → is_relates e.subject e.predicate e.object (record old {
            confidence = if n.lt old.confidence e.confidence then e.confidence else old.confidence;
          })
            ≡ true
      same_edge h = h

  pub merge_relates-keeps :
      (e f : Edge F) (es : List (Edge F)) → Stands n f es → Stands n f (merge_relates n e es)
  unfolding merge_relates is_relates
  merge_relates-keeps e f [] (e', m, h, c) = absurd m
  merge_relates-keeps e f (old ∷ es) (e', inl eq, h, c) =
      elim (Bool-cases (is_relates e.subject e.predicate e.object old)) [
        | inl same ↦ rw same (
          _,
          inl refl,
          rw (sym eq) h,
          more-keeps old.confidence e.confidence f.confidence (rw (sym eq) c),
        )
        | inr other ↦ rw other (e', inl eq, h, c)
      ]
  merge_relates-keeps e f (old ∷ es) (e', inr m, h, c) =
      elim (Bool-cases (is_relates e.subject e.predicate e.object old)) [
        | inl same ↦ rw same (e', inr m, h, c)
        | inr other ↦ rw other (Stands-cons f old _ (merge_relates-keeps e f es (e', m, h, c)))
      ]

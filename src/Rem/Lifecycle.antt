-- ===== src/Rem/Lifecycle.antt =====
-- How consolidation (workers/rem_worker.py) changes the status of an episode, whichever queries
-- and components raise.
pub mod Quiet
pub mod Split
pub mod Marks
pub mod Steps
pub mod Groups
pub mod Cycles
use segnog.Prelude.{
  ℕ, String, Bool, true, false, Option, none, some, List, [], ◌∷◌, ◌≡◌, refl, sym, ◌∙◌, inl, inr,
  ◌⊎◌, ◌==◌, Dict, keys, lookup, Distinct, All, arith, eq_iff, ◌&&◌,
}
use segnog.Graph.{Episode, Database}
use segnog.Rem.{is_pending}

module _ {E : Type 0} where
  abbrev pub SameStatus : Episode E → Episode E → Type 0
  SameStatus e e' =
      (e'.consolidation_status ≡ e.consolidation_status) × (e'.episode_type ≡ e.episode_type)

  abbrev pub IsSettled : Episode E → Type 0
  IsSettled e = (e.consolidation_status ≡ "duplicate") ⊎ (e.consolidation_status ≡ "consolidated")

  -- A raw episode that is pending may become a duplicate or consolidated; nothing else changes.
  abbrev pub MayStep : Episode E → Episode E → Type 0
  MayStep e e' =
      SameStatus e e' ⊎ (is_pending e ≡ true) × (e'.episode_type ≡ e.episode_type) × IsSettled e'

  pub pending-same : (e e' : Episode E) → SameStatus e e' → is_pending e' ≡ is_pending e
  unfolding is_pending
  pending-same e e' h = rw (h.0, h.1) refl

  settled-not_pending : (e : Episode E) → IsSettled e → is_pending e ≡ false
  unfolding is_pending
  settled-not_pending e (inl d) = rw d refl
  settled-not_pending e (inr d) = rw d refl

  pub MayStep-trans : (a b c : Episode E) → MayStep a b → MayStep b c → MayStep a c
  MayStep-trans a b c (inl s) (inl t) = inl (t.0 ∙ s.0, t.1 ∙ s.1)
  MayStep-trans a b c (inl s) (inr t) = inr (sym (pending-same a b s) ∙ t.0, t.1 ∙ s.1, t.2)
  MayStep-trans a b c (inr s) (inl t) =
      inr (s.0, t.1 ∙ s.1, elim s.2 [ inl d ↦ inl (t.0 ∙ d) | inr d ↦ inr (t.0 ∙ d) ])
  MayStep-trans a b c (inr s) (inr t) =
      let settled = settled-not_pending b s.2 in let pending = t.0 in cc

  -- From `d` to `d'` uuids still name one node each, and each episode has become another by `R`.
  pub record Since (R : Episode E → Episode E → Type 0) (d d' : Dict (Episode E)) : Type 0 where
    pub distinct : Distinct (keys d')
    pub at :
        (uuid : String) (e : Episode E)
        → lookup uuid d ≡ some e
        → (e' : Episode E) × (lookup uuid d' ≡ some e') × R e e'

  pub Since-trans :
      (d d' d'' : Dict (Episode E))
      → Since MayStep d d'
      → Since SameStatus d' d''
      → Since MayStep d d''
  Since-trans d d' d'' s t = record {
    distinct = t.distinct;
    at = λ uuid e h.
        let (e', h', r) = s.at uuid e h in
        let (e'', h'', r') = t.at uuid e' h' in (e'', h'', MayStep-trans e e' e'' r (inl r'));
  }

  -- The uuids name episodes that are raw and pending.
  abbrev pub ArePending : List String → Dict (Episode E) → Type 0
  ArePending uuids d =
      All (λ uuid. (e : Episode E) × (lookup uuid d ≡ some e) × (is_pending e ≡ true)) uuids

module _ {E : Type 0} where
  pub ArePending-Since :
      (uuids : List String) (d d' : Dict (Episode E))
      → Since SameStatus d d'
      → ArePending uuids d
      → ArePending uuids d'
  ArePending-Since [] d d' s h = tt
  ArePending-Since (uuid ∷ uuids) d d' s h =
      let (e, found, pending) = h.0 in
      let (e', found', same) = s.at uuid e found in
      ((e', found', pending-same e e' same ∙ pending), ArePending-Since uuids d d' s h.1)

  pub Since-refl : (d : Dict (Episode E)) → Distinct (keys d) → Since SameStatus d d
  Since-refl d dis = record { distinct = dis; at = λ uuid e h. (e, h, (refl, refl)) }

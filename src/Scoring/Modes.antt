-- ===== src/Scoring/Modes.antt =====
-- The scoring with three dimensions and the one with two, of storage/retrieval/scoring.py.
use segnog.Prelude.{
  ℕ, true, false, Option, none, some, List, [], ◌∷◌, map, ◌≡◌, refl, ap, ◌∙◌, inl, inr, Dict,
  lookup, All, Bool-cases,
}
use segnog.Scoring.{
  Numbers, Result, get_or, key, rank, sort, for_each, compute_freshness, temporal_score,
  apply_temporal_score, freshness_of, hebbian_score, apply_hebbian_score, clamp_beta,
}
use segnog.Scoring.Ranking.{IsOrdered, compute_freshness-some, compute_hebbian_boost-some}

-- The operations that nought takes part in are exact.
pub record IsExact {F : Type 0} (n : Numbers F) : Type 0 where
  pub sub_nought : (a : F) → n.sub a n.nought ≡ a
  pub add_nought : (a : F) → n.add a n.nought ≡ a
  pub nought_mul : (a : F) → n.mul n.nought a ≡ n.nought

-- A result without its Hebbian boost, which only one of the two scorings writes.
abbrev pub plain : {F A : Type 0} → Result F A → Result F A
plain r = record r { hebbian_boost = none }

abbrev pub plain_all : {F A : Type 0} → Option (List (Result F A)) → Option (List (Result F A))
plain_all none = none
plain_all (some rs) = some (map plain rs)

module _ {F A : Type 0} (n : Numbers F) where
  plain-rank :
      (r : Result F A) (rs : List (Result F A))
      → map plain (rank n r rs) ≡ rank n (plain r) (map plain rs)
  unfolding rank
  plain-rank r [] = refl
  plain-rank r (s ∷ rs) = elim (Bool-cases (n.lt (key n r) (key n s))) [
    | inl e ↦ rw (e, plain-rank r rs) refl
    | inr e ↦ rw e refl
  ]

  plain-sort : (rs : List (Result F A)) → map plain (sort n rs) ≡ sort n (map plain rs)
  unfolding sort
  plain-sort [] = refl
  plain-sort (r ∷ rs) = plain-rank r (sort n rs) ∙ ap (rank n (plain r)) (plain-sort rs)

  abbrev pub HasTime : Result F A → Type 0
  HasTime r = n.lt n.nought (get_or r.created_at n.nought) ≡ true

module _ {F : Type 0} (n : Numbers F) (x : IsExact n) where
  clamp_beta-nought :
      (alpha : F) → n.lt n.one alpha ≡ false → clamp_beta n alpha n.nought ≡ n.nought
  unfolding clamp_beta
  clamp_beta-nought alpha h = rw (x.add_nought alpha, h) refl

  module _ {A : Type 0} (o : IsOrdered n) (alpha half_life now : F) where
    -- What the two scorings make of a result that has a time.
    abbrev timed : F → Result F A → Result F A
    timed f r = record r {
      semantic_score = some (get_or r.score n.nought);
      freshness = some f;
      score = some (n.add (n.mul (n.sub n.one alpha) (get_or r.score n.nought)) (n.mul alpha f));
    }

    timed-temporal_score :
        (f : F) (r : Result F A)
        → HasTime n r
        → compute_freshness n (get_or r.created_at n.nought) half_life now ≡ some f
        → temporal_score n alpha half_life now r ≡ some (timed f r)
    unfolding temporal_score
    timed-temporal_score f r time e =
        rw (o.le_not (get_or r.created_at n.nought) n.nought, time, e) refl

    module _ (max_count : ℕ) (weights : Dict F) where
      timed-hebbian_score :
          (f : F) (r : Result F A)
          → HasTime n r
          → compute_freshness n (get_or r.created_at n.nought) half_life now ≡ some f
          → (b : F) × (hebbian_score n n.nought alpha half_life now max_count weights r
              ≡ some (record (timed f r) { hebbian_boost = some b }))
      unfolding hebbian_score freshness_of
      timed-hebbian_score f r time e =
          let weight = get_or (lookup (get_or r.uuid "") weights) n.nought in
          let (b, e') =
            compute_hebbian_boost-some n o (get_or r.activation_count 0) weight max_count in
          (b, rw (time, e, e', x.sub_nought, x.nought_mul, x.add_nought) refl)

      scores-agree :
          (rs : List (Result F A))
          → n.lt n.nought half_life ≡ true
          → All (HasTime n) rs
          → (ts : List (Result F A)) × (hs : List (Result F A)) × (for_each n
                (temporal_score n alpha half_life now)
                rs
              ≡ some ts)
            × (for_each n (hebbian_score n n.nought alpha half_life now max_count weights) rs
                ≡ some hs)
            × (map plain hs ≡ map plain ts)
      unfolding for_each
      scores-agree [] positive times = ([], [], refl, refl, refl)
      scores-agree (r ∷ rs) positive times =
          let (f, e) =
            compute_freshness-some n o (get_or r.created_at n.nought) half_life now positive in
          let (b, e') = timed-hebbian_score f r times.0 e in
          let (ts, hs, ets, ehs, same) = scores-agree rs positive times.1 in
          (
            timed f r ∷ ts,
            record (timed f r) { hebbian_boost = some b } ∷ hs,
            rw (timed-temporal_score f r times.0 e, ets) refl,
            rw (e', ehs) refl,
            rw same refl,
          )

      -- With a beta of nought, an alpha of at most one and a half-life above nought, if every result
      -- has a time above nought, then `apply_hebbian_score` gives what `apply_temporal_score` gives,
      -- in the same order, but for the Hebbian boosts that it adds.
      pub apply_hebbian_score-apply_temporal_score :
          (results : List (Result F A))
          → n.lt n.nought half_life ≡ true
          → n.lt n.one alpha ≡ false
          → All (HasTime n) results
          → plain_all (apply_hebbian_score n n.nought alpha half_life now max_count weights results)
            ≡ plain_all (apply_temporal_score n alpha half_life now results)
      unfolding apply_hebbian_score apply_temporal_score
      apply_hebbian_score-apply_temporal_score results positive below times =
          let (ts, hs, ets, ehs, same) = scores-agree results positive times in
          rw (clamp_beta-nought alpha below, ets, ehs, plain-sort n hs, plain-sort n ts, same) refl

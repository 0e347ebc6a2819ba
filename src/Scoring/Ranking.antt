-- ===== src/Scoring/Ranking.antt =====
-- The ranking of retrieval results in storage/retrieval/scoring.py.
use mathlib.Core.List.{Perm}
use mathlib.Core.List.Perm
use segnog.Prelude.{
  ℕ, zero, suc, ◌+◌, ◌<◌, true, false, not, Option, none, some, List, [], ◌∷◌, map, ◌≡◌, refl, inl,
  inr, Dict, lookup, All, All-map, if◌then◌else◌, Bool-cases, arith, leb,
}
use segnog.Scoring.{
  Numbers, Result, get_or, ◌>>=◌, max_of, compute_freshness, compute_activation_strength,
  compute_hebbian_boost, key, rank, sort, for_each, temporal_score, apply_temporal_score,
  freshness_of, hebbian_score, apply_hebbian_score, clamp_beta,
}

-- The order of the numbers, and what division by a positive number does.
pub record IsOrdered {F : Type 0} (n : Numbers F) : Type 0 where
  pub asym : (a b : F) → n.lt a b ≡ true → n.lt b a ≡ false
  pub trans : (a b c : F) → n.lt a b ≡ false → n.lt b c ≡ false → n.lt a c ≡ false
  pub le_not : (a b : F) → n.le a b ≡ not (n.lt b a)
  pub hour_positive : n.lt n.nought n.hour ≡ true
  pub add_one : (a : F) → n.lt a n.nought ≡ false → n.lt n.nought (n.add n.one a) ≡ true
  pub quotient : (a b : F) → n.lt n.nought b ≡ true → (q : F) × (n.div a b ≡ some q)
  pub quotient_sign :
      (a b q : F)
      → n.lt a n.nought ≡ false
      → n.lt n.nought b ≡ true
      → n.div a b ≡ some q
      → n.lt q n.nought ≡ false
  pub log_positive : (k : ℕ) → 1 < k → n.lt n.nought (n.log k) ≡ true

module _ {F A : Type 0} (n : Numbers F) where
  -- No result has a score above that of one before it.
  abbrev pub IsDescending : List (Result F A) → Type 0
  IsDescending [] = Unit
  IsDescending (r ∷ rs) = All (λ s. n.lt (key n r) (key n s) ≡ false) rs × IsDescending rs

  -- A result without the scores that are written, but for the one that is its score of before.
  abbrev pub unscored : Result F A → Result F A
  unscored r = record r { score = none; freshness = none; hebbian_boost = none }

  -- The result of before, with its score as the semantic score.
  abbrev pub expected : Result F A → Result F A
  expected r = unscored (record r { semantic_score = some (get_or r.score n.nought) })

  -- The ranking that follows the scoring: of the results of before, each has its score as its
  -- semantic score and new other scores, and all its other keys unchanged.
  pub record IsRanking (results out : List (Result F A)) : Type 0 where
    pub descending : IsDescending out
    pub same : Perm (map unscored out) (map expected results)

module _ {F : Type 0} (n : Numbers F) (o : IsOrdered n) where
  irrefl : (a : F) → n.lt a a ≡ false
  irrefl a = elim (Bool-cases (n.lt a a)) [ inl e ↦ o.asym a a e | inr e ↦ e ]

  max_of-nought : (a : F) → n.lt (max_of n n.nought a) n.nought ≡ false
  unfolding max_of
  max_of-nought a = elim (Bool-cases (n.lt n.nought a)) [
    | inl e ↦ rw e (o.asym n.nought a e)
    | inr e ↦ rw e (irrefl n.nought)
  ]

  -- With a half-life above nought, the freshness is a number.
  pub compute_freshness-some :
      (created half_life now : F)
      → n.lt n.nought half_life ≡ true
      → (q : F) × (compute_freshness n created half_life now ≡ some q)
  unfolding compute_freshness
  compute_freshness-some created half_life now positive =
      let (age, e) = o.quotient (n.sub now created) n.hour o.hour_positive in
      let age' = max_of n n.nought age in
      let (ratio, e') = o.quotient age' half_life positive in
      let sign = o.quotient_sign age' half_life ratio (max_of-nought age) positive e' in
      let (q, e'') = o.quotient n.one (n.add n.one ratio) (o.add_one ratio sign) in
      (q, rw (e, e', e'') refl)

  -- A bind of two parts that give values gives one.
  some_then :
      {B C : Type 0} (P : C → Type 0) (a : Option B) (f : B → Option C)
      → (b : B) × (a ≡ some b)
      → ((b : B) → (c : C) × (f b ≡ some c) × P c)
      → (c : C) × ((a >>= f) ≡ some c) × P c
  some_then P a f (b, e) g = rw e (g b)

  -- The divisor of the activation strength, for any maximal count.
  log_bound :
      (max_count : ℕ)
      → n.lt n.nought (n.log (1 + (if leb max_count 0 then 100 else max_count))) ≡ true
  log_bound max_count = o.log_positive _ (ground arith)

  pub compute_hebbian_boost-some :
      (count : ℕ) (weight : F) (max_count : ℕ)
      → (q : F) × (compute_hebbian_boost n count weight max_count ≡ some q)
  unfolding compute_hebbian_boost compute_activation_strength
  compute_hebbian_boost-some zero weight max_count = (_, refl)
  compute_hebbian_boost-some (suc count) weight max_count =
      let bound = if leb max_count 0 then 100 else max_count in
      let (raw, e) = o.quotient (n.log (1 + suc count)) (n.log (1 + bound)) (log_bound max_count) in
      rw e (_, refl)

  module _ {A : Type 0} where
    All-rank :
        (P : Result F A → Type 0) (r : Result F A) (rs : List (Result F A))
        → P r
        → All P rs
        → All P (rank n r rs)
    unfolding rank
    All-rank P r [] p h = (p, tt)
    All-rank P r (s ∷ rs) p h = elim (Bool-cases (n.lt (key n r) (key n s))) [
      | inl e ↦ rw e (h.0, All-rank P r rs p h.1)
      | inr e ↦ rw e (p, h)
    ]

    rank-IsDescending :
        (r : Result F A) (rs : List (Result F A)) → IsDescending n rs → IsDescending n (rank n r rs)
    unfolding rank
    rank-IsDescending r [] d = (tt, tt)
    rank-IsDescending r (s ∷ rs) d = elim (Bool-cases (n.lt (key n r) (key n s))) [
      | inl e ↦ rw e (
        All-rank (λ t. n.lt (key n s) (key n t) ≡ false) r rs (o.asym (key n r) (key n s) e) d.0,
        rank-IsDescending r rs d.1,
      )
      | inr e ↦ rw e (
        (
          e,
          All-map (λ t. n.lt (key n s) (key n t) ≡ false) (λ t. n.lt (key n r) (key n t) ≡ false) rs
              (λ t h. o.trans (key n r) (key n s) (key n t) e h) d.0,
        ),
        d,
      )
    ]

    sort-IsDescending : (rs : List (Result F A)) → IsDescending n (sort n rs)
    unfolding sort
    sort-IsDescending [] = tt
    sort-IsDescending (r ∷ rs) = rank-IsDescending r (sort n rs) (sort-IsDescending rs)

    rank-perm : (r : Result F A) (rs : List (Result F A)) → Perm (rank n r rs) (r ∷ rs)
    unfolding rank
    rank-perm r [] = Perm.rfl
    rank-perm r (s ∷ rs) = elim (Bool-cases (n.lt (key n r) (key n s))) [
      | inl e ↦ rw e (Perm.trans (Perm.cons s (rank-perm r rs)) (Perm.swap r s rs))
      | inr e ↦ rw e Perm.rfl
    ]

    sort-perm : (rs : List (Result F A)) → Perm (sort n rs) rs
    unfolding sort
    sort-perm [] = Perm.rfl
    sort-perm (r ∷ rs) = Perm.trans (rank-perm r (sort n rs)) (Perm.cons r (sort-perm rs))

    -- The scoring of a result gives a result, keeps its score, and leaves all but the scores.
    abbrev Rescores : (Result F A → Option (Result F A)) → Type 0
    Rescores f =
        (r : Result F A) → (r' : Result F A) × (f r ≡ some r') × (unscored n r' ≡ expected n r)

    for_each-some :
        (f : Result F A → Option (Result F A)) (rs : List (Result F A))
        → Rescores f
        → (out : List (Result F A)) × (for_each n f rs ≡ some out)
          × (map (unscored n) out ≡ map (expected n) rs)
    unfolding for_each
    for_each-some f [] g = ([], refl, refl)
    for_each-some f (r ∷ rs) g =
        let (r', e, same) = g r in
        let (out, e', same') = for_each-some f rs g in
        (r' ∷ out, rw (e, e') refl, rw (same, same') refl)

    sort-IsRanking :
        (results scored : List (Result F A))
        → map (unscored n) scored ≡ map (expected n) results
        → IsRanking n results (sort n scored)
    sort-IsRanking results scored same = record {
      descending = sort-IsDescending scored;
      same = rw (← same) (Perm.map (unscored n) (sort-perm scored));
    }

    temporal_score-Rescores :
        (alpha half_life now : F)
        → n.lt n.nought half_life ≡ true
        → Rescores (temporal_score n alpha half_life now)
    unfolding temporal_score
    temporal_score-Rescores alpha half_life now positive = λ r.
        elim (Bool-cases (n.le (get_or r.created_at n.nought) n.nought)) [
          | inl e ↦ rw e (_, refl, refl)
          | inr e ↦
              let created = get_or r.created_at n.nought in
              rw e (
                some_then (λ c. unscored n c ≡ expected n r)
                  (compute_freshness n created half_life now) _
                  (compute_freshness-some created half_life now positive) (λ q. (_, refl, refl)))
        ]

    freshness_of-some :
        (half_life now : F) (r : Result F A)
        → n.lt n.nought half_life ≡ true
        → (q : F) × (freshness_of n half_life now r ≡ some q)
    unfolding freshness_of
    freshness_of-some half_life now r positive =
        elim (Bool-cases (n.lt n.nought (get_or r.created_at n.nought))) [
          | inl e ↦
              rw e (compute_freshness-some (get_or r.created_at n.nought) half_life now positive)
          | inr e ↦ rw e (n.nought, refl)
        ]

    hebbian_score-Rescores :
        (beta alpha half_life now : F) (max_count : ℕ) (weights : Dict F)
        → n.lt n.nought half_life ≡ true
        → Rescores (hebbian_score n beta alpha half_life now max_count weights)
    unfolding hebbian_score
    hebbian_score-Rescores beta alpha half_life now max_count weights positive = λ r.
        some_then (λ c. unscored n c ≡ expected n r) (freshness_of n half_life now r) _
          (freshness_of-some half_life now r positive)
          (λ freshness.
            some_then (λ c. unscored n c ≡ expected n r)
              (compute_hebbian_boost n (get_or r.activation_count 0)
                (get_or (lookup (get_or r.uuid "") weights) n.nought) max_count)
              _
              (compute_hebbian_boost-some (get_or r.activation_count 0)
                (get_or (lookup (get_or r.uuid "") weights) n.nought) max_count)
              (λ q. (_, refl, refl)))

    -- With a half-life above nought, `apply_temporal_score` returns the results, each once, with its
    -- score of before as the semantic score and all its keys but the scores as before, in the order
    -- of their new scores from the highest.
    pub apply_temporal_score-IsRanking :
        (alpha half_life now : F) (results : List (Result F A))
        → n.lt n.nought half_life ≡ true
        → (out : List (Result F A)) × (apply_temporal_score n alpha half_life now results
            ≡ some out)
          × IsRanking n results out
    unfolding apply_temporal_score
    apply_temporal_score-IsRanking alpha half_life now results positive =
        let (scored, e, same) =
          for_each-some (temporal_score n alpha half_life now) results
            (temporal_score-Rescores alpha half_life now positive) in
        (sort n scored, rw e refl, sort-IsRanking results scored same)

    -- With a half-life above nought, `apply_hebbian_score` returns the results, each once, with its
    -- score of before as the semantic score and all its keys but the scores as before (its uuid, its
    -- time and its count too), in the order of their new scores from the highest, whatever the
    -- weights and the counts are.
    pub apply_hebbian_score-IsRanking :
        (beta alpha half_life now : F) (max_count : ℕ) (weights : Dict F)
        (results : List (Result F A))
        → n.lt n.nought half_life ≡ true
        → (out : List (Result F A)) × (apply_hebbian_score n beta alpha half_life now max_count
              weights results
            ≡ some out)
          × IsRanking n results out
    unfolding apply_hebbian_score
    apply_hebbian_score-IsRanking beta alpha half_life now max_count weights results positive =
        let weight = clamp_beta n alpha beta in
        let (scored, e, same) =
          for_each-some (hebbian_score n weight alpha half_life now max_count weights) results
            (hebbian_score-Rescores weight alpha half_life now max_count weights positive) in
        (sort n scored, rw e refl, sort-IsRanking results scored same)

-- ===== src/Scoring.antt =====
-- storage/retrieval/scoring.py: the scores of retrieval results and their ranking
-- (src/memory_service/storage/retrieval/scoring.py). The floating-point numbers are a parameter;
-- a division by zero, which raises, is `none`.
pub mod Ranking
pub mod Modes
use segnog.Prelude.{
  ℕ, zero, suc, ◌+◌, String, Bool, true, false, Option, none, some, List, [], ◌∷◌, Dict, lookup,
  if◌then◌else◌, leb,
}

-- What the code uses of `float`: `log` is `math.log` of a whole number.
pub record Numbers (F : Type 0) : Type 0 where
  pub nought : F
  pub one : F
  pub half : F
  pub hour : F
  pub add : F → F → F
  pub sub : F → F → F
  pub mul : F → F → F
  pub div : F → F → Option F
  pub lt : F → F → Bool
  pub le : F → F → Bool
  pub log : ℕ → F

-- The keys of a result that the code reads or writes; `score` and `created_at` stand for the keys
-- that `score_key` and `time_key` name, and `rest` for all others.
pub record Result (F A : Type 0) : Type 0 where
  pub score : Option F
  pub created_at : Option F
  pub activation_count : Option ℕ
  pub uuid : Option String
  pub semantic_score : Option F
  pub freshness : Option F
  pub hebbian_boost : Option F
  pub rest : A

-- `d.get(key, default)`
abbrev pub get_or : {A : Type 0} → Option A → A → A
get_or none d = d
get_or (some x) d = x

infixl 5 ◌>>=◌
abbrev pub ◌>>=◌ : {A B : Type 0} → Option A → (A → Option B) → Option B
none >>= f = none
some x >>= f = f x

module _ {F : Type 0} (n : Numbers F) where
  -- `max(a, b)` and `min(a, b)`
  unfoldable pub max_of : F → F → F
  max_of a b = if n.lt a b then b else a

  unfoldable pub min_of : F → F → F
  min_of a b = if n.lt b a then b else a

  unfoldable pub compute_freshness : F → F → F → Option F
  unfolding max_of
  compute_freshness created_at half_life_hours now = n.div (n.sub now created_at) n.hour >>= λ age.
      n.div (max_of n.nought age) half_life_hours >>= λ ratio. n.div n.one (n.add n.one ratio)

  -- A count below zero is read as zero.
  unfoldable pub compute_activation_strength : ℕ → ℕ → Option F
  unfolding min_of
  compute_activation_strength zero max_count = some n.nought
  compute_activation_strength (suc count) max_count =
      let bound = if leb max_count 0 then 100 else max_count in
      n.div (n.log (1 + suc count)) (n.log (1 + bound)) >>= λ raw. some (min_of raw n.one)

  unfoldable pub compute_hebbian_boost : ℕ → F → ℕ → Option F
  unfolding compute_activation_strength max_of min_of
  compute_hebbian_boost count co_activation_weight max_activation_count =
      compute_activation_strength count max_activation_count >>= λ strength.
      let co_weight = max_of n.nought (min_of n.one co_activation_weight) in
      some (n.add (n.mul n.half strength) (n.mul n.half co_weight))

  -- `if alpha + beta > 1.0: beta = max(0.0, 1.0 - alpha)`
  unfoldable pub clamp_beta : F → F → F
  unfolding max_of
  clamp_beta alpha beta =
      if n.lt n.one (n.add alpha beta) then max_of n.nought (n.sub n.one alpha) else beta

  module _ {A : Type 0} where
    -- `x.get(score_key, 0)`
    abbrev pub key : Result F A → F
    key r = get_or r.score n.nought

    pub rank : Result F A → List (Result F A) → List (Result F A)
    rank r [] = r ∷ []
    rank r (s ∷ rs) =
        let later = rank r rs in if n.lt (key r) (key s) then s ∷ later else r ∷ s ∷ rs

    -- `results.sort(key=…, reverse=True)`, which is stable.
    unfoldable pub sort : List (Result F A) → List (Result F A)
    unfolding rank
    sort [] = []
    sort (r ∷ rs) = rank r (sort rs)

    -- `for result in results:` where the body may raise.
    pub for_each :
        (Result F A → Option (Result F A)) → List (Result F A) → Option (List (Result F A))
    for_each f [] = some []
    for_each f (r ∷ rs) = f r >>= λ r'. for_each f rs >>= λ rs'. some (r' ∷ rs')

    -- The body of the loop of `apply_temporal_score`.
    unfoldable pub temporal_score : F → F → F → Result F A → Option (Result F A)
    unfolding compute_freshness
    temporal_score alpha half_life_hours now r =
        let semantic = get_or r.score n.nought in
        let created_at = get_or r.created_at n.nought in
        if n.le created_at n.nought
        then some (record r { semantic_score = some semantic; freshness = some n.nought })
        else (compute_freshness created_at half_life_hours now >>= λ freshness. some (record r {
          semantic_score = some semantic;
          freshness = some freshness;
          score = some (n.add (n.mul (n.sub n.one alpha) semantic) (n.mul alpha freshness));
        }))

    unfoldable pub apply_temporal_score : F → F → F → List (Result F A) → Option (List (Result F A))
    unfolding for_each sort
    apply_temporal_score alpha half_life_hours now results =
        for_each (temporal_score alpha half_life_hours now) results >>= λ scored. some (sort scored)

    -- The freshness of a result in `apply_hebbian_score`: nought without a time.
    unfoldable pub freshness_of : F → F → Result F A → Option F
    unfolding compute_freshness
    freshness_of half_life_hours now r =
        let created_at = get_or r.created_at n.nought in
        if n.lt n.nought created_at
        then compute_freshness created_at half_life_hours now
        else some n.nought

    -- The body of the loop of `apply_hebbian_score`.
    unfoldable pub hebbian_score : F → F → F → F → ℕ → Dict F → Result F A → Option (Result F A)
    unfolding freshness_of compute_hebbian_boost lookup
    hebbian_score beta alpha half_life_hours now max_count co_weights r =
        let semantic = get_or r.score n.nought in
        let semantic_weight = n.sub (n.sub n.one alpha) beta in
        let co_weight = get_or (lookup (get_or r.uuid "") co_weights) n.nought in
        freshness_of half_life_hours now r >>= λ freshness.
        compute_hebbian_boost (get_or r.activation_count 0) co_weight max_count >>= λ hebbian.
        some (record r {
          semantic_score = some semantic;
          freshness = some freshness;
          hebbian_boost = some hebbian;
          score = some (
              n.add (n.add (n.mul semantic_weight semantic) (n.mul alpha freshness))
                (n.mul beta hebbian));
        })

    unfoldable pub apply_hebbian_score :
        F → F → F → F → ℕ → Dict F → List (Result F A) → Option (List (Result F A))
    unfolding for_each sort hebbian_score clamp_beta
    apply_hebbian_score beta alpha half_life_hours now max_count co_weights results =
        let weight = clamp_beta alpha beta in
        for_each (hebbian_score weight alpha half_life_hours now max_count co_weights) results
        >>= λ scored. some (sort scored)

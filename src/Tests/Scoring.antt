-- ===== src/Tests/Scoring.antt =====
-- The theorems of Scoring with numbers in thousandths, at two results.
use segnog.Prelude.{
  ℕ, zero, suc, ◌*◌, ◌/◌, String, true, none, some, List, [], ◌∷◌, ◌≡◌, refl, ltb, arith,
}
use native.Mathlib.Nat.{zero-mul, zero-div}
use segnog.Tests.Numbers.{divide, thousandths}
use segnog.Scoring.{Result, apply_temporal_score, apply_hebbian_score}
use segnog.Scoring.Ranking.{IsOrdered, IsRanking, apply_hebbian_score-IsRanking}
use segnog.Scoring.Modes.{IsExact, plain_all, apply_hebbian_score-apply_temporal_score}

divide-some : (a b : ℕ) → ltb 0 b ≡ true → (q : ℕ) × (divide a b ≡ some q)
divide-some a zero h = cc
divide-some a (suc b) h = ((a * 1000) / suc b, refl)

thousandths-IsOrdered : IsOrdered thousandths
thousandths-IsOrdered = record {
  asym = λ a b h. ground arith;
  trans = λ a b c h k. ground arith;
  le_not = λ a b. ground arith;
  hour_positive = refl;
  add_one = λ a h. ground arith;
  quotient = divide-some;
  quotient_sign = λ a b q h k e. ground arith;
  log_positive = λ k h. ground arith;
}

thousandths-IsExact : IsExact thousandths
thousandths-IsExact = record {
  sub_nought = λ a. omega arith;
  add_nought = λ a. omega arith;
  nought_mul = λ a. rw (zero-mul a, zero-div 1000) refl;
}

abbrev result_of : String → ℕ → ℕ → ℕ → Result ℕ String
result_of uuid score time count = record {
  score = some score;
  created_at = some time;
  activation_count = some count;
  uuid = some uuid;
  semantic_score = none;
  freshness = none;
  hebbian_boost = none;
  rest = uuid;
}

abbrev two_results : List (Result ℕ String)
two_results = result_of "old" 500 3_600_000 0 ∷ result_of "new" 400 36_000_000 5 ∷ []

abbrev now : ℕ
now = 39_600_000

apply_hebbian_score-IsRanking_example :
    (out : List (Result ℕ String)) × (apply_hebbian_score thousandths 200 300 1000 now 100 []
        two_results
      ≡ some out)
    × IsRanking thousandths two_results out
apply_hebbian_score-IsRanking_example =
    apply_hebbian_score-IsRanking thousandths thousandths-IsOrdered 200 300 1000 now 100 []
      two_results refl

apply_hebbian_score-apply_temporal_score_example :
    plain_all (apply_hebbian_score thousandths 0 300 1000 now 100 [] two_results)
    ≡ plain_all (apply_temporal_score thousandths 300 1000 now two_results)
apply_hebbian_score-apply_temporal_score_example =
    apply_hebbian_score-apply_temporal_score thousandths thousandths-IsExact thousandths-IsOrdered
      300 1000 now 100 [] two_results refl refl (refl, (refl, tt))

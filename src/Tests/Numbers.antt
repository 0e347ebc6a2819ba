-- ===== src/Tests/Numbers.antt =====
-- Fixed-point numbers in thousandths, for the examples of the modules that compute with floats.
use segnog.Prelude.{
  ℕ, zero, suc, ◌+◌, ◌-◌, ◌*◌, ◌/◌, ◌≤◌, ◌≡◌, true, Option, none, some, ltb, leb, arith,
}
use native.Mathlib.Nat.{mul-le-mul_right}
use segnog.Scoring.{Numbers}
use segnog.Graph.Weights.{IsGrowing}

abbrev pub divide : ℕ → ℕ → Option ℕ
divide a zero = none
divide a (suc b) = some ((a * 1000) / suc b)

abbrev pub thousandths : Numbers ℕ
thousandths = record {
  nought = 0;
  one = 1000;
  half = 500;
  hour = 3_600_000;
  add = λ a b. a + b;
  sub = λ a b. a - b;
  mul = λ a b. (a * b) / 1000;
  div = divide;
  lt = ltb;
  le = leb;
  log = λ k. (k - 1) * 1000;
}

bound-mul : (a b : ℕ) → leb a 1000 ≡ true → a * b ≤ 1000 * b
bound-mul a b h = mul-le-mul_right b (ground arith)

-- Between nought and one the differences are exact, and products are rounded down.
pub thousandths-IsGrowing : IsGrowing thousandths
thousandths-IsGrowing = record {
  trans = λ a b c h k. ground arith;
  complement = λ w u. let small = u.1 in ground arith;
  complement_sum = λ w u. let small = u.1 in ground arith;
  product_sign = λ a b u v. ground arith;
  product_le = λ a b u v. let bound = bound-mul a b u.1 in ground arith;
  sum_mono = λ w a b u v t h. ground arith;
  sum_ge = λ w a u v. ground arith;
}

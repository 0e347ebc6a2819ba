-- ===== src/Graph/Weights.antt =====
-- The arithmetic of the weights of CO_ACTIVATED edges (storage/retrieval/hebbian.py).
use segnog.Prelude.{◌≡◌, true}
use segnog.Scoring.{Numbers}
use segnog.Graph.Hebbian.{grown}

-- A number between nought and one: the comparisons hold, so it is not NaN.
abbrev pub IsUnit : {F : Type 0} → Numbers F → F → Type 0
IsUnit n w = (n.le n.nought w ≡ true) × (n.le w n.one ≡ true)

-- What growth and decay need of the numbers. Doubles have it, since their operations round
-- monotonically: all but `trans` is asked of numbers between nought and one only, and for such a `w`
-- the sum of `w` and the rounded `1 - w` rounds to one.
pub record IsGrowing {F : Type 0} (n : Numbers F) : Type 0 where
  pub trans : (a b c : F) → n.le a b ≡ true → n.le b c ≡ true → n.le a c ≡ true
  pub complement : (w : F) → IsUnit n w → IsUnit n (n.sub n.one w)
  pub complement_sum : (w : F) → IsUnit n w → n.le (n.add w (n.sub n.one w)) n.one ≡ true
  pub product_sign : (a b : F) → IsUnit n a → IsUnit n b → n.le n.nought (n.mul a b) ≡ true
  pub product_le : (a b : F) → IsUnit n a → IsUnit n b → n.le (n.mul a b) b ≡ true
  pub sum_mono :
      (w a b : F)
      → IsUnit n w
      → IsUnit n a
      → IsUnit n b
      → n.le a b ≡ true
      → n.le (n.add w a) (n.add w b) ≡ true
  pub sum_ge : (w a : F) → IsUnit n w → IsUnit n a → n.le w (n.add w a) ≡ true

module _ {F : Type 0} (n : Numbers F) (g : IsGrowing n) where
  product-IsUnit : (a b : F) → IsUnit n a → IsUnit n b → IsUnit n (n.mul a b)
  product-IsUnit a b u v =
      (g.product_sign a b u v, g.trans (n.mul a b) b n.one (g.product_le a b u v) v.1)

  -- A weight that grows at a rate between nought and one.
  pub grown-IsUnit : (lr w : F) → IsUnit n lr → IsUnit n w → IsUnit n (grown n lr w)
  grown-IsUnit lr w u v =
      let rest = n.sub n.one w in
      let rest-IsUnit = g.complement w v in
      let gain = product-IsUnit lr rest u rest-IsUnit in
      (
        g.trans n.nought w (grown n lr w) v.0 (g.sum_ge w (n.mul lr rest) v gain),
        g.trans (grown n lr w) (n.add w rest) n.one
            (g.sum_mono w (n.mul lr rest) rest v gain rest-IsUnit
              (g.product_le lr rest u rest-IsUnit))
            (g.complement_sum w v),
      )

  -- A weight that decays by a rate between nought and one.
  pub decayed-IsUnit :
      (rate w : F) → IsUnit n rate → IsUnit n w → IsUnit n (n.mul w (n.sub n.one rate))
  decayed-IsUnit rate w u v = product-IsUnit w (n.sub n.one rate) v (g.complement rate u)

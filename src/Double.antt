-- ===== src/Double.antt =====
-- The `double` of the program: the operations that the modelled code applies to it, and the rules
-- of IEEE 754 that the proofs rely on. NaN is less than nothing, and nothing is less than NaN.
pub mod Scaled
use cipher_trader.Prelude.{◌≡◌, Bool, true, false}

pub record Double (D : Type 0) : Type 0 where
  pub nought : D
  pub one : D
  pub add : D → D → D
  pub sub : D → D → D
  pub mul : D → D → D
  pub div : D → D → D
  pub neg : D → D
  pub abs : D → D
  pub lt : D → D → Bool
  pub eq : D → D → Bool

-- `x` is not below zero: it is NaN, a zero or above.
abbrev pub NotNegative : {D : Type 0} → Double D → D → Type 0
NotNegative d x = d.lt x d.nought ≡ false

module _ {D : Type 0} (d : Double D) where
  -- What holds of every `double`, infinities and NaN included.
  pub record IsIeee : Type 0 where
    pub lt-irrefl : (x : D) → d.lt x x ≡ false
    pub abs-NotNegative : (x : D) → NotNegative d (d.abs x)
    pub neg-abs-not_positive : (x : D) → d.lt d.nought (d.neg (d.abs x)) ≡ false
    pub abs-le : (x : D) → NotNegative d x → d.lt x (d.abs x) ≡ false
    pub mul-NotNegative : (x y : D) → NotNegative d x → NotNegative d y → NotNegative d (d.mul x y)

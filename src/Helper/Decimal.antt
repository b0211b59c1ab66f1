-- ===== src/Helper/Decimal.antt =====
-- src/Helper.cpp: sums and differences of `double`s through decimal numbers. The decimal type is
-- Boost's, and a parameter.
use cipher_trader.Prelude.{◌≡◌, false, Text}
use cipher_trader.Double.{Double, NotNegative}

pub record Decimals (D : Type 0) : Type 1 where
  pub Value : Type 0
  -- `oss << std::setprecision(16) << v`, and `Decimal(text)`
  pub print : D → Text
  pub parse : Text → Value
  pub plus : Value → Value → Value
  pub minus : Value → Value → Value
  -- `r.convert_to<double>()`
  pub convert_to : Value → D

module _ {D : Type 0} (x : Decimals D) where
  unfoldable pub to_decimal : D → x.Value
  to_decimal v = x.parse (x.print v)

  unfoldable pub add_floats : D → D → D
  unfolding to_decimal
  add_floats a b = x.convert_to (x.plus (to_decimal a) (to_decimal b))

  unfoldable pub subtract_floats : D → D → D
  unfolding to_decimal
  subtract_floats a b = x.convert_to (x.minus (to_decimal a) (to_decimal b))

  -- What the proofs rely on: the signs of sums and differences survive the way through decimals.
  pub record IsDecimal (d : Double D) : Type 0 where
    pub add-NotNegative :
        (a b : D) → NotNegative d a → NotNegative d b → NotNegative d (add_floats a b)
    pub subtract-NotNegative : (a b : D) → d.lt a b ≡ false → NotNegative d (subtract_floats a b)

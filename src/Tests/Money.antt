-- ===== src/Tests/Money.antt =====
-- Decimal numbers that meet what the proofs ask of them: the whole numbers of `Scaled`, printed as a
-- sign and a magnitude.
use cipher_trader.Prelude.{zero, suc, none, some, [], ◌∷◌, Text, arith}
use cipher_trader.Prelude.Int.{pos, negsuc, ◌+ℤ◌, ◌-ℤ◌}
use cipher_trader.Double.Scaled.{Scaled, scaled, on_both}
use cipher_trader.Helper.Decimal.{Decimals, IsDecimal, add_floats, subtract_floats, to_decimal}

abbrev print_scaled : Scaled → Text
print_scaled none = []
print_scaled (some (pos n)) = 0 ∷ n ∷ []
print_scaled (some (negsuc n)) = 1 ∷ n ∷ []

abbrev parse_scaled : Text → Scaled
parse_scaled (zero ∷ n ∷ []) = some (pos n)
parse_scaled (suc _ ∷ n ∷ []) = some (negsuc n)
parse_scaled _ = none

unfoldable pub decimals : Decimals Scaled
decimals = record {
  Value = Scaled;
  print = print_scaled;
  parse = parse_scaled;
  plus = on_both ◌+ℤ◌;
  minus = on_both ◌-ℤ◌;
  convert_to = λ x. x;
}

pub decimals-IsDecimal : IsDecimal decimals scaled
unfolding decimals scaled add_floats subtract_floats to_decimal ◌+ℤ◌ ◌-ℤ◌
decimals-IsDecimal = record {
  add-NotNegative = λ a b h k. ground (arith, h, k);
  subtract-NotNegative = λ a b h. ground (arith, h);
}

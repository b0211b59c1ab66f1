-- ===== src/Double/Scaled.antt =====
-- An instance of `Double` that a test can evaluate: whole numbers, with `none` for NaN.
use cipher_trader.Prelude.{◌+◌, ◌/◌, Bool, false, Option, none, some, arith, ◌==◌}
use cipher_trader.Prelude.Int.{ℤ, pos, ◌+ℤ◌, ◌-ℤ◌, ◌*ℤ◌, ltb_ℤ, pos_part, neg_part, abs}
use cipher_trader.Double.{Double, IsIeee}

abbrev pub Scaled : Type 0
Scaled = Option ℤ

abbrev pub whole : ℤ → Scaled
whole a = some a

abbrev pub on_both : (ℤ → ℤ → ℤ) → Scaled → Scaled → Scaled
on_both f (some a) (some b) = some (f a b)
on_both f _ _ = none

abbrev pub on_test : (ℤ → ℤ → Bool) → Scaled → Scaled → Bool
on_test f (some a) (some b) = f a b
on_test f _ _ = false

abbrev pub on_one : (ℤ → ℤ) → Scaled → Scaled
on_one f none = none
on_one f (some a) = some (f a)

-- Division of magnitudes only, and NaN by zero
abbrev div_ℤ : ℤ → ℤ → ℤ
div_ℤ a b = pos (pos_part a / pos_part b)

unfoldable pub scaled : Double Scaled
scaled = record {
  nought = some (pos 0);
  one = some (pos 1);
  add = on_both ◌+ℤ◌;
  sub = on_both ◌-ℤ◌;
  mul = on_both ◌*ℤ◌;
  div = on_both div_ℤ;
  neg = on_one λ a. pos 0 -ℤ a;
  abs = on_one abs;
  lt = on_test ltb_ℤ;
  eq = on_test λ a b. (pos_part a + neg_part b) == (pos_part b + neg_part a);
}

pub scaled-IsIeee : IsIeee scaled
unfolding scaled ◌*ℤ◌ ◌-ℤ◌ abs
scaled-IsIeee = ground arith

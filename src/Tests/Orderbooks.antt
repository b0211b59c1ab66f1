-- ===== src/Tests/Orderbooks.antt =====
-- The theorems on order books, at a book of four levels.
use cipher_trader.Prelude.{
  ℕ, ◌≡◌, ◌≤◌, ◌<◌, ◌^◌, refl, true, false, none, List, [], ◌∷◌, length, ok,
}
use cipher_trader.Prelude.Int.{ℤ, pos, negsuc, ◌+ℤ◌, ◌-ℤ◌, ◌*ℤ◌, abs}
use cipher_trader.Double.Scaled.{Scaled, whole, scaled}
use cipher_trader.Orderbooks.{Rounding, Level, trim_price, unit_of, beyond, walk, trim}
use cipher_trader.Orderbooks.Levels.{trimmed_book_is_short}

abbrev power_of_ten : ℤ → Scaled
power_of_ten (pos n) = whole (pos (10 ^ n))
power_of_ten (negsuc n) = whole (pos 0)

-- Whole numbers are rounded already.
abbrev rounding : Rounding Scaled
rounding = record {
  ceil = λ x. x;
  round = λ x. x;
  log10 = λ x. whole (pos 0);
  pow10 = λ x. whole (pos 1);
  literal = power_of_ten;
}

abbrev nan : Scaled
nan = none

abbrev level : ℕ → ℕ → Level Scaled
level p q = (whole (pos p), whole (pos q))

abbrev rest_of_asks : List (Level Scaled)
rest_of_asks = level 50010 2 ∷ level 50020 3 ∷ level 50030 4 ∷ []

-- Three levels of the four are left, the second and the third with twice their quantity.
abbrev trimmed : List (Level Scaled)
trimmed = level 50000 1 ∷ level 50010 4 ∷ level 50020 6 ∷ []

first_price :
    trim_price scaled rounding nan true
      (unit_of scaled rounding nan (whole (pos 50000)))
      (whole (pos 50000))
    ≡ ok (whole (pos 50000))
unfolding trim_price scaled ◌-ℤ◌ ◌+ℤ◌ ◌*ℤ◌ abs
first_price = refl

not_beyond : beyond scaled rounding nan true (whole (pos 50000)) (whole (pos 50000)) ≡ false
unfolding scaled
not_beyond = refl

asks-trimmed : trim scaled rounding nan 50 true (level 50000 1 ∷ rest_of_asks) ≡ ok trimmed
unfolding trim walk trim_price scaled ◌-ℤ◌ ◌+ℤ◌ ◌*ℤ◌ abs
asks-trimmed = refl

bids-trimmed : trim scaled rounding nan 50 false [] ≡ ok []
unfolding trim
bids-trimmed = refl

trimmed_book_is_short_example :
    (length trimmed ≤ 50) × (length trimmed < length (level 50000 1 ∷ rest_of_asks))
trimmed_book_is_short_example =
    trimmed_book_is_short scaled rounding nan 50 true (whole (pos 50000)) (whole (pos 1))
      (whole (pos 50000)) rest_of_asks trimmed first_price not_beyond asks-trimmed

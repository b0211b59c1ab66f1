-- ===== src/Tests/Indicators.antt =====
-- The theorems on indicators, at vectors of whole numbers.
use cipher_trader.Prelude.{
  ℕ, zero, suc, ◌<◌, ◌≡◌, refl, true, false, none, List, [], ◌∷◌, length, map, ok, arith, inl,
}
use cipher_trader.Prelude.Int.{pos, ◌+ℤ◌, ◌-ℤ◌}
use cipher_trader.Double.Scaled.{Scaled, whole, scaled}
use cipher_trader.Candles.{Candle}
use cipher_trader.Indicators.{entry, last_entry, for_range}
use cipher_trader.Indicators.Averages.{sma}
use cipher_trader.Indicators.Averages.Windows.{CanSlide, mean_at}
use cipher_trader.Indicators.Averages.Means.{sma_means}
use cipher_trader.Indicators.Extremes.{AroonResult, aroon}
use cipher_trader.Indicators.Extremes.Modes.{aroon_modes_agree}
use cipher_trader.Indicators.Volume.{ad}
use cipher_trader.Indicators.Volume.Flows.{money_flow, sum_up_to, ad_sums_flows}

abbrev nan : Scaled
nan = none

abbrev closes : List Scaled
closes = whole (pos 2) ∷ none ∷ whole (pos 6) ∷ whole (pos 8) ∷ []

averages : sma scaled whole nan closes 2 ≡ nan ∷ whole (pos 2) ∷ whole (pos 6) ∷ whole (pos 7) ∷ []
unfolding sma for_range scaled ◌+ℤ◌ ◌-ℤ◌
averages = refl

closes-CanSlide : CanSlide scaled whole nan closes 2
unfolding scaled ◌+ℤ◌ ◌-ℤ◌
closes-CanSlide zero l v = refl
closes-CanSlide (suc zero) l v = absurd (ground (arith, v))
closes-CanSlide (suc (suc s)) l v = absurd (omega (arith, l))

sma_means_example :
    entry nan (sma scaled whole nan closes 2) 3 ≡ mean_at scaled whole nan closes 2 3
sma_means_example =
    sma_means scaled whole nan closes 2 3 closes-CanSlide (omega arith) (omega arith)

abbrev candle_at : ℕ → ℕ → ℕ → Candle Scaled
candle_at low high volume = record {
  timestamp = whole (pos 0);
  open_price = whole (pos low);
  close_price = whole (pos high);
  high_price = whole (pos high);
  low_price = whole (pos low);
  volume = whole (pos volume);
}

abbrev candles : List (Candle Scaled)
candles = candle_at 1 4 10 ∷ candle_at 2 7 20 ∷ candle_at 3 6 30 ∷ []

-- The last two of them
abbrev late_candles : List (Candle Scaled)
late_candles = candle_at 2 7 20 ∷ candle_at 3 6 30 ∷ []

aroon_modes_agree_example :
    (lines : AroonResult Scaled) × (aroon scaled whole nan 2 late_candles (pos 1) true ≡ ok lines)
    × (aroon scaled whole nan 2 candles (pos 1) false
        ≡ ok (record { down = last_entry nan lines.down ∷ []; up = last_entry nan lines.up ∷ [] }))
aroon_modes_agree_example =
    aroon_modes_agree scaled whole nan 2 (candle_at 1 4 10 ∷ []) late_candles 0 (inl refl)

abbrev tops : List Scaled
tops = whole (pos 4) ∷ whole (pos 7) ∷ whole (pos 6) ∷ []

abbrev bottoms : List Scaled
bottoms = whole (pos 1) ∷ whole (pos 2) ∷ whole (pos 3) ∷ []

abbrev epsilon : Scaled
epsilon = whole (pos 0)

ad_sums_flows_example :
    (line : List Scaled) × (ad scaled whole nan epsilon 240 candles true ≡ ok line)
    × (length line ≡ length candles)
    × ((j : ℕ)
        → j < length candles
        → entry nan line j
          ≡ sum_up_to scaled whole nan epsilon
              (map (money_flow scaled whole nan epsilon) candles)
              j)
ad_sums_flows_example =
    ad_sums_flows scaled whole nan epsilon 240 (candle_at 1 4 10)
      (candle_at 2 7 20 ∷ candle_at 3 6 30 ∷ [])

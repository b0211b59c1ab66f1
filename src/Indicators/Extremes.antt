-- ===== src/Indicators/Extremes.antt =====
-- src/Indicator.cpp: `AROON`, `computeAroonOsc` and `AROONOSC`, which look for the highest and the lowest price of a
-- window
pub mod Best
pub mod Modes
pub mod Marks
use cipher_trader.Prelude.{
  ℕ, zero, suc, ◌+◌, ◌-◌, Bool, true, false, ◌||◌, List, [], ◌∷◌, length, set, replicate, ltb, leb,
  ◌==◌, if◌then◌else◌, Result, ok, err, and_then,
}
use cipher_trader.Prelude.Int.{ℤ, pos}
use cipher_trader.Double.{Double}
use cipher_trader.Candles.{Candle, high_source, low_source, get_candle_source}
use cipher_trader.Indicators.{
  for_range, with_period, slice_candles, entry, is_nan, number, last_entry, answer,
}

pub record AroonResult (D : Type 0) : Type 0 where
  pub down : List D
  pub up : List D

-- The best values of a window so far, and where they stand in it
pub record Extremes (D : Type 0) : Type 0 where
  pub max_val : D
  pub max_idx : ℕ
  pub min_val : D
  pub min_idx : ℕ

module _ {D : Type 0} (d : Double D) (of_int : ℤ → D) (nan : D) where
  -- The body of the loop over a window that begins at `start`
  abbrev pub compare_at : List D → List D → ℕ → ℕ → Extremes D → Extremes D
  compare_at highs lows start j e =
      let high = entry nan highs (start + j) in
      let low = entry nan lows (start + j) in
      let higher = d.lt e.max_val high in
      let lower = d.lt low e.min_val in
      record {
        max_val = if higher then high else e.max_val;
        max_idx = if higher then j else e.max_idx;
        min_val = if lower then low else e.min_val;
        min_idx = if lower then j else e.min_idx;
      }

  -- The window has `rounds` values after its first one.
  unfoldable pub extremes : List D → List D → ℕ → ℕ → Extremes D
  unfolding for_range
  extremes highs lows start rounds = for_range rounds 1 (compare_at highs lows start) (record {
    max_val = entry nan highs start;
    max_idx = 0;
    min_val = entry nan lows start;
    min_idx = 0;
  })

  -- `100.0 * (static_cast<double>(idx) / period)`
  abbrev pub percent : ℕ → ℕ → D
  percent idx period = d.mul (number of_int 100) (d.div (number of_int idx) (number of_int period))

  abbrev pub write_aroon : List D → List D → ℕ → ℕ → AroonResult D → AroonResult D
  write_aroon highs lows period i r =
      let e = extremes highs lows (i - period) period in
      record {
        down = set r.down i (percent e.min_idx period);
        up = set r.up i (percent e.max_idx period);
      }

  abbrev nans : ℕ → AroonResult D
  nans size = record { down = replicate size nan; up = replicate size nan }

  -- The two modes, on the prices of more candles than the period
  abbrev pub aroon_lines : List D → List D → ℕ → AroonResult D
  aroon_lines highs lows period =
      for_range (length highs - period) period (write_aroon highs lows period) (nans (length highs))

  abbrev pub aroon_last : List D → List D → ℕ → AroonResult D
  aroon_last highs lows period =
      let e = extremes highs lows (length highs - period - 1) period in
      record { down = percent e.min_idx period ∷ []; up = percent e.max_idx period ∷ [] }

  unfoldable pub aroon : ℕ → List (Candle D) → ℤ → Bool → Result (AroonResult D)
  aroon warmup candles period sequential = with_period period λ p.
      let sliced = slice_candles warmup candles sequential in
      if leb (length sliced) p
      then ok (nans (if sequential then length sliced else 1))
      else (and_then (get_candle_source d of_int sliced high_source) λ highs.
          and_then (get_candle_source d of_int sliced low_source)
            λ lows. ok (if sequential then aroon_lines highs lows p else aroon_last highs lows p))

  -- The window of the oscillator has as many values as the period, one less than that of `AROON`.
  abbrev pub write_osc : List D → List D → ℕ → ℕ → List D → List D
  write_osc high low period i r =
      let e = extremes high low (i - period + 1) (period - 1) in
      let apart = d.sub (number of_int e.max_idx) (number of_int e.min_idx) in
      set r i (d.div (d.mul (number of_int 100) apart) (number of_int period))

  unfoldable pub compute_aroon_osc : List D → List D → ℕ → List D
  unfolding for_range
  compute_aroon_osc high low period =
      let result = replicate (length high) nan in
      if ltb (length high) period
      then result
      else for_range (length high - (period - 1)) (period - 1) (write_osc high low period) result

  unfoldable pub aroonosc : ℕ → List (Candle D) → ℤ → Bool → Result (List D)
  aroonosc warmup candles period sequential = with_period period λ p.
      let sliced = slice_candles warmup candles sequential in
      and_then (get_candle_source d of_int sliced high_source) λ high.
        and_then (get_candle_source d of_int sliced low_source) λ low.
          let result = compute_aroon_osc high low p in
          ok (
            if sequential
            then result
            else if (length result == 0) || is_nan d (last_entry nan result)
            then nan ∷ []
            else last_entry nan result ∷ [])

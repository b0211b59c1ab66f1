-- ===== src/Indicators/Volume.antt =====
-- src/Indicator.cpp: `AD`, `computeMultiplier` and `ADOSC`, of the volume that flows in and out
pub mod Flows
use cipher_trader.Prelude.{
  ℕ, ◌+◌, ◌-◌, Bool, ◌||◌, List, [], ◌∷◌, length, set, replicate, leb, if◌then◌else◌, Result, ok,
  err, invalid_argument, and_then,
}
use cipher_trader.Prelude.Int.{ℤ, pos}
use cipher_trader.Double.{Double}
use cipher_trader.Candles.{
  Candle, Source, high_source, low_source, close_source, volume_source, get_candle_source,
}
use cipher_trader.Indicators.{with_period, slice_candles, entry, fill, pointwise, answer}
use cipher_trader.Indicators.Averages.{calculate_ema}

module _ {D : Type 0} (d : Double D) (of_int : ℤ → D) (nan epsilon : D) where
  -- The range is taken for zero up to the machine epsilon.
  abbrev pub flow : List D → List D → List D → ℕ → D
  flow high low close i =
      let range = d.sub (entry nan high i) (entry nan low i) in
      let up = d.sub (entry nan close i) (entry nan low i) in
      let down = d.sub (entry nan high i) (entry nan close i) in
      if d.lt epsilon (d.abs range) then d.div (d.sub up down) range else d.nought

  unfoldable pub compute_multiplier : List D → List D → List D → List D
  compute_multiplier high low close =
      fill 0 (λ i r. flow high low close i) (replicate (length high) d.nought)

  -- The sums of the values up to each one
  unfoldable pub cumulative : List D → List D
  cumulative values =
      fill 1 (λ i r. d.add (entry nan r (i - 1)) (entry nan values i))
        (set (replicate (length values) d.nought) 0 (entry nan values 0))

  abbrev sources :
      List (Candle D) → (List D → List D → List D → List D → Result (List D)) → Result (List D)
  sources sliced f = and_then (get_candle_source d of_int sliced high_source) λ high.
      and_then (get_candle_source d of_int sliced low_source) λ low.
        and_then (get_candle_source d of_int sliced close_source) λ close.
          and_then (get_candle_source d of_int sliced volume_source)
            λ volume. f high low close volume

  abbrev pub ad_line : List D → List D → List D → List D → List D
  ad_line high low close volume =
      cumulative (pointwise d.mul (compute_multiplier high low close) volume)

  -- The loop of `AD` is that of `computeMultiplier`.
  unfoldable pub ad : ℕ → List (Candle D) → Bool → Result (List D)
  ad warmup candles sequential =
      sources (slice_candles warmup candles sequential)
        λ high low close volume. ok (answer nan sequential (ad_line high low close volume))

  unfoldable pub adosc : ℕ → List (Candle D) → ℤ → ℤ → Bool → Result (List D)
  adosc warmup candles fast_period slow_period sequential = with_period fast_period λ fast.
      with_period slow_period λ slow.
        if leb slow fast
        then err invalid_argument
        else (sources (slice_candles warmup candles sequential) λ high low close volume.
            let line = ad_line high low close volume in
            let oscillator =
              pointwise d.sub (calculate_ema d of_int nan line fast)
                (calculate_ema d of_int nan line slow) in
            ok (answer nan sequential oscillator))

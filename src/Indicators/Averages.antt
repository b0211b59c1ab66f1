-- ===== src/Indicators/Averages.antt =====
-- src/Indicator.cpp: `sma`, `SMA`, `momentum`, `Momentum`, `calculateEMA`, `wilderSmooth`, `SMMA`, and the
-- oscillators that are made of them, `ACOSC`, `AO` and `ALLIGATOR`
pub mod Windows
pub mod Means
use cipher_trader.Prelude.{
  ℕ, zero, suc, ◌+◌, ◌-◌, min, Bool, true, false, not, List, [], ◌∷◌, length, set, replicate, ltb,
  leb, ◌==◌, if◌then◌else◌, Result, ok, err, invalid_argument, bad_access, and_then,
}
use cipher_trader.Prelude.Int.{ℤ, pos}
use cipher_trader.Double.{Double}
use cipher_trader.Candles.{Candle, Source, hl2, get_candle_source}
use cipher_trader.Indicators.{
  for_range, with_period, slice_candles, shift, entry, is_nan, number, fill, pointwise, last_entry,
  answer,
}

-- The sum and the number of the values of a window, and the vector of the averages
pub record Sliding (D : Type 0) : Type 0 where
  pub sum : D
  pub valid_count : ℕ
  pub result : List D

pub record Lines (D : Type 0) : Type 0 where
  pub osc : List D
  pub change : List D

-- `ACResult`: the two last values, and for `sequential` the vectors
pub record AcResult (D : Type 0) : Type 0 where
  pub osc : D
  pub change : D
  pub osc_vec : List D
  pub change_vec : List D
  pub is_sequential : Bool

pub record Alligator (D : Type 0) : Type 0 where
  pub jaw : List D
  pub teeth : List D
  pub lips : List D

module _ {D : Type 0} (d : Double D) (of_int : ℤ → D) (nan : D) where
  abbrev pub valid : List D → ℕ → Bool
  valid arr i = not (is_nan d (entry nan arr i))

  -- A valid value is added to the sum of the first window.
  abbrev pub add_valid : List D → ℕ → Sliding D → Sliding D
  add_valid arr i s =
      if valid arr i
      then record s { sum = d.add s.sum (entry nan arr i); valid_count = s.valid_count + 1 }
      else s

  -- An average is written where there are valid values.
  abbrev pub write_average : ℕ → Sliding D → Sliding D
  write_average i s =
      if ltb 0 s.valid_count
      then record s { result = set s.result i (d.div s.sum (number of_int s.valid_count)) }
      else s

  -- The oldest value leaves the window. The count is lowered after it is raised: nothing reads it in between, and it
  -- does not become negative.
  abbrev pub slid : List D → ℕ → ℕ → Sliding D → Sliding D
  slid arr period i s =
      let old = i - period in
      let gone = if valid arr old then d.sub s.sum (entry nan arr old) else s.sum in
      let moved = add_valid arr i (record s { sum = gone }) in
      record moved {
        valid_count = if valid arr old then moved.valid_count - 1 else moved.valid_count;
      }

  abbrev pub slide : List D → ℕ → ℕ → Sliding D → Sliding D
  slide arr period i s = write_average i (slid arr period i s)

  unfoldable pub sma : List D → ℕ → List D
  sma arr period =
      let empty : Sliding D = record {
        sum = d.nought;
        valid_count = 0;
        result = replicate (length arr) nan;
      } in
      let first = write_average (period - 1) (for_range period 0 (add_valid arr) empty) in
      if ltb (length arr) period
      then replicate (length arr) nan
      else (for_range (length arr - period) period (slide arr period) first).result

  unfoldable pub momentum : List D → ℕ → List D
  momentum arr period =
      if ltb (length arr) 2
      then replicate (length arr) nan
      else fill period (λ i r. d.sub (entry nan arr i) (entry nan arr (i - period)))
          (replicate (length arr) nan)

  -- `SMA`, where every value counts
  abbrev pub slide_sum : List D → ℕ → ℕ → Sliding D → Sliding D
  slide_sum source period i s =
      let sum = d.sub (d.add s.sum (entry nan source i)) (entry nan source (i - period)) in
      record s { sum = sum; result = set s.result i (d.div sum (number of_int period)) }

  abbrev pub first_sum : List D → ℕ → D
  first_sum source period = for_range period 0 (λ i sum. d.add sum (entry nan source i)) d.nought

  abbrev pub averages : List D → ℕ → List D
  averages source period =
      let sum = first_sum source period in
      let first : Sliding D = record {
        sum = sum;
        valid_count = period;
        result =
            set (replicate (length source) nan) (period - 1) (d.div sum (number of_int period));
      } in
      (for_range (length source - period) period (slide_sum source period) first).result

  unfoldable pub checked_sma : List D → ℤ → Bool → Result (List D)
  checked_sma source period sequential = with_period period λ p.
      if ltb (length source) p
      then err invalid_argument
      else ok (answer nan sequential (averages source p))

  -- `Momentum`
  unfoldable pub step_momentum : List D → List D
  step_momentum source =
      if ltb 1 (length source)
      then fill 1 (λ i r. d.sub (entry nan source i) (entry nan source (i - 1)))
          (replicate (length source) nan)
      else replicate (length source) nan

  abbrev smoothed : D → D → List D → ℕ → List D → D
  smoothed alpha beta values i r =
      d.add (d.mul alpha (entry nan values i)) (d.mul beta (entry nan r (i - 1)))

  -- The vectors that it is called with are not empty.
  unfoldable pub calculate_ema : List D → ℕ → List D
  calculate_ema values period =
      let alpha = d.div (number of_int 2) (d.add (number of_int period) d.one) in
      let beta = d.sub d.one alpha in
      fill 1 (smoothed alpha beta values)
        (set (replicate (length values) d.nought) 0 (entry nan values 0))

  unfoldable pub wilder_smooth : List D → ℕ → List D
  wilder_smooth arr period =
      let sum = for_range period 1 (λ i sum. d.add sum (entry nan arr i)) d.nought in
      let zeros = replicate (length arr) d.nought in
      if leb (length arr) period
      then zeros
      else fill (period + 1)
          (λ i r.
            let before = entry nan r (i - 1) in
            d.add (d.sub before (d.div before (number of_int period))) (entry nan arr i))
          (set zeros period sum)

  unfoldable pub smma : List D → ℤ → Result (List D)
  smma source length_of = with_period length_of λ n.
      let total = first_sum source (min n (length source)) in
      let init_val = d.div total (number of_int n) in
      let alpha = d.div d.one (number of_int n) in
      let beta = d.sub d.one alpha in
      let start = d.add (d.mul alpha (entry nan source 0)) (d.mul init_val beta) in
      if length source == 0
      then err bad_access
      else ok
          (fill 1 (smoothed alpha beta source) (set (replicate (length source) d.nought) 0 start))

  module _ (warmup : ℕ) where
    unfoldable pub acosc : List (Candle D) → Bool → Result (AcResult D)
    acosc candles sequential =
        let sliced = slice_candles warmup candles sequential in
        if ltb (length sliced) 34
        then err invalid_argument
        else (and_then (get_candle_source d of_int sliced hl2) λ median.
            let ao = pointwise d.sub (sma median 5) (sma median 34) in
            let ac = pointwise d.sub ao (sma ao 5) in
            let mom_value = momentum ac 1 in
            ok (record {
              osc = last_entry nan ac;
              change = last_entry nan mom_value;
              osc_vec = if sequential then ac else [];
              change_vec = if sequential then mom_value else [];
              is_sequential = sequential;
            }))

    unfoldable pub ao : List (Candle D) → Bool → Result (Lines D)
    ao candles sequential =
        and_then (get_candle_source d of_int (slice_candles warmup candles sequential) hl2)
          λ median. and_then (checked_sma median (pos 5) true) λ sma5.
            and_then (checked_sma median (pos 34) true) λ sma34.
              let oscillator = pointwise d.sub sma5 sma34 in
              ok (record {
                osc = answer nan sequential oscillator;
                change = answer nan sequential (step_momentum oscillator);
              })

    unfoldable pub alligator : List (Candle D) → Source → Bool → Result (Alligator D)
    alligator candles source_type sequential =
        and_then (get_candle_source d of_int (slice_candles warmup candles sequential) source_type)
          λ source. and_then (smma source (pos 13)) λ jaw_base.
            and_then (smma source (pos 8)) λ teeth_base. and_then (smma source (pos 5)) λ lips_base.
              ok (record {
                jaw = answer nan sequential (shift jaw_base (pos 8) nan);
                teeth = answer nan sequential (shift teeth_base (pos 5) nan);
                lips = answer nan sequential (shift lips_base (pos 3) nan);
              })

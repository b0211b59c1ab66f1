-- ===== src/Indicators/Direction.antt =====
-- src/Indicator.cpp: `ADX`, `calculateADXR` and `ADXR`, of the strength of a trend
use cipher_trader.Prelude.{
  ℕ, ◌+◌, ◌-◌, ◌*◌, Bool, ◌&&◌, List, length, set, replicate, leb, if◌then◌else◌, Result, ok, err,
  invalid_argument, and_then,
}
use cipher_trader.Prelude.Int.{ℤ}
use cipher_trader.Double.{Double}
use cipher_trader.Candles.{Candle, high_source, low_source, close_source, larger, get_candle_source}
use cipher_trader.Indicators.{for_range, with_period, slice_candles, entry, number, fill, answer}
use cipher_trader.Indicators.Averages.{wilder_smooth}

module _ {D : Type 0} (d : Double D) (of_int : ℤ → D) (nan epsilon : D) where
  abbrev zeros : ℕ → List D
  zeros size = replicate size d.nought

  abbrev pub true_range : List D → List D → List D → ℕ → D
  true_range high low close i =
      let hl = d.sub (entry nan high i) (entry nan low i) in
      let hc = d.abs (d.sub (entry nan high i) (entry nan close (i - 1))) in
      let lc = d.abs (d.sub (entry nan low i) (entry nan close (i - 1))) in
      larger d of_int (larger d of_int hl hc) lc

  -- A move that is larger than the opposite one, and above zero
  abbrev pub move_over : D → D → D
  move_over move other = if d.lt other move && d.lt d.nought move then move else d.nought

  abbrev pub up_move : List D → ℕ → D
  up_move high i = d.sub (entry nan high i) (entry nan high (i - 1))

  abbrev pub down_move : List D → ℕ → D
  down_move low i = d.sub (entry nan low (i - 1)) (entry nan low i)

  unfoldable pub plus_dm : List D → List D → List D
  plus_dm high low =
      fill 1 (λ i r. move_over (up_move high i) (down_move low i)) (zeros (length high))

  unfoldable pub minus_dm : List D → List D → List D
  minus_dm high low =
      fill 1 (λ i r. move_over (down_move low i) (up_move high i)) (zeros (length high))

  -- The loop of `ADX` over the two directional indices, where the range is above epsilon
  abbrev pub directional : List D → List D → ℕ → D
  directional dm tr i =
      if d.lt epsilon (entry nan tr i)
      then d.div (d.mul (number of_int 100) (entry nan dm i)) (entry nan tr i)
      else d.nought

  abbrev pub spread : D → D → D
  spread plus minus =
      let sum = d.add plus minus in
      if d.lt epsilon sum
      then d.div (d.mul (number of_int 100) (d.abs (d.sub plus minus))) sum
      else d.nought

  abbrev pub dx_at : List D → List D → List D → ℕ → D
  dx_at plus minus tr i =
      if d.lt epsilon (entry nan tr i)
      then spread (directional plus tr i) (directional minus tr i)
      else d.nought

  -- The average of the first values, then the recurrence
  abbrev pub adx_line : List D → ℕ → List D
  adx_line dx period =
      let start = period * 2 in
      let sum = for_range period period (λ i sum. d.add sum (entry nan dx i)) d.nought in
      fill (start + 1)
        (λ i r.
          d.div (d.add (d.mul (entry nan r (i - 1)) (number of_int (period - 1))) (entry nan dx i))
            (number of_int period))
        (set (zeros (length dx)) start (d.div sum (number of_int period)))

  abbrev with_prices :
      ℕ → List (Candle D) → ℤ → Bool → (ℕ → List D → List D → List D → List D) → Result (List D)
  with_prices warmup candles period sequential line = with_period period λ p.
      let sliced = slice_candles warmup candles sequential in
      if leb (length sliced) (p * 2)
      then err invalid_argument
      else (and_then (get_candle_source d of_int sliced high_source) λ high.
          and_then (get_candle_source d of_int sliced low_source) λ low.
            and_then (get_candle_source d of_int sliced close_source)
              λ close. ok (answer nan sequential (line p high low close)))

  unfoldable pub adx : ℕ → List (Candle D) → ℤ → Bool → Result (List D)
  adx warmup candles period sequential =
      with_prices warmup candles period sequential λ p high low close.
        let size = length high in
        let tr = fill 1 (λ i r. true_range high low close i) (zeros size) in
        let tr_smooth = wilder_smooth d of_int nan tr p in
        let plus = wilder_smooth d of_int nan (plus_dm high low) p in
        let minus = wilder_smooth d of_int nan (minus_dm high low) p in
        adx_line (fill p (λ i r. dx_at plus minus tr_smooth i) (zeros size)) p

  -- The smoothing of `calculateADXR` begins with the first value.
  abbrev pub smooth_all : List D → ℕ → List D
  smooth_all v period =
      fill 1
        (λ i r.
          let before = entry nan r (i - 1) in
          d.add (d.sub before (d.div before (number of_int period))) (entry nan v i))
        (set (zeros (length v)) 0 (entry nan v 0))

  abbrev pub ratio : List D → List D → ℕ → D
  ratio dm tr i =
      if d.lt epsilon (entry nan tr i)
      then d.mul (d.div (entry nan dm i) (entry nan tr i)) (number of_int 100)
      else d.nought

  abbrev pub dx_of : D → D → D
  dx_of plus minus =
      let denom = d.add plus minus in
      if d.lt epsilon denom
      then d.mul (d.div (d.abs (d.sub plus minus)) denom) (number of_int 100)
      else d.nought

  -- The mean of the last values up to `i`
  abbrev pub mean_before : List D → ℕ → ℕ → D
  mean_before dx period i =
      d.div (for_range period 0 (λ j sum. d.add sum (entry nan dx (i - j))) d.nought)
        (number of_int period)

  unfoldable pub calculate_adxr : List D → List D → List D → ℕ → List D
  calculate_adxr high low close period =
      let n = length high in
      let tr =
        fill 1 (λ i r. true_range high low close i)
          (set (zeros n) 0 (d.sub (entry nan high 0) (entry nan low 0))) in
      let str = smooth_all tr period in
      let plus = smooth_all (plus_dm high low) period in
      let minus = smooth_all (minus_dm high low) period in
      let dx = fill 0 (λ i r. dx_of (ratio plus str i) (ratio minus str i)) (zeros n) in
      let adx =
        if leb period n
        then fill (period - 1) (λ i r. mean_before dx period i) (zeros n)
        else zeros n in
      fill period
        (λ i r. d.div (d.add (entry nan adx i) (entry nan adx (i - period))) (number of_int 2))
        (zeros n)

  unfoldable pub adxr : ℕ → List (Candle D) → ℤ → Bool → Result (List D)
  adxr warmup candles period sequential =
      with_prices warmup candles period sequential
        λ p high low close. calculate_adxr high low close p

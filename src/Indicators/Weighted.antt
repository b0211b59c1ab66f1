-- ===== src/Indicators/Weighted.antt =====
-- src/Indicator.cpp: `createSlidingWindows` and the two functions `ALMA`, a moving average with the weights of a bell
-- curve. `std::exp` and `blaze::sum` are arguments.
use cipher_trader.Prelude.{
  ℕ, zero, suc, ◌+◌, ◌-◌, Bool, ◌||◌, List, [], ◌∷◌, map, length, set, replicate, ltb, get_or,
  if◌then◌else◌, Result, ok, err, invalid_argument, and_then,
}
use cipher_trader.Prelude.Int.{ℤ}
use cipher_trader.Double.{Double}
use cipher_trader.Candles.{Candle, Source, get_candle_source}
use cipher_trader.Indicators.{for_range, with_period, slice_candles, entry, number, fill, answer}

-- `window_size` values of each window, from the index on where it begins
abbrev pub window_at {ℓ} : {A : Type ℓ} → A → List A → ℕ → ℕ → List A
window_at nan source start zero = []
window_at nan source start (suc n) = get_or source start nan ∷ window_at nan source (start + 1) n

abbrev pub windows_from {ℓ} : {A : Type ℓ} → A → List A → ℕ → ℕ → ℕ → List (List A)
windows_from nan source size start zero = []
windows_from nan source size start (suc n) =
    window_at nan source start size ∷ windows_from nan source size (start + 1) n

unfoldable pub create_sliding_windows {ℓ} : {A : Type ℓ} → A → List A → ℕ → List (List A)
create_sliding_windows nan source window_size =
    if ltb (length source) window_size
    then []
    else windows_from nan source window_size 0 (length source - window_size + 1)

module _ {D : Type 0} (d : Double D) (of_int : ℤ → D) (nan : D) (exp : D → D)
    (sum : List D → D) where
  -- The weight of place `i`, before the weights are divided by their sum
  abbrev pub weight : D → D → ℕ → D
  weight m dss i =
      let apart = d.sub (number of_int i) m in exp (d.div (d.neg (d.mul apart apart)) dss)

  unfoldable pub weights : ℕ → D → D → List D
  weights period sigma offset =
      let m = d.mul offset (number of_int (period - 1)) in
      let s = d.div (number of_int period) sigma in
      let dss = d.mul (d.mul (number of_int 2) s) s in
      let raw = fill 0 (λ i r. weight m dss i) (replicate period d.nought) in
      map (λ w. d.div w (sum raw)) raw

  abbrev pub weighted_sum : List D → List D → ℕ → D
  weighted_sum window by period =
      for_range period 0 (λ j t. d.add t (d.mul (entry nan window j) (entry nan by j))) d.nought

  abbrev pub write_windows : List D → ℕ → ℕ → List (List D) → List D → List D
  write_windows by period i [] result = result
  write_windows by period i (w ∷ ws) result =
      write_windows by period (i + 1) ws (set result (i + period - 1) (weighted_sum w by period))

  unfoldable pub alma : List D → ℤ → D → D → Bool → Result (List D)
  alma source period sigma offset sequential = with_period period λ p.
      let windows = create_sliding_windows nan source p in
      let result =
        write_windows (weights p sigma offset) p 0 windows (replicate (length source) nan) in
      if d.lt sigma d.nought || d.eq sigma d.nought
      then err invalid_argument
      else if d.lt offset d.nought || d.lt d.one offset
      then err invalid_argument
      else if ltb (length source) p
      then err invalid_argument
      else ok (answer nan sequential result)

  unfoldable pub alma_of_candles : ℕ → List (Candle D) → ℤ → D → D → Source → Bool → Result (List D)
  alma_of_candles warmup candles period sigma offset source_type sequential =
      and_then (get_candle_source d of_int (slice_candles warmup candles sequential) source_type)
        λ source. alma source period sigma offset sequential

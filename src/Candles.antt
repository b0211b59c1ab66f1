-- ===== src/Candles.antt =====
-- include/Candle.hpp and src/Candle.cpp: the generation of candles, and `CandlesState`, the candles of
-- each exchange, symbol and timeframe, outside live mode. A candle is a vector of `_COLUMNS_` numbers, here
-- a record; a matrix of candles is the list of them. The random numbers, the conversions between
-- integers and `double`, and `blaze::max`, `blaze::min` and `blaze::sum` of a column are arguments.
pub mod Fake
pub mod Minutes
pub mod Store
use cipher_trader.Prelude.{
  ℕ, zero, suc, ◌+◌, ◌*◌, Bool, true, false, not, ◌&&◌, ◌||◌, Option, none, some, List, [], ◌∷◌,
  map, length, ◌==◌, if◌then◌else◌, Result, ok, err, invalid_argument, bad_access, and_then,
}
use cipher_trader.Prelude.Int.{ℤ, pos}
use cipher_trader.Double.{Double}
use cipher_trader.Timeframes.{Timeframe, convert_timeframe_to_one_minutes}

pub record Candle (D : Type 0) : Type 0 where
  pub timestamp : D
  pub open_price : D
  pub close_price : D
  pub high_price : D
  pub low_price : D
  pub volume : D

-- The vector of a candle, by `_TIMESTAMP_`, `_OPEN_`, `_CLOSE_`, `_HIGH_`, `_LOW_` and `_VOLUME_`
abbrev pub to_row : {D : Type 0} → Candle D → List D
to_row c = c.timestamp ∷ c.open_price ∷ c.close_price ∷ c.high_price ∷ c.low_price ∷ c.volume ∷ []

pub data Source : Type 0 where
  close_source high_source low_source open_source volume_source hl2 hlc3 ohlc4 : Source

module _ {D : Type 0} (d : Double D) (of_int : ℤ → D) where
  -- `std::max` and `std::min`
  abbrev pub larger : D → D → D
  larger a b = if d.lt a b then b else a

  abbrev pub smaller : D → D → D
  smaller a b = if d.lt b a then b else a

  pub last_of : Candle D → List (Candle D) → Candle D
  last_of c [] = c
  last_of c (e ∷ cs) = last_of e cs

  module _ (largest smallest sum : List D → D) where
    -- The candle of a list of candles: the code reads the first row without a test.
    abbrev pub combine : List (Candle D) → Result (Candle D)
    combine [] = err bad_access
    combine (c ∷ cs) = ok (record {
      timestamp = c.timestamp;
      open_price = c.open_price;
      close_price = (last_of c cs).close_price;
      high_price = largest (map (λ e. e.high_price) (c ∷ cs));
      low_price = smallest (map (λ e. e.low_price) (c ∷ cs));
      volume = sum (map (λ e. e.volume) (c ∷ cs));
    })

    unfoldable pub generate_candle_from_one_minutes :
        Timeframe → List (Candle D) → Bool → Result (Candle D)
    unfolding last_of
    generate_candle_from_one_minutes timeframe candles accept_forming_candles =
        and_then (convert_timeframe_to_one_minutes timeframe) λ minutes.
          if not accept_forming_candles && not (length candles == minutes)
          then err invalid_argument
          else combine candles

  -- The length of a timeframe in milliseconds, `minutes * 60'000`
  abbrev pub span : ℕ → D
  span minutes = of_int (pos (minutes * 60000))

  -- `static_cast<int64_t>` is `truncated`.
  unfoldable pub get_next_candle_timestamp : (D → ℤ) → List D → Timeframe → Result ℤ
  get_next_candle_timestamp truncated [] timeframe = err invalid_argument
  get_next_candle_timestamp truncated (t ∷ _) timeframe =
      and_then (convert_timeframe_to_one_minutes timeframe)
        λ minutes. ok (truncated (d.add t (span minutes)))

  unfoldable pub generate_empty_candle_from_previous_candle :
      Candle D → Timeframe → Result (Candle D)
  generate_empty_candle_from_previous_candle c timeframe =
      and_then (convert_timeframe_to_one_minutes timeframe) λ minutes. ok (record {
        timestamp = d.add c.timestamp (span minutes);
        open_price = c.close_price;
        close_price = c.close_price;
        high_price = c.close_price;
        low_price = c.close_price;
        volume = d.nought;
      })

  abbrev source_of : Source → Candle D → D
  source_of close_source c = c.close_price
  source_of high_source c = c.high_price
  source_of low_source c = c.low_price
  source_of open_source c = c.open_price
  source_of volume_source c = c.volume
  source_of hl2 c = d.div (d.add c.high_price c.low_price) (of_int (pos 2))
  source_of hlc3 c = d.div (d.add (d.add c.high_price c.low_price) c.close_price) (of_int (pos 3))
  source_of ohlc4 c =
      d.div (d.add (d.add (d.add c.open_price c.high_price) c.low_price) c.close_price)
        (of_int (pos 4))

  unfoldable pub get_candle_source : List (Candle D) → Source → Result (List D)
  get_candle_source [] source = err invalid_argument
  get_candle_source (c ∷ cs) source = ok (map (source_of source) (c ∷ cs))

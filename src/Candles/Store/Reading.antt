-- ===== src/Candles/Store/Reading.antt =====
-- src/Candle.cpp: the reads of `CandlesState`, which make up for the candle of a timeframe that is still
-- forming, and `addMultiple1MinCandles`. `of_row` reads a row as a candle.
pub mod Forming
use cipher_trader.Prelude.{
  ℕ, ◌+◌, ◌-◌, ◌%◌, Bool, true, false, not, ◌&&◌, ◌||◌, Option, none, some, List, [], ◌∷◌, ◌++◌,
  ◌==◌, leb, if◌then◌else◌, Text, Result, ok, err, invalid_argument, bad_access, runtime_error,
  out_of_range, and_then, or_fail, M, get_elem?,
}
use cipher_trader.Prelude.Int.{ℤ, pos, negsuc, ◌-ℤ◌}
use cipher_trader.Prelude.Dict.{insert, lookup, at}
use cipher_trader.Double.{Double}
use cipher_trader.Blaze.{Blaze}
use cipher_trader.DynamicArray.{
  DynamicArray, append_multiple, row, rows, negate, slice_start, slice_stop,
}
use cipher_trader.Enums.{ExchangeName}
use cipher_trader.Timeframes.{Timeframe, minute_1, convert_timeframe_to_one_minutes}
use cipher_trader.Candles.{Candle, to_row, generate_candle_from_one_minutes}
use cipher_trader.Candles.Store.{CandlesState, Array, State, key, is_minute_1, stamp, row_stamp}

abbrev of_row : {D : Type 0} → List D → Result (Candle D)
of_row (t ∷ o ∷ c ∷ h ∷ l ∷ v ∷ []) = ok (record {
  timestamp = t;
  open_price = o;
  close_price = c;
  high_price = h;
  low_price = l;
  volume = v;
})
of_row _ = err bad_access

abbrev of_rows : {D : Type 0} → List (List D) → Result (List (Candle D))
of_rows [] = ok []
of_rows (line ∷ lines) = and_then (of_row line) λ c. and_then (of_rows lines) λ cs. ok (c ∷ cs)

module _ {D : Type 0} (d : Double D) (b : Blaze D) (of_int : ℤ → D)
    (largest smallest sum : List D → D) where
  -- How many one-minute candles are in the candle that is forming
  unfoldable pub forming_estimation : ExchangeName → Text → Timeframe → State d b → Result ℕ
  forming_estimation name symbol timeframe s =
      and_then (convert_timeframe_to_one_minutes timeframe) λ required.
        and_then (at (key d b name symbol minute_1) s.storage) λ short. ok (short.count % required)

  -- The candle of the rows of an array between two indices, still forming
  abbrev formed : Timeframe → ℤ → ℤ → Array d b → Result (Candle D)
  formed timeframe start stop a = and_then (rows b start stop a) λ lines.
      and_then (of_rows lines)
        λ cs. generate_candle_from_one_minutes d of_int largest smallest sum timeframe cs true

  -- All rows of the array, or none
  abbrev all_rows : Array d b → Result (List (List D))
  all_rows a = if a.count == 0 then ok [] else rows b (pos 0) (pos a.count) a

  -- `longCount` is the number of short candles, and `shortCount` that of long ones.
  abbrev with_forming : Bool → Timeframe → ℕ → Array d b → Array d b → Result (List (List D))
  with_forming live timeframe diff short long =
      let long_count = short.count in
      let short_count = long.count in
      let stored = rows b (pos 0) (pos long_count) long in
      let same_time =
        and_then (row_stamp d b (pos long_count -ℤ pos 1) long)
          λ t. and_then (row_stamp d b (pos short_count -ℤ pos diff) short) λ u. ok (d.eq t u) in
      let extended = and_then stored λ lines.
        and_then (formed timeframe (pos short_count -ℤ pos diff) (pos short_count) short)
          λ c. ok (lines ++ (to_row c ∷ [])) in
      if diff == 0 && long_count == 0
      then ok []
      else if diff == 0
      then stored
      else and_then same_time λ same. if same then stored else if live then stored else extended

  unfoldable pub get_candles :
      Bool → ExchangeName → Text → Timeframe → State d b → Result (List (List D))
  unfolding forming_estimation
  get_candles live name symbol timeframe s =
      and_then (at (key d b name symbol minute_1) s.storage) λ short.
        and_then (at (key d b name symbol timeframe) s.storage) λ long.
          if is_minute_1 timeframe
          then all_rows short
          else and_then (forming_estimation name symbol timeframe s)
              λ diff. with_forming live timeframe diff short long

  abbrev current_of : Timeframe → ℕ → Array d b → Array d b → Result (List D)
  current_of timeframe diff short long =
      let long_count = short.count in
      let short_count = long.count in
      let forming =
        and_then (formed timeframe (pos short_count -ℤ pos diff) (pos short_count) short)
          λ c. ok (to_row c) in
      if not (diff == 0) then forming else if long_count == 0 then ok [] else row b (negsuc 0) long

  unfoldable pub get_current_candle : ExchangeName → Text → Timeframe → State d b → Result (List D)
  unfolding forming_estimation
  get_current_candle name symbol timeframe s =
      and_then (at (key d b name symbol minute_1) s.storage) λ short.
        and_then (at (key d b name symbol timeframe) s.storage) λ long.
          if is_minute_1 timeframe
          then (if short.count == 0 then ok [] else row b (negsuc 0) short)
          else and_then (forming_estimation name symbol timeframe s)
              λ diff. current_of timeframe diff short long

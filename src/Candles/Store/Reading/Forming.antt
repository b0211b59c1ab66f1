-- ===== src/Candles/Store/Reading/Forming.antt =====
-- Reading candles while a candle is forming.
use cipher_trader.Prelude.{
  ℕ, ◌-◌, ◌<◌, ◌%◌, ◌≡◌, ◌≢◌, refl, Bool, true, false, ◌+◌, some, List, Text, ok, err, out_of_range,
  arith, leb, ltb, ◌==◌, Bool-cases, inl, inr,
}
use cipher_trader.Prelude.Int.{ℤ, pos, ◌-ℤ◌}
use cipher_trader.Prelude.Dict.{lookup}
use cipher_trader.Double.{Double}
use cipher_trader.Blaze.{Blaze}
use cipher_trader.DynamicArray.{row}
use cipher_trader.Enums.{ExchangeName}
use cipher_trader.Timeframes.{Timeframe, minute_1, convert_timeframe_to_one_minutes}
use cipher_trader.Candles.Store.{Array, State, key, is_minute_1, row_stamp}
use cipher_trader.Candles.Store.Reading.{get_candles, forming_estimation}

module _ {D : Type 0} (d : Double D) (b : Blaze D) (of_int : ℤ → D)
    (largest smallest sum : List D → D) where
  missing_row :
      (a : Array d b) (m : ℕ) → a.count < m → row_stamp d b (pos m -ℤ pos 1) a ≡ err out_of_range
  unfolding row ◌-ℤ◌
  missing_row a m h = elim (Bool-cases (a.count == 0)) [
    | inl z ↦ rw z refl
    | inr p ↦
        let low : leb (0 + 1) (m + 0) ≡ true = ground (arith, h) in
        let past : ltb (m + 0 - (0 + 1)) a.count ≡ false = ground (arith, h) in
        rw (p, low, past) refl
  ]

  -- `getCandles` of a timeframe above a minute, whose candle is forming: while there are more candles
  -- of a minute than of the timeframe, it throws, in each mode of the program. (It looks for the last
  -- long candle at the number of short ones.)
  pub forming_candles_unreadable :
      (live : Bool) (name : ExchangeName) (symbol : Text) (timeframe : Timeframe) (s : State d b)
      (short long : Array d b) (n : ℕ)
      → is_minute_1 timeframe ≡ false
      → lookup (key d b name symbol minute_1) s.storage ≡ some short
      → lookup (key d b name symbol timeframe) s.storage ≡ some long
      → convert_timeframe_to_one_minutes timeframe ≡ ok n
      → short.count % n ≢ 0
      → long.count < short.count
      → get_candles d b of_int largest smallest sum live name symbol timeframe s ≡ err out_of_range
  unfolding get_candles forming_estimation
  forming_candles_unreadable live name symbol timeframe s short long n m h k c f l =
      let forming : (short.count % n == 0) ≡ false = ground (arith, f) in
      let unread = missing_row long short.count l in rw (h, k, m, c, forming, unread) refl

-- ===== src/Candles/Store.antt =====
-- src/Candle.cpp: `CandlesState` outside live mode, where a new candle changes the store only. Routes are
-- given by their exchanges and symbols; the mode of the program and the settings are arguments.
pub mod Placing
pub mod Reading
pub mod Bulk
use cipher_trader.Prelude.{
  ℕ, zero, suc, ◌+◌, ◌-◌, ◌*◌, ◌/◌, ◌%◌, max, Bool, true, false, not, ◌&&◌, ◌||◌, Option, none,
  some, List, [], ◌∷◌, ◌++◌, length, get_elem?, ltb, leb, ◌==◌, if◌then◌else◌, Text, String, Result,
  ok, err, invalid_argument, bad_access, runtime_error, out_of_range, and_then, or_fail, M, ◌>>◌,
  ◌>>=◌, pure, throw, map,
}
use cipher_trader.Prelude.Int.{ℤ, pos, negsuc, ◌-ℤ◌}
use cipher_trader.Prelude.Dict.{Dict, insert, lookup, at, assign_at}
use cipher_trader.Double.{Double}
use cipher_trader.Blaze.{Blaze}
use cipher_trader.DynamicArray
use cipher_trader.DynamicArray.{
  DynamicArray, append, append_multiple, row, rows, assign_row, negate, slice_start, slice_stop,
  construct,
}
use cipher_trader.Enums.{ExchangeName}
use cipher_trader.Timeframes.{Timeframe, minute_1, to_timeframe, convert_timeframe_to_one_minutes}
use cipher_trader.Helper.Symbols.{make_key}
use cipher_trader.Candles.{Candle, to_row, generate_candle_from_one_minutes}

pub record CandlesState (Mat : Type 0) : Type 0 where
  pub storage : Dict (DynamicArray Mat)
  pub are_all_initiated : Bool
  pub initiated_pairs : Dict Bool

abbrev pub is_minute_1 : Timeframe → Bool
is_minute_1 minute_1 = true
is_minute_1 _ = false

abbrev all_true : Dict Bool → Dict Bool
all_true m = map (λ e. (e.0, true)) m

module _ {D : Type 0} (d : Double D) (b : Blaze D) where
  abbrev pub State : Type 0
  State = CandlesState b.Matrix

  abbrev pub Array : Type 0
  Array = DynamicArray b.Matrix

  abbrev pub key : ExchangeName → Text → Timeframe → Text
  key name symbol timeframe = make_key name symbol (some timeframe)

  unfoldable pub reset : State → State
  reset s = record { storage = []; are_all_initiated = false; initiated_pairs = [] }

  abbrev assigned : State → Result (Dict Array) → Result (Unit {0}) × State
  assigned s (err e) = (err e, s)
  assigned s (ok m) = (ok tt, record s { storage = m })

  -- `storage_.at(key) = …`, with an array of candles
  abbrev assign_array : b.Matrix → ℕ → Text → M State (Unit {0})
  assign_array empty size k s = assigned s (assign_at k (construct b empty size 6 none) s.storage)

  -- The loop of `init` over the timeframes
  pub init_timeframes : b.Matrix → ℕ → ExchangeName → Text → List String → M State (Unit {0})
  init_timeframes empty bucket_size name symbol [] s = (ok tt, s)
  init_timeframes empty bucket_size name symbol (t ∷ ts) s =
      let rest = init_timeframes empty bucket_size name symbol ts in
      elim (to_timeframe t) [
        | err e ↦ (err e, s)
        | ok timeframe ↦
            if is_minute_1 timeframe
            then rest s
            else elim (convert_timeframe_to_one_minutes timeframe) [
              | err e ↦ (err e, s)
              | ok minutes ↦
                  (assign_array empty (bucket_size / minutes + 1) (key name symbol timeframe)
                      >> rest)
                    s
            ]
      ]

  pub init_routes : b.Matrix → ℕ → List String → List (ExchangeName × Text) → M State (Unit {0})
  unfolding init_timeframes
  init_routes empty bucket_size ts [] s = (ok tt, s)
  init_routes empty bucket_size ts ((name, symbol) ∷ routes) s =
      (assign_array empty bucket_size (key name symbol minute_1)
          >> init_timeframes empty bucket_size name symbol ts
          >> init_routes empty bucket_size ts routes)
        s

  unfoldable pub init :
      b.Matrix → ℕ → List String → Result (List (ExchangeName × Text)) → M State (Unit {0})
  unfolding reset init_routes
  init empty bucket_size ts (err e) s = (err e, reset s)
  init empty bucket_size ts (ok routes) s = init_routes empty bucket_size ts routes (reset s)

  unfoldable pub mark_all_as_initiated : State → State
  mark_all_as_initiated s = record s {
    initiated_pairs = all_true s.initiated_pairs;
    are_all_initiated = true;
  }

  -- `row[_TIMESTAMP_]`
  abbrev pub stamp : List D → Result D
  stamp line = or_fail (get_elem? line 0) bad_access

  abbrev pub row_stamp : ℤ → Array → Result D
  row_stamp i a = and_then (row b i a) stamp

  abbrev reading : {A : Type 0} → (Array → Result A) → M Array A
  reading f a = (f a, a)

  -- The loop over old candles: `row(-i)`, from `row(0)` on
  pub update_previous : ℕ → ℕ → Candle D → M Array (Unit {0})
  update_previous zero i c a = (ok tt, a)
  update_previous (suc n) i c a =
      let rest = update_previous n (i + 1) c a in
      elim (row_stamp (negate i) a) [
        | err e ↦ (err e, a)
        | ok t ↦ if d.eq c.timestamp t then assign_row b (negate i) (to_row c) a else rest
      ]

  -- What `addCandle` does after it has read the time of the last candle
  abbrev pub place : Candle D → D → M Array (Unit {0})
  place c last a =
      if d.lt last c.timestamp
      then append b (to_row c) a
      else if d.eq c.timestamp last
      then assign_row b (negsuc 0) (to_row c) a
      else update_previous (max (a.count - 1) 20) 0 c a

  abbrev pub append_if_empty : Candle D → M Array (Unit {0})
  append_if_empty c a = if a.count == 0 then append b (to_row c) a else (ok tt, a)

  unfoldable pub add_to_array : Candle D → M Array (Unit {0})
  unfolding update_previous
  add_to_array c = append_if_empty c >> (reading (row_stamp (negsuc 0)) >>= place c)

  abbrev pub put : Text → State → Result (Unit {0}) × Array → Result (Unit {0}) × State
  put k s (r, a) = (r, record s { storage = insert k a s.storage })

  -- `addCandle` outside live mode, where neither orders are simulated nor longer candles generated
  unfoldable pub add_candle : ExchangeName → Text → Timeframe → Candle D → M State (Unit {0})
  unfolding add_to_array
  add_candle name symbol timeframe c s =
      if d.eq c.timestamp d.nought
      then (ok tt, s)
      else elim (lookup (key name symbol timeframe) s.storage) [
        | none ↦ (err out_of_range, s)
        | some a ↦ put (key name symbol timeframe) s (add_to_array c a)
      ]

  pub add_candles : ExchangeName → Text → Timeframe → List (Candle D) → M State (Unit {0})
  unfolding add_candle
  add_candles name symbol timeframe [] s = (ok tt, s)
  add_candles name symbol timeframe (c ∷ cs) s =
      (add_candle name symbol timeframe c >> add_candles name symbol timeframe cs) s

-- ===== src/Tests/Candles.antt =====
-- The theorems on candles, at candles of whole numbers.
use cipher_trader.Prelude.{
  ℕ, ◌≡◌, ◌≢◌, refl, true, false, if◌then◌else◌, none, some, List, [], ◌∷◌, length, Text, codes, ok,
  err, invalid_argument, arith, ◌⊎◌, All, All-map,
}
use cipher_trader.Prelude.Dict.{lookup}
use cipher_trader.Prelude.Int.{pos, negsuc}
use cipher_trader.Double.Scaled.{Scaled, whole, scaled}
use cipher_trader.DynamicArray.{DynamicArray, row}
use cipher_trader.Enums.{sandbox, exchange_name_to_string}
use cipher_trader.Timeframes.{minute_1, minute_3, to_string, convert_timeframe_to_one_minutes}
use cipher_trader.Helper.Symbols.{make_key}
use cipher_trader.Candles.{Candle, to_row, generate_candle_from_one_minutes}
use cipher_trader.Candles.Minutes.{IsOrder, IsExtreme, Proper, Made, leq, minutes_make_candle}
use cipher_trader.Candles.Store.{CandlesState, key, row_stamp}
use cipher_trader.Candles.Store.Placing.{Series}
use cipher_trader.Tests.Grid.{Grid, grid_of-IsBlaze}
use cipher_trader.Tests.Stores.{table, table-IsBlaze, of_int}

abbrev a_candle : ℕ → ℕ → ℕ → Candle Scaled
a_candle timestamp low high = record {
  timestamp = whole (pos timestamp);
  open_price = whole (pos low);
  close_price = whole (pos high);
  high_price = whole (pos high);
  low_price = whole (pos low);
  volume = whole (pos 1);
}

abbrev series : DynamicArray (Grid Scaled)
series = record {
  count = 2;
  contents = record {
    wide = 6;
    lines =
        to_row (a_candle 60000 3 5) ∷ to_row (a_candle 120000 4 9) ∷ to_row (a_candle 0 0 0) ∷ [];
  };
  bucket_size = 3;
  width = 6;
  drop_at = none;
}

abbrev no_candles : DynamicArray (Grid Scaled)
no_candles = record series { count = 0 }

abbrev store : CandlesState (Grid Scaled)
store = record {
  storage = (codes "Sandbox-BTC-USDT-1m", series) ∷ (codes "Sandbox-BTC-USDT-3m", no_candles) ∷ [];
  are_all_initiated = false;
  initiated_pairs = [];
}

abbrev symbol : Text
symbol = codes "BTC-USDT"

series-Series : Series scaled table table-IsBlaze series
unfolding table-IsBlaze grid_of-IsBlaze
series-Series = record {
  inv = record { fits = omega arith; wide = refl; bucket = omega arith };
  six = refl;
  room = omega arith;
  all = refl;
}

store-series : lookup (key scaled table sandbox symbol minute_1) store.storage ≡ some series
unfolding lookup make_key exchange_name_to_string to_string
store-series = refl

store-no_candles : lookup (key scaled table sandbox symbol minute_3) store.storage ≡ some no_candles
unfolding lookup make_key exchange_name_to_string to_string
store-no_candles = refl

series-last : row_stamp scaled table (negsuc 0) series ≡ ok (whole (pos 120000))
unfolding row
series-last = refl

abbrev biggest : List Scaled → Scaled
biggest [] = whole (pos 0)
biggest (x ∷ []) = x
biggest (x ∷ y ∷ ys) = if scaled.lt x (biggest (y ∷ ys)) then biggest (y ∷ ys) else x

abbrev least : List Scaled → Scaled
least [] = whole (pos 0)
least (x ∷ []) = x
least (x ∷ y ∷ ys) = if scaled.lt (least (y ∷ ys)) x then least (y ∷ ys) else x

abbrev total : List Scaled → Scaled
total [] = whole (pos 0)
total (x ∷ xs) = scaled.add x (total xs)

scaled-IsOrder : IsOrder scaled
unfolding scaled
scaled-IsOrder = record {
  leq-trans = λ x y z h k. ground (arith, h, k);
  leq-left = λ x y h. ground (arith, h);
  leq-right = λ x y h. ground (arith, h);
}

pick_larger :
    (x m : Scaled)
    → leq scaled x x ≡ true
    → leq scaled m m ≡ true
    → (leq scaled x (if scaled.lt x m then m else x) ≡ true)
      × (leq scaled m (if scaled.lt x m then m else x) ≡ true)
unfolding scaled
pick_larger x m h k = ground (arith, h, k)

pick_smaller :
    (x m : Scaled)
    → leq scaled x x ≡ true
    → leq scaled m m ≡ true
    → (leq scaled (if scaled.lt m x then m else x) x ≡ true)
      × (leq scaled (if scaled.lt m x then m else x) m ≡ true)
unfolding scaled
pick_smaller x m h k = ground (arith, h, k)

biggest-above :
    (x : Scaled) (xs : List Scaled)
    → All (λ y. leq scaled y y ≡ true) (x ∷ xs)
    → (leq scaled (biggest (x ∷ xs)) (biggest (x ∷ xs)) ≡ true)
      × All (λ y. leq scaled y (biggest (x ∷ xs)) ≡ true) (x ∷ xs)
biggest-above x [] (h, _) = (h, (h, tt))
biggest-above x (y ∷ ys) (h, hs) =
    let (m, ms) = biggest-above y ys hs in
    let (p, q) = pick_larger x (biggest (y ∷ ys)) h m in
    (
      scaled-IsOrder.leq-right x (biggest (x ∷ y ∷ ys)) p,
      (
        p,
        All-map (λ z. leq scaled z (biggest (y ∷ ys)) ≡ true)
            (λ z. leq scaled z (biggest (x ∷ y ∷ ys)) ≡ true) (y ∷ ys)
            (λ z l. scaled-IsOrder.leq-trans z (biggest (y ∷ ys)) (biggest (x ∷ y ∷ ys)) l q) ms,
      ),
    )

least-below :
    (x : Scaled) (xs : List Scaled)
    → All (λ y. leq scaled y y ≡ true) (x ∷ xs)
    → (leq scaled (least (x ∷ xs)) (least (x ∷ xs)) ≡ true)
      × All (λ y. leq scaled (least (x ∷ xs)) y ≡ true) (x ∷ xs)
least-below x [] (h, _) = (h, (h, tt))
least-below x (y ∷ ys) (h, hs) =
    let (m, ms) = least-below y ys hs in
    let (p, q) = pick_smaller x (least (y ∷ ys)) h m in
    (
      scaled-IsOrder.leq-left (least (x ∷ y ∷ ys)) x p,
      (
        p,
        All-map (λ z. leq scaled (least (y ∷ ys)) z ≡ true)
            (λ z. leq scaled (least (x ∷ y ∷ ys)) z ≡ true) (y ∷ ys)
            (λ z l. scaled-IsOrder.leq-trans (least (x ∷ y ∷ ys)) (least (y ∷ ys)) z q l) ms,
      ),
    )

biggest-IsExtreme : IsExtreme scaled biggest least
biggest-IsExtreme = record { largest-above = above; smallest-below = below }
  where
    above :
        (xs : List Scaled)
        → All (λ x. leq scaled x x ≡ true) xs
        → All (λ x. leq scaled x (biggest xs) ≡ true) xs
    above [] h = tt
    above (x ∷ xs) h = (biggest-above x xs h).1

    below :
        (xs : List Scaled)
        → All (λ x. leq scaled x x ≡ true) xs
        → All (λ x. leq scaled (least xs) x ≡ true) xs
    below [] h = tt
    below (x ∷ xs) h = (least-below x xs h).1

minute_3-three : convert_timeframe_to_one_minutes minute_3 ≡ ok 3
unfolding convert_timeframe_to_one_minutes
minute_3-three = refl

a_candle-Proper : (t : ℕ) → Proper scaled (a_candle t 3 5)
unfolding scaled
a_candle-Proper t = record {
  low-open = refl;
  open-high = refl;
  low-close = refl;
  close-high = refl;
}

abbrev more_candles : List (Candle Scaled)
more_candles = a_candle 120000 3 5 ∷ a_candle 180000 3 5 ∷ []

minutes_make_candle_example :
    (((false ≡ true) ⊎ (length (a_candle 60000 3 5 ∷ more_candles) ≡ 3))
      × ((e : Candle Scaled) × (generate_candle_from_one_minutes scaled of_int biggest least total
              minute_3
              (a_candle 60000 3 5 ∷ more_candles)
              false
            ≡ ok e)
          × Made scaled of_int biggest least total scaled-IsOrder biggest-IsExtreme
              (a_candle 60000 3 5)
              more_candles
              e))
    ⊎ ((false ≡ false)
        × (length (a_candle 60000 3 5 ∷ more_candles) ≢ 3)
        × (generate_candle_from_one_minutes scaled of_int biggest least total minute_3
              (a_candle 60000 3 5 ∷ more_candles)
              false
            ≡ err invalid_argument))
minutes_make_candle_example =
    minutes_make_candle scaled of_int biggest least total scaled-IsOrder biggest-IsExtreme minute_3
      3 (a_candle 60000 3 5) more_candles false minute_3-three
      (a_candle-Proper 60000, (a_candle-Proper 120000, (a_candle-Proper 180000, tt)))

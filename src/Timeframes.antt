-- ===== src/Timeframes.antt =====
-- include/Timeframe.hpp and src/Timeframe.cpp: candle periods, their texts and lengths.
pub mod Facts
use cipher_trader.Prelude.{
  ℕ, Bool, false, ◌||◌, Option, none, some, List, [], ◌∷◌, reverse, String, ◌==◌, if◌then◌else◌,
  ◌*◌, Result, invalid_argument, invalid_timeframe, or_fail,
}
use cipher_trader.Enums.{find}

pub data Timeframe : Type 0 where
  minute_1 minute_3 minute_5 minute_15 minute_30 minute_45 : Timeframe
  hour_1 hour_2 hour_3 hour_4 hour_6 hour_8 hour_12 : Timeframe
  day_1 day_3 week_1 month_1 : Timeframe

-- The underlying value of the enumerator, by which two enumerators are compared.
abbrev pub index : Timeframe → ℕ
index minute_1 = 0
index minute_3 = 1
index minute_5 = 2
index minute_15 = 3
index minute_30 = 4
index minute_45 = 5
index hour_1 = 6
index hour_2 = 7
index hour_3 = 8
index hour_4 = 9
index hour_6 = 10
index hour_8 = 11
index hour_12 = 12
index day_1 = 13
index day_3 = 14
index week_1 = 15
index month_1 = 16

abbrev pub same : Timeframe → Timeframe → Bool
same a b = index a == index b

unfoldable pub to_string : Timeframe → String
to_string minute_1 = "1m"
to_string minute_3 = "3m"
to_string minute_5 = "5m"
to_string minute_15 = "15m"
to_string minute_30 = "30m"
to_string minute_45 = "45m"
to_string hour_1 = "1h"
to_string hour_2 = "2h"
to_string hour_3 = "3h"
to_string hour_4 = "4h"
to_string hour_6 = "6h"
to_string hour_8 = "8h"
to_string hour_12 = "12h"
to_string day_1 = "1D"
to_string day_3 = "3D"
to_string week_1 = "1W"
to_string month_1 = "1M"

abbrev timeframe_map : List (String × Timeframe)
timeframe_map =
    ("1m", minute_1)
    ∷ ("3m", minute_3)
    ∷ ("5m", minute_5)
    ∷ ("15m", minute_15)
    ∷ ("30m", minute_30)
    ∷ ("45m", minute_45)
    ∷ ("1h", hour_1)
    ∷ ("2h", hour_2)
    ∷ ("3h", hour_3)
    ∷ ("4h", hour_4)
    ∷ ("6h", hour_6)
    ∷ ("8h", hour_8)
    ∷ ("12h", hour_12)
    ∷ ("1D", day_1)
    ∷ ("3D", day_3)
    ∷ ("1W", week_1)
    ∷ ("1M", month_1)
    ∷ []

unfoldable pub to_timeframe : String → Result Timeframe
to_timeframe s = or_fail (find s timeframe_map) invalid_argument

abbrev minutes_map : List (Timeframe × ℕ)
minutes_map =
    (minute_1, 1)
    ∷ (minute_3, 3)
    ∷ (minute_5, 5)
    ∷ (minute_15, 15)
    ∷ (minute_30, 30)
    ∷ (minute_45, 45)
    ∷ (hour_1, 60)
    ∷ (hour_2, 60 * 2)
    ∷ (hour_3, 60 * 3)
    ∷ (hour_4, 60 * 4)
    ∷ (hour_6, 60 * 6)
    ∷ (hour_8, 60 * 8)
    ∷ (hour_12, 60 * 12)
    ∷ (day_1, 60 * 24)
    ∷ (day_3, 60 * 24 * 3)
    ∷ (week_1, 60 * 24 * 7)
    ∷ (month_1, 60 * 24 * 30)
    ∷ []

find_minutes : Timeframe → List (Timeframe × ℕ) → Option ℕ
find_minutes t [] = none
find_minutes t ((u, n) ∷ m) = if same u t then some n else find_minutes t m

unfoldable pub convert_timeframe_to_one_minutes : Timeframe → Result ℕ
unfolding find_minutes
convert_timeframe_to_one_minutes t = or_fail (find_minutes t minutes_map) invalid_timeframe

-- Lowest priority first.
abbrev timeframe_priority : List Timeframe
timeframe_priority =
    minute_1 ∷ minute_3 ∷ minute_5 ∷ minute_15 ∷ minute_30 ∷ minute_45 ∷ hour_1 ∷ hour_2 ∷ hour_3
    ∷ hour_4 ∷ hour_6 ∷ hour_8 ∷ hour_12 ∷ day_1 ∷ day_3 ∷ week_1 ∷ month_1 ∷ []

-- `std::find(...) != end()`
unfoldable pub contains : List Timeframe → Timeframe → Bool
contains [] t = false
contains (u ∷ us) t = same u t || contains us t

-- The loop of `maxTimeframe`, over what is left of the priorities.
first_of_list : List Timeframe → List Timeframe → Timeframe
first_of_list [] timeframes = minute_1
first_of_list (t ∷ ts) timeframes = if contains timeframes t then t else first_of_list ts timeframes

pub max_timeframe : List Timeframe → Timeframe
unfolding first_of_list
max_timeframe timeframes = first_of_list (reverse timeframe_priority) timeframes

-- ===== src/Timeframes/Facts.antt =====
-- The texts of src/Timeframe.cpp are read back, the lengths rise, and `maxTimeframe` is a maximum.
use cipher_trader.Prelude.{
  ℕ, ◌≡◌, ◌≤◌, refl, ◌↔◌, true, List, [], String, arith, ok, invalid_argument, or_fail-eq-ok,
}
use cipher_trader.Enums.{find}
use cipher_trader.Enums.RoundTrip.{find-name}
use cipher_trader.Timeframes.{
  Timeframe, minute_1, minute_3, minute_5, minute_15, minute_30, minute_45, hour_1, hour_2, hour_3,
  hour_4, hour_6, hour_8, hour_12, day_1, day_3, week_1, month_1, index, to_string, timeframe_map,
  to_timeframe, convert_timeframe_to_one_minutes, contains, max_timeframe,
}

to_timeframe_back : (t : Timeframe) → to_timeframe (to_string t) ≡ ok t
unfolding to_timeframe to_string
to_timeframe_back minute_1 = refl
to_timeframe_back _ = refl

-- A text is read as a timeframe exactly if it is what the timeframe is printed as.
pub to_timeframe_iff : (s : String) (t : Timeframe) → (to_timeframe s ≡ ok t) ↔ (s ≡ to_string t)
unfolding to_timeframe to_string
to_timeframe_iff s t = (
  λ h.
      find-name to_string s timeframe_map t (assumption refl)
        (or_fail-eq-ok (find s timeframe_map) invalid_argument h),
  λ h. rw h (to_timeframe_back t),
)

-- The length in minutes.
abbrev pub minutes : Timeframe → ℕ
minutes minute_1 = 1
minutes minute_3 = 3
minutes minute_5 = 5
minutes minute_15 = 15
minutes minute_30 = 30
minutes minute_45 = 45
minutes hour_1 = 60
minutes hour_2 = 120
minutes hour_3 = 180
minutes hour_4 = 240
minutes hour_6 = 360
minutes hour_8 = 480
minutes hour_12 = 720
minutes day_1 = 1440
minutes day_3 = 4320
minutes week_1 = 10080
minutes month_1 = 43200

pub convert-ok : (t : Timeframe) → convert_timeframe_to_one_minutes t ≡ ok (minutes t)
unfolding convert_timeframe_to_one_minutes
convert-ok minute_1 = refl
convert-ok _ = refl

le-max_timeframe :
    (t : Timeframe) (ts : List Timeframe)
    → contains ts t ≡ true
    → minutes t ≤ minutes (max_timeframe ts)
unfolding max_timeframe
le-max_timeframe minute_1 ts h = ground arith
le-max_timeframe _ ts h = ground arith

contains-max_timeframe :
    (t : Timeframe) (ts : List Timeframe)
    → contains ts t ≡ true
    → contains ts (max_timeframe ts) ≡ true
unfolding max_timeframe
contains-max_timeframe minute_1 ts h = ground arith
contains-max_timeframe _ ts h = ground arith

-- If `t` occurs in a list of timeframes, then `maxTimeframe` of the list occurs in it too, and both
-- have lengths (the conversion does not throw), that of `t` being at most the other. Of the empty
-- list the maximum is one minute.
pub max_timeframe_greatest :
    (ts : List Timeframe) (t : Timeframe)
    → contains ts t ≡ true
    → (contains ts (max_timeframe ts) ≡ true)
      × ((m : ℕ) × (n : ℕ) × (convert_timeframe_to_one_minutes t ≡ ok m)
          × (convert_timeframe_to_one_minutes (max_timeframe ts) ≡ ok n)
          × (m ≤ n))
      × (max_timeframe [] ≡ minute_1)
unfolding max_timeframe contains
max_timeframe_greatest ts t h = (
  contains-max_timeframe t ts h,
  (
    minutes t,
    minutes (max_timeframe ts),
    convert-ok t,
    convert-ok (max_timeframe ts),
    le-max_timeframe t ts h,
  ),
  refl,
)

minutes-le_iff : (t u : Timeframe) → (minutes t ≤ minutes u) ↔ (index t ≤ index u)
minutes-le_iff minute_1 u = ground arith
minutes-le_iff _ u = ground arith

-- The conversion to minutes never throws, and orders the timeframes as the enumeration does.
pub convert_mono :
    (t u : Timeframe)
    → (m : ℕ) × (n : ℕ) × (convert_timeframe_to_one_minutes t ≡ ok m)
      × (convert_timeframe_to_one_minutes u ≡ ok n)
      × ((m ≤ n) ↔ (index t ≤ index u))
convert_mono t u = (minutes t, minutes u, convert-ok t, convert-ok u, minutes-le_iff t u)

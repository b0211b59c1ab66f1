-- ===== src/Enums/RoundTrip.antt =====
-- The parsers of src/Enum.cpp accept exactly what its printers write.
use text.Mathlib.TextEquality.{eq_iff}
use cipher_trader.Prelude.{
  ◌≡◌, refl, ◌↔◌, some, List, [], ◌∷◌, String, Text, codes, text_eq_iff, map, All, arith, Result,
  ok, invalid_argument, or_fail-eq-ok,
}
use cipher_trader.Enums.{
  OrderSide, buy, sell, PositionType, long, OrderStatus, active, OrderType, market, ExchangeName,
  sandbox, ExchangeType, spot, futures, LeverageMode, cross, isolated, order_side_to_string,
  position_type_to_string, order_status_to_string, order_type_to_string, exchange_name_to_string,
  exchange_type_to_string, leverage_mode_to_string, to_order_side, to_position_type,
  to_order_status, to_order_type, to_exchange_name, to_exchange_type, to_leverage_mode, find,
  exchange_name_map, to_upper,
}

to_order_side_back : (e : OrderSide) → to_order_side (order_side_to_string e) ≡ ok e
unfolding to_order_side order_side_to_string
to_order_side_back buy = refl
to_order_side_back sell = refl

to_order_side-eq-ok :
    (s : String) (e : OrderSide) → to_order_side s ≡ ok e → s ≡ order_side_to_string e
unfolding to_order_side order_side_to_string
to_order_side-eq-ok s e h = ground (arith, eq_iff s "buy", eq_iff s "sell")

to_position_type_back : (e : PositionType) → to_position_type (position_type_to_string e) ≡ ok e
unfolding to_position_type position_type_to_string
to_position_type_back long = refl
to_position_type_back _ = refl

to_position_type-eq-ok :
    (s : String) (e : PositionType) → to_position_type s ≡ ok e → s ≡ position_type_to_string e
unfolding to_position_type position_type_to_string
to_position_type-eq-ok s e h = ground (arith, eq_iff s "short", eq_iff s "long", eq_iff s "close")

to_order_type_back : (e : OrderType) → to_order_type (order_type_to_string e) ≡ ok e
unfolding to_order_type order_type_to_string
to_order_type_back market = refl
to_order_type_back _ = refl

to_order_type-eq-ok :
    (s : String) (e : OrderType) → to_order_type s ≡ ok e → s ≡ order_type_to_string e
unfolding to_order_type order_type_to_string
to_order_type-eq-ok s e h = ground (
  arith,
  eq_iff s "MARKET",
  eq_iff s "LIMIT",
  eq_iff s "STOP",
  eq_iff s "FOK",
  eq_iff s "STOP LIMIT",
)

to_order_status_back : (e : OrderStatus) → to_order_status (order_status_to_string e) ≡ ok e
unfolding to_order_status order_status_to_string
to_order_status_back active = refl
to_order_status_back _ = refl

to_order_status-eq-ok :
    (s : String) (e : OrderStatus) → to_order_status s ≡ ok e → s ≡ order_status_to_string e
unfolding to_order_status order_status_to_string
to_order_status-eq-ok s e h = ground (
  arith,
  eq_iff s "active",
  eq_iff s "canceled",
  eq_iff s "executed",
  eq_iff s "partially_filled",
  eq_iff s "queued",
  eq_iff s "liquidated",
  eq_iff s "rejected",
)

to_exchange_name_back : (e : ExchangeName) → to_exchange_name (exchange_name_to_string e) ≡ ok e
unfolding to_exchange_name exchange_name_to_string
to_exchange_name_back sandbox = refl
to_exchange_name_back _ = refl

pub find-name {ℓ} :
    {E : Type ℓ} (name : E → String) (s : String) (m : List (String × E)) (e : E)
    → All (λ entry. entry.0 ≡ name entry.1) m
    → find s m ≡ some e
    → s ≡ name e
find-name name s [] e a h = cc
find-name name s ((k, e') ∷ m) e a h = ground (arith, eq_iff s k, find-name name s m e a.1)

-- The printers' texts, and no other texts, are read back, each as the value it was printed from.
pub to_order_side_iff :
    (s : String) (e : OrderSide) → (to_order_side s ≡ ok e) ↔ (s ≡ order_side_to_string e)
to_order_side_iff s e = (to_order_side-eq-ok s e, λ h. rw h (to_order_side_back e))

pub to_position_type_iff :
    (s : String) (e : PositionType) → (to_position_type s ≡ ok e) ↔ (s ≡ position_type_to_string e)
to_position_type_iff s e = (to_position_type-eq-ok s e, λ h. rw h (to_position_type_back e))

pub to_order_status_iff :
    (s : String) (e : OrderStatus) → (to_order_status s ≡ ok e) ↔ (s ≡ order_status_to_string e)
to_order_status_iff s e = (to_order_status-eq-ok s e, λ h. rw h (to_order_status_back e))

pub to_order_type_iff :
    (s : String) (e : OrderType) → (to_order_type s ≡ ok e) ↔ (s ≡ order_type_to_string e)
to_order_type_iff s e = (to_order_type-eq-ok s e, λ h. rw h (to_order_type_back e))

pub to_exchange_name_iff :
    (s : String) (e : ExchangeName) → (to_exchange_name s ≡ ok e) ↔ (s ≡ exchange_name_to_string e)
unfolding to_exchange_name exchange_name_to_string
to_exchange_name_iff s e = (
  λ h.
      find-name exchange_name_to_string s exchange_name_map e (assumption refl)
        (or_fail-eq-ok (find s exchange_name_map) invalid_argument h),
  λ h. rw h (to_exchange_name_back e),
)

-- These two ignore the case of the letters.
pub to_exchange_type_iff :
    (s : Text) (e : ExchangeType)
    → (to_exchange_type s ≡ ok e) ↔ (map to_upper s ≡ codes (exchange_type_to_string e))
unfolding to_exchange_type exchange_type_to_string
to_exchange_type_iff s spot = ground (
  arith,
  text_eq_iff (map to_upper s) (codes "SPOT"),
  text_eq_iff (map to_upper s) (codes "FUTURES"),
)
to_exchange_type_iff s futures = ground (
  arith,
  text_eq_iff (map to_upper s) (codes "SPOT"),
  text_eq_iff (map to_upper s) (codes "FUTURES"),
)

pub to_leverage_mode_iff :
    (s : Text) (e : LeverageMode)
    → (to_leverage_mode s ≡ ok e) ↔ (map to_upper s ≡ codes (leverage_mode_to_string e))
unfolding to_leverage_mode leverage_mode_to_string
to_leverage_mode_iff s cross = ground (
  arith,
  text_eq_iff (map to_upper s) (codes "CROSS"),
  text_eq_iff (map to_upper s) (codes "ISOLATED"),
)
to_leverage_mode_iff s isolated = ground (
  arith,
  text_eq_iff (map to_upper s) (codes "CROSS"),
  text_eq_iff (map to_upper s) (codes "ISOLATED"),
)

abbrev Reads : {E : Type 0} → (String → Result E) → (E → String) → Type 0
Reads {E} parse print = (s : String) (e : E) → (parse s ≡ ok e) ↔ (s ≡ print e)

-- The parsers of order sides, position types, order statuses, order types and exchange names accept
-- exactly the texts that the printers write, and read each as the value it was printed from.
pub parsers_invert_printers :
    Reads to_order_side order_side_to_string
    × Reads to_position_type position_type_to_string
    × Reads to_order_status order_status_to_string
    × Reads to_order_type order_type_to_string
    × Reads to_exchange_name exchange_name_to_string
parsers_invert_printers = (
  to_order_side_iff, to_position_type_iff, to_order_status_iff, to_order_type_iff,
  to_exchange_name_iff,
)

abbrev ReadsUpper : {E : Type 0} → (Text → Result E) → (E → String) → Type 0
ReadsUpper {E} parse print =
    (s : Text) (e : E) → (parse s ≡ ok e) ↔ (map to_upper s ≡ codes (print e))

-- The parsers of exchange types and leverage modes accept exactly the texts whose upper-case form is
-- what the printer writes, so they ignore the case of letters.
pub parsers_ignore_case :
    ReadsUpper to_exchange_type exchange_type_to_string
    × ReadsUpper to_leverage_mode leverage_mode_to_string
parsers_ignore_case = (to_exchange_type_iff, to_leverage_mode_iff)

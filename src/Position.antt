-- ===== src/Position.antt =====
-- include/Position.hpp and src/Position.cpp: `Position`. The exchange that a position points to is
-- an interface of the operations that the position calls; the pointer can be null. The live-trading
-- flag and the clock are arguments. The completed trades, which `open()` and `close()` are meant to
-- report to, do not exist in the code yet.
pub mod Moves
pub mod Figures
use cipher_trader.Prelude.{
  ℕ, Bool, true, false, not, ◌&&◌, ◌||◌, Option, none, some, if◌then◌else◌, Text, Result, ok, err,
  Error, null_pointer, empty_position, open_position_error, and_then, M, ◌>>=◌, ◌>>◌, pure, throw,
  modify,
}
use cipher_trader.Double.{Double}
use cipher_trader.Helper.Decimal.{Decimals, add_floats, subtract_floats}
use cipher_trader.Helper.Estimates.{estimate_average_price, estimate_pnl}
use cipher_trader.Helper.Symbols.{get_base_asset}
use cipher_trader.Enums.{
  ExchangeName, ExchangeType, PositionType, spot, futures, long, short, close,
}
use cipher_trader.Order.{Order, is_partially_filled}

pub record Position (D E : Type 0) : Type 0 where
  pub id : Text
  pub entry_price : Option D
  pub exit_price : Option D
  pub current_price : Option D
  pub qty : D
  pub previous_qty : D
  pub opened_at : Option ℕ
  pub closed_at : Option ℕ
  pub mark_price : Option D
  pub funding_rate : Option D
  pub next_funding_timestamp : Option ℕ
  pub liquidation_price : Option D
  pub exchange_name : ExchangeName
  pub exchange : Option E
  pub symbol : Text
  pub strategy : Option Text

pub data Operation : Type 0 where
  set_to add_to subtract_from : Operation

-- What a position calls of its exchange, whose state is `E`; the last two read `getVars()`.
pub record PositionExchange (D E : Type 0) : Type 0 where
  pub exchange_type : E → ExchangeType
  pub fee_rate : E → D
  pub add_realized_pnl : D → M E (Unit {0})
  pub increase_asset_temp_reduced_amount : Text → D → M E (Unit {0})
  pub charge_fee : D → M E (Unit {0})
  pub min_qty_var : Text → E → Option D
  pub min_notional_size : Text → E → D

-- The conversions between `double` and `float`
pub record Casts (D F : Type 0) : Type 0 where
  pub narrow : D → F
  pub widen : F → D

module _ {D F E : Type 0} (d : Double D) (f : Double F) (c : Casts D F) (x : Decimals D)
    (ex : PositionExchange D E) (live : Bool) where
  -- The constructor, without attributes: nothing sets the exchange.
  unfoldable pub construct_position : Text → ExchangeName → Text → Position D E
  construct_position id exchange_name symbol = record {
    id = id;
    entry_price = none;
    exit_price = none;
    current_price = none;
    qty = d.nought;
    previous_qty = d.nought;
    opened_at = none;
    closed_at = none;
    mark_price = none;
    funding_rate = none;
    next_funding_timestamp = none;
    liquidation_price = none;
    exchange_name = exchange_name;
    exchange = none;
    symbol = symbol;
    strategy = none;
  }

  -- A read that can fail, and a call of the exchange
  abbrev ask : {A : Type 0} → (Position D E → Result A) → M (Position D E) A
  ask g p = (g p, p)

  abbrev called : Position D E → Result (Unit {0}) × E → Result (Unit {0}) × Position D E
  called p (r, e) = (r, record p { exchange = some e })

  abbrev call : M E (Unit {0}) → M (Position D E) (Unit {0})
  call m p = elim p.exchange [ none ↦ (err null_pointer, p) | some e ↦ called p (m e) ]

  abbrev pub type_of : Position D E → Result ExchangeType
  type_of p = elim p.exchange [ none ↦ err null_pointer | some e ↦ ok (ex.exchange_type e) ]

  abbrev notional_qty : D → Option D → D
  notional_qty notional none = d.nought
  notional_qty notional (some price) =
      if d.lt d.nought notional then d.div notional price else d.nought

  abbrev spot_min_qty : Position D E → E → D
  spot_min_qty p e = elim (ex.min_qty_var p.symbol e) [
    | some q ↦ q
    | none ↦ notional_qty (ex.min_notional_size p.symbol e) p.current_price
  ]

  abbrev min_qty_on : Position D E → Option E → Result D
  min_qty_on p none = err null_pointer
  min_qty_on p (some e) = elim (ex.exchange_type e) [
    | futures ↦ ok d.nought
    | spot ↦ ok (spot_min_qty p e)
  ]

  unfoldable pub get_min_qty : Position D E → Result D
  get_min_qty p = if live then min_qty_on p p.exchange else ok d.nought

  abbrev pub type_by_qty : D → D → PositionType
  type_by_qty qty m =
      if d.lt m qty then long else if d.lt qty (d.neg (d.abs m)) then short else close

  -- `isLong()`, `isShort()` and `getPositionType()`
  unfoldable pub get_position_type : Position D E → Result PositionType
  unfolding get_min_qty
  get_position_type p = and_then (get_min_qty p) λ m. ok (type_by_qty p.qty m)

  abbrev pub closed_type : PositionType → Bool
  closed_type close = true
  closed_type _ = false

  unfoldable pub is_close : Position D E → Result Bool
  unfolding get_position_type
  is_close p = and_then (get_position_type p) λ t. ok (closed_type t)

  unfoldable pub is_open : Position D E → Result Bool
  unfolding get_position_type
  is_open p = and_then (get_position_type p) λ t. ok (not (closed_type t))

  abbrev spot_type : ExchangeType → Bool
  spot_type spot = true
  spot_type futures = false

  unfoldable pub can_mutate_qty : Position D E → Result Bool
  can_mutate_qty p = and_then (type_of p) λ t. ok (not (spot_type t && live))

  -- `q && canMutateQty()`, which is not called without need
  abbrev and_mutable : Bool → Position D E → Result Bool
  and_mutable q p = if q then can_mutate_qty p else ok false

  abbrev changed_qty : ExchangeType → Operation → D → D → D → D
  changed_qty spot set_to fee old qty = d.mul qty (d.sub d.one fee)
  changed_qty spot add_to fee old qty = add_floats x old (d.mul qty (d.sub d.one fee))
  changed_qty spot subtract_from fee old qty = subtract_floats x old qty
  changed_qty futures set_to fee old qty = qty
  changed_qty futures add_to fee old qty = add_floats x old qty
  changed_qty futures subtract_from fee old qty = subtract_floats x old qty

  unfoldable pub update_qty : D → Operation → M (Position D E) (Unit {0})
  update_qty qty op p = elim p.exchange [
    | none ↦ (err null_pointer, record p { previous_qty = p.qty })
    | some e ↦ (
      ok tt,
      record p {
        previous_qty = p.qty;
        qty = changed_qty (ex.exchange_type e) op (ex.fee_rate e) p.qty qty;
      },
    )
  ]

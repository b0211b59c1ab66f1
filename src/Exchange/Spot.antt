-- ===== src/Exchange/Spot.antt =====
-- include/Exchange.hpp and src/Exchange.cpp: `SpotExchange`. A missing key of a map counts as the
-- 0.0 that `operator[]` would add. `helper::isLiveTrading()` and `getAppCurrency()` are arguments.
-- Each method holds the one lock of the exchange from its first line to its last, so that calls
-- follow each other.
pub mod Submission
pub mod Balances
pub mod Undo
use cipher_trader.Prelude.{
  Bool, true, false, not, Option, none, some, List, [], if◌then◌else◌, Text, Result, ok, err, Error,
  runtime_error, insufficient_balance, M,
}
use cipher_trader.Prelude.Dict.{Dict, insert, value_or}
use cipher_trader.Double.{Double}
use cipher_trader.Helper.Decimal.{Decimals, add_floats, subtract_floats}
use cipher_trader.Helper.Symbols.{get_base_asset}
use cipher_trader.Enums.{
  ExchangeName, OrderSide, OrderType, buy, sell, market, limit, stop, fok, stop_limit, spot,
}
use cipher_trader.Order.{Order, get_value}
use cipher_trader.Exchange.{Exchange, construct, get_asset}

pub record SpotExchange (D : Type 0) : Type 0 where
  pub base : Exchange D
  pub started_balance : D
  pub stop_sell_orders_qty_sum : Dict D
  pub limit_sell_orders_qty_sum : Dict D

module _ {D : Type 0} (d : Double D) (x : Decimals D) where
  -- The constructor
  unfoldable pub construct_spot : ExchangeName → D → D → SpotExchange D
  construct_spot name starting_balance fee_rate = record {
    base = construct name starting_balance fee_rate spot;
    started_balance = d.nought;
    stop_sell_orders_qty_sum = [];
    limit_sell_orders_qty_sum = [];
  }

  -- `assets_[k]`, read and written
  abbrev pub asset : Text → SpotExchange D → D
  asset k s = value_or k d.nought s.base.assets

  abbrev pub put_asset : Text → D → SpotExchange D → SpotExchange D
  put_asset k v s = record s { base = record s.base { assets = insert k v s.base.assets } }

  abbrev pub settlement : SpotExchange D → Text
  settlement s = s.base.settlement_currency

  abbrev pub stop_sum : Text → SpotExchange D → D
  stop_sum k s = value_or k d.nought s.stop_sell_orders_qty_sum

  abbrev pub put_stop_sum : Text → D → SpotExchange D → SpotExchange D
  put_stop_sum k v s = record s { stop_sell_orders_qty_sum = insert k v s.stop_sell_orders_qty_sum }

  abbrev pub limit_sum : Text → SpotExchange D → D
  limit_sum k s = value_or k d.nought s.limit_sell_orders_qty_sum

  abbrev pub put_limit_sum : Text → D → SpotExchange D → SpotExchange D
  put_limit_sum k v s = record s {
    limit_sell_orders_qty_sum = insert k v s.limit_sell_orders_qty_sum;
  }

  unfoldable pub get_started_balance : Bool → Text → SpotExchange D → D
  get_started_balance live app_currency s =
      if live then s.started_balance else value_or app_currency d.nought s.base.starting_assets

  unfoldable pub get_wallet_balance : SpotExchange D → D
  get_wallet_balance s = get_asset d.nought (settlement s) s.base

  -- `std::abs(order.getQty())`, and `order.getPrice().value_or(0.0)`
  abbrev pub size : Order D → D
  size o = d.abs o.qty

  abbrev pub price_or_zero : Order D → D
  price_or_zero o = elim o.price [ none ↦ d.nought | some p ↦ p ]

  -- `1 - fee_rate_`
  abbrev pub after_fee : SpotExchange D → D
  after_fee s = d.sub d.one s.base.fee_rate

  -- The sum of the stop or of the limit orders of the symbol, changed by the size of the order
  abbrev pub track_by : (D → D → D) → OrderType → Order D → SpotExchange D → SpotExchange D
  track_by f stop o s = put_stop_sum o.symbol (f (stop_sum o.symbol s) (size o)) s
  track_by f limit o s = put_limit_sum o.symbol (f (limit_sum o.symbol s) (size o)) s
  track_by f _ o s = s

  unfoldable pub track : Order D → SpotExchange D → SpotExchange D
  track o s = track_by (add_floats x) o.order_type o s

  pub untrack : Order D → SpotExchange D → SpotExchange D
  untrack o s = track_by (subtract_floats x) o.order_type o s

  -- `order_qty` of a submitted sell order
  abbrev pub selling_qty_of : OrderType → Order D → SpotExchange D → Result D
  selling_qty_of market o s = ok (add_floats x (size o) (limit_sum o.symbol s))
  selling_qty_of stop o s = ok (stop_sum o.symbol s)
  selling_qty_of limit o s = ok (limit_sum o.symbol s)
  selling_qty_of fok o s = err runtime_error
  selling_qty_of stop_limit o s = err runtime_error

  unfoldable pub selling_qty : Order D → SpotExchange D → Result D
  selling_qty o s = selling_qty_of o.order_type o s

  abbrev pub check_qty : Result D → D → SpotExchange D → Result (Unit {0}) × SpotExchange D
  check_qty (err e) balance s = (err e, s)
  check_qty (ok q) balance s = if d.lt balance q then (err insufficient_balance, s) else (ok tt, s)

  unfoldable pub submit_sell : Order D → M (SpotExchange D) (Unit {0})
  unfolding track selling_qty
  submit_sell o s =
      let tracked = track o s in
      check_qty (selling_qty o tracked) (asset (get_base_asset o.symbol) tracked) tracked

  unfoldable pub submit_buy : Order D → M (SpotExchange D) (Unit {0})
  submit_buy o s =
      let rem = subtract_floats x (asset (settlement s) s) (get_value d o) in
      if d.lt rem d.nought
      then (err insufficient_balance, s)
      else (ok tt, put_asset (settlement s) rem s)

  abbrev pub submit : OrderSide → Order D → M (SpotExchange D) (Unit {0})
  submit sell = submit_sell
  submit buy = submit_buy

  -- The handler of `onOrderSubmission`: the three values that were saved are written back.
  abbrev pub restore :
      Order D
      → SpotExchange D
      → Result (Unit {0}) × SpotExchange D
      → Result (Unit {0}) × SpotExchange D
  restore o s (ok a, t) = (ok a, t)
  restore o s (err e, t) = (
    err e,
    put_limit_sum o.symbol (limit_sum o.symbol s) (
        put_stop_sum o.symbol (stop_sum o.symbol s)
          (put_asset (settlement s) (asset (settlement s) s) t)),
  )

  unfoldable pub on_order_submission : Bool → Order D → M (SpotExchange D) (Unit {0})
  unfolding submit_sell submit_buy
  on_order_submission live o s = if live then (ok tt, s) else restore o s (submit o.order_side o s)

  -- The quantity that is sold is at most the balance.
  abbrev pub sold_qty : Order D → D → D
  sold_qty o balance = if d.lt balance (size o) then d.abs balance else size o

  pub execute_sell : Order D → SpotExchange D → SpotExchange D
  unfolding untrack
  execute_sell o s =
      let base_asset = get_base_asset o.symbol in
      let t = untrack o s in
      let order_qty = sold_qty o (asset base_asset t) in
      let paid = d.mul (d.mul order_qty (price_or_zero o)) (after_fee t) in
      let u = put_asset (settlement t) (add_floats x (asset (settlement t) t) paid) t in
      put_asset base_asset (subtract_floats x (asset base_asset u) order_qty) u

  pub execute_buy : Order D → SpotExchange D → SpotExchange D
  execute_buy o s =
      let base_asset = get_base_asset o.symbol in
      put_asset base_asset (add_floats x (asset base_asset s) (d.mul (size o) (after_fee s))) s

  abbrev pub execute_side : OrderSide → Order D → SpotExchange D → SpotExchange D
  execute_side sell = execute_sell
  execute_side buy = execute_buy

  -- Nothing in `onOrderExecution` and in `onOrderCancellation` throws.
  unfoldable pub on_order_execution : Bool → Order D → SpotExchange D → SpotExchange D
  unfolding execute_sell execute_buy
  on_order_execution live o s = if live then s else execute_side o.order_side o s

  pub cancel_buy : Order D → SpotExchange D → SpotExchange D
  cancel_buy o s =
      put_asset (settlement s) (add_floats x (asset (settlement s) s) (d.abs (get_value d o))) s

  abbrev pub cancel_side : OrderSide → Order D → SpotExchange D → SpotExchange D
  cancel_side buy = cancel_buy
  cancel_side sell = untrack

  unfoldable pub on_order_cancellation : Bool → Order D → SpotExchange D → SpotExchange D
  unfolding cancel_buy untrack
  on_order_cancellation live o s = if live then s else cancel_side o.order_side o s

  -- `balance` is the field of the message.
  unfoldable pub on_update_from_stream : Bool → D → M (SpotExchange D) (Unit {0})
  on_update_from_stream live balance s =
      let t = put_asset (settlement s) balance s in
      if not live
      then (err runtime_error, s)
      else if d.eq t.started_balance d.nought
      then (ok tt, record t { started_balance = balance })
      else (ok tt, t)

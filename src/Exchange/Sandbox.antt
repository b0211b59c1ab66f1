-- ===== src/Exchange/Sandbox.antt =====
-- src/Exchange.cpp: `Sandbox`, the simulated exchange. Its state is the order book. Identifiers and
-- times are arguments; its account methods do nothing.
pub mod Placing
pub mod Canceling
use cipher_trader.Prelude.{
  ℕ, suc, Bool, true, false, Option, none, some, List, [], ◌∷◌, if◌then◌else◌, get_elem?, Text,
  codes, Result, ok, err, M, length,
}
use cipher_trader.Double.{Double}
use cipher_trader.Helper.Qty.{prepare_qty}
use cipher_trader.Enums.{
  ExchangeName, OrderSide, OrderType, market, limit, stop, queued, order_side_to_string,
}
use cipher_trader.Order.{Order, is_new, cancel}
use cipher_trader.Orders.{
  OrdersState, update, test, allocate, add_order, add_order_to_execute, get_active_orders,
  get_order_by_id, clear_orders,
}

-- `boost::uuids::nil_uuid()`
abbrev nil_uuid : Text
nil_uuid = codes "00000000-0000-0000-0000-000000000000"

module _ {D : Type 0} (d : Double D) (name : ExchangeName) where
  pub new_order : Text → ℕ → OrderType → Text → D → D → OrderSide → Bool → Order D
  new_order id now order_type symbol qty price side reduce_only = record {
    id = id;
    trade_id = some nil_uuid;
    session_id = nil_uuid;
    exchange_id = none;
    symbol = symbol;
    exchange_name = name;
    order_side = side;
    order_type = order_type;
    reduce_only = reduce_only;
    qty = qty;
    filled_qty = d.nought;
    price = some price;
    status = queued;
    created_at = now;
    executed_at = none;
    canceled_at = none;
    submitted_via = none;
  }

  -- `make_shared` and `addOrder`
  unfoldable pub book : Order D → OrdersState D → ℕ × OrdersState D
  unfolding allocate add_order
  book o s = let (r, t) = allocate o s in (r, add_order r t)

  -- The order of a type, with the quantity that `prepareQty` gives
  abbrev pub place :
      Text → ℕ → OrderType → Text → Result D → D → OrderSide → Bool → M (OrdersState D) ℕ
  place id now order_type symbol (err e) price side reduce_only s = (err e, s)
  place id now order_type symbol (ok qty) price side reduce_only s =
      let (r, t) = book (new_order id now order_type symbol qty price side reduce_only) s in
      (ok r, t)

  abbrev pub signed_qty : D → OrderSide → Result D
  signed_qty qty side = prepare_qty d qty (codes (order_side_to_string side))

  abbrev then_execute : Result ℕ × OrdersState D → Result ℕ × OrdersState D
  then_execute (ok r, s) = (ok r, add_order_to_execute r s)
  then_execute (err e, s) = (err e, s)

  unfoldable pub market_order : Text → ℕ → Text → D → D → OrderSide → Bool → M (OrdersState D) ℕ
  market_order id now symbol qty current_price side reduce_only s =
      then_execute
        (place id now market symbol (signed_qty qty side) current_price side reduce_only s)

  -- The type of the order is STOP.
  unfoldable pub limit_order : Text → ℕ → Text → D → D → OrderSide → Bool → M (OrdersState D) ℕ
  limit_order id now symbol qty price side reduce_only =
      place id now stop symbol (signed_qty qty side) price side reduce_only

  -- The type of the order is LIMIT.
  unfoldable pub stop_order : Text → ℕ → Text → D → D → OrderSide → Bool → M (OrdersState D) ℕ
  stop_order id now symbol qty price side reduce_only =
      place id now limit symbol (signed_qty qty side) price side reduce_only

  -- The loop over the active orders; `clock i` is the time that the `i`-th call reads.
  pub cancel_each : (ℕ → ℕ) → ℕ → List ℕ → List (Order D) → List (Order D)
  unfolding is_new
  cancel_each clock i [] heap = heap
  cancel_each clock i (r ∷ rs) heap =
      cancel_each clock (suc i) rs
        (if test is_new heap r then update r (cancel (clock i) []) heap else heap)

  unfoldable pub cancel_all_orders : Bool → (ℕ → ℕ) → Text → OrdersState D → OrdersState D
  unfolding cancel_each
  cancel_all_orders unit_testing clock symbol s =
      let canceled = cancel_each clock 0 (get_active_orders name symbol s) s.heap in
      let t = record s { heap = canceled } in if unit_testing then t else clear_orders name symbol t

  -- Without a match a new empty order is canceled, which nothing else refers to.
  unfoldable pub cancel_order : ℕ → Text → Text → OrdersState D → OrdersState D
  cancel_order now symbol order_id s = elim (get_order_by_id name symbol order_id false s) [
    | none ↦ s
    | some r ↦ record s { heap = update r (cancel now []) s.heap }
  ]

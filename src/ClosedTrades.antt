-- ===== src/ClosedTrades.antt =====
-- include/DB.hpp and src/DB.cpp: `ClosedTrade`, the orders of a position from its opening to its
-- closing, and src/Trade.cpp: `ClosedTradesState`. Random identifiers, the fee of the configuration and
-- NaN are arguments. A member that the default constructor leaves uninitialised is `none`, and to read
-- it is an error.
pub mod Recording
pub mod Counting
use cipher_trader.Prelude.{
  ℕ, zero, suc, ◌+◌, ◌/◌, ◌-◌, ◌==◌, Bool, true, false, not, Option, none, some, List, [], ◌∷◌,
  ◌++◌, if◌then◌else◌, get_elem?, Text, text_eq, Result, ok, err, bad_access, and_then, or_fail, M,
  ◌>>◌, pure, modify,
}
use cipher_trader.Prelude.Int.{ℤ, pos}
use cipher_trader.Prelude.Dict.{Dict, insert, lookup, value_or}
use cipher_trader.Double.{Double}
use cipher_trader.Blaze.{Blaze}
use cipher_trader.DynamicArray
use cipher_trader.DynamicArray.{DynamicArray, append}
use cipher_trader.Helper.Symbols.{make_key}
use cipher_trader.Helper.Estimates.{estimate_pnl}
use cipher_trader.Enums.{ExchangeName, OrderSide, PositionType, buy, sell, long, short, close}
use cipher_trader.Order.{Order, is_partially_filled}
use cipher_trader.Position.{Casts}

pub record ClosedTrade (D Mat : Type 0) : Type 0 where
  pub id : Text
  pub symbol : Text
  pub exchange_name : Option ExchangeName
  pub position_type : Option PositionType
  pub opened_at : ℕ
  pub closed_at : ℕ
  pub leverage : D
  pub buy_orders : DynamicArray Mat
  pub sell_orders : DynamicArray Mat
  pub orders : List (Order D)

-- The finished trades, and the trade of each exchange and symbol that is under way
pub record ClosedTradesState (D Mat : Type 0) : Type 0 where
  pub trades : List (ClosedTrade D Mat)
  pub temp_trades : Dict (ClosedTrade D Mat)

module _ {D F : Type 0} (d : Double D) (f : Double F) (c : Casts D F) (b : Blaze D) (nan : D) where
  abbrev pub Trade : Type 0
  Trade = ClosedTrade D b.Matrix

  -- An array of 10 rows of a quantity and a price
  abbrev new_orders : b.Matrix → DynamicArray b.Matrix
  new_orders empty = DynamicArray.construct b empty 10 2 none

  unfoldable pub construct_trade : b.Matrix → Text → Trade
  construct_trade empty id = record {
    id = id;
    symbol = [];
    exchange_name = none;
    position_type = none;
    opened_at = 0;
    closed_at = 0;
    leverage = d.one;
    buy_orders = new_orders empty;
    sell_orders = new_orders empty;
    orders = [];
  }

  abbrev bought : Trade → Result (Unit {0}) × DynamicArray b.Matrix → Result (Unit {0}) × Trade
  bought t (r, a) = (r, record t { buy_orders = a })

  abbrev sold : Trade → Result (Unit {0}) × DynamicArray b.Matrix → Result (Unit {0}) × Trade
  sold t (r, a) = (r, record t { sell_orders = a })

  unfoldable pub add_buy_order : D → D → M Trade (Unit {0})
  add_buy_order qty price t = bought t (append b (qty ∷ price ∷ []) t.buy_orders)

  unfoldable pub add_sell_order : D → D → M Trade (Unit {0})
  add_sell_order qty price t = sold t (append b (qty ∷ price ∷ []) t.sell_orders)

  abbrev by_side : OrderSide → D → D → M Trade (Unit {0})
  by_side buy = add_buy_order
  by_side sell = add_sell_order

  abbrev price_or_zero : Order D → D
  price_or_zero o = elim o.price [ none ↦ d.nought | some p ↦ p ]

  -- `addOrder`: the quantity keeps its sign.
  unfoldable pub add_order : Order D → M Trade (Unit {0})
  unfolding add_buy_order add_sell_order
  add_order o t =
      by_side o.order_side o.qty (price_or_zero o) (record t { orders = t.orders ++ (o ∷ []) })

  abbrev is_type : PositionType → Trade → Result Bool
  is_type long t =
      and_then (or_fail t.position_type bad_access) λ p. ok (elim p [ long ↦ true | _ ↦ false ])
  is_type short t =
      and_then (or_fail t.position_type bad_access) λ p. ok (elim p [ short ↦ true | _ ↦ false ])
  is_type close t =
      and_then (or_fail t.position_type bad_access) λ p. ok (elim p [ close ↦ true | _ ↦ false ])

  unfoldable pub is_long : Trade → Result Bool
  is_long = is_type long

  unfoldable pub is_short : Trade → Result Bool
  is_short = is_type short

  unfoldable pub is_open : Trade → Bool
  is_open t = not (t.opened_at == 0)

  -- `blaze::sum` of a column is `sum`.
  unfoldable pub get_qty : (List D → D) → Trade → Result D
  unfolding is_long is_short
  get_qty sum t = and_then (is_long t) λ l.
      if l
      then DynamicArray.sum b sum 0 t.buy_orders
      else and_then (is_short t)
          λ s. if s then DynamicArray.sum b sum 0 t.sell_orders else ok d.nought

  -- The loop over the rows: the sums of the quantities, and of the quantities times the prices
  pub weigh : ℕ → ℕ → DynamicArray b.Matrix → D → D → Result (D × D)
  weigh zero i a qty_sum price_sum = ok (qty_sum, price_sum)
  weigh (suc n) i a qty_sum price_sum = and_then (DynamicArray.row b (pos i) a) λ line.
      and_then (or_fail (get_elem? line 0) bad_access) λ qty.
        and_then (or_fail (get_elem? line 1) bad_access)
          λ price. weigh n (i + 1) a (d.add qty_sum qty) (d.add price_sum (d.mul qty price))

  abbrev pub ratio : D × D → D
  ratio (qty_sum, price_sum) = if d.eq qty_sum d.nought then nan else d.div price_sum qty_sum

  abbrev pub average_price : DynamicArray b.Matrix → Result D
  average_price a = and_then (weigh a.count 0 a d.nought d.nought) λ sums. ok (ratio sums)

  unfoldable pub get_entry_price : Trade → Result D
  unfolding is_long weigh
  get_entry_price t =
      and_then (is_long t) λ l. average_price (if l then t.buy_orders else t.sell_orders)

  unfoldable pub get_exit_price : Trade → Result D
  unfolding is_long weigh
  get_exit_price t =
      and_then (is_long t) λ l. average_price (if l then t.sell_orders else t.buy_orders)

  unfoldable pub get_size : (List D → D) → Trade → Result D
  unfolding get_qty get_entry_price
  get_size sum t = and_then (get_qty sum t) λ q. and_then (get_entry_price t) λ p. ok (d.mul q p)

  -- `trading_fee * qty * (entry + exit)`
  unfoldable pub get_fee : (List D → D) → D → Trade → Result D
  unfolding get_qty get_entry_price get_exit_price
  get_fee sum trading_fee t = and_then (get_qty sum t) λ q. and_then (get_entry_price t) λ entry.
      and_then (get_exit_price t) λ exit. ok (d.mul (d.mul trading_fee q) (d.add entry exit))

  unfoldable pub get_pnl : (List D → D) → F → Trade → Result D
  unfolding get_qty get_entry_price get_exit_price
  get_pnl sum fee t = and_then (get_qty sum t) λ q. and_then (get_entry_price t) λ entry.
      and_then (get_exit_price t) λ exit. and_then (or_fail t.position_type bad_access) λ p.
        and_then (estimate_pnl f (c.narrow q) (c.narrow entry) (c.narrow exit) p fee)
          λ v. ok (c.widen v)

  unfoldable pub get_total_cost : (List D → D) → Trade → Result D
  unfolding get_qty get_entry_price
  get_total_cost sum t =
      and_then (get_entry_price t)
        λ p. and_then (get_qty sum t) λ q. ok (d.div (d.mul p (d.abs q)) t.leverage)

  -- `getRoi` and `getPnlPercentage`, with the number 100
  unfoldable pub get_roi : (List D → D) → F → D → Trade → Result D
  unfolding get_total_cost get_pnl
  get_roi sum fee hundred t = and_then (get_total_cost sum t) λ cost.
      let percentage = and_then (get_pnl sum fee t) λ pnl. ok (d.mul (d.div pnl cost) hundred) in
      if d.eq cost d.nought then ok d.nought else percentage

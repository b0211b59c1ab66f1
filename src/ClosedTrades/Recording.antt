-- ===== src/ClosedTrades/Recording.antt =====
-- src/Trade.cpp: `ClosedTradesState`, which records the orders and the times of the trades. What a
-- position answers, and whether the program runs its unit tests, are arguments; each call that asks
-- for the current trade is given the random identifiers that the code would draw.
use cipher_trader.Prelude.{
  ℕ, Bool, not, Option, none, some, List, [], ◌∷◌, ◌++◌, if◌then◌else◌, Text, codes, text_eq,
  Result, ok, err, and_then, M, ◌>>◌, pure, modify,
}
use cipher_trader.Prelude.Dict.{insert, lookup}
use cipher_trader.Double.{Double}
use cipher_trader.Blaze.{Blaze}
use cipher_trader.Helper.Symbols.{make_key}
use cipher_trader.Enums.{ExchangeName, OrderSide, PositionType}
use cipher_trader.Order.{Order, is_partially_filled}
use cipher_trader.Position.{Casts}
use cipher_trader.ClosedTrades.{
  ClosedTradesState, Trade, construct_trade, add_order, is_open, by_side, price_or_zero, get_qty,
  get_entry_price, get_exit_price, get_pnl, get_roi,
}

-- `boost::uuids::nil_uuid()`
abbrev pub nil_uuid : Text
nil_uuid = codes "00000000-0000-0000-0000-000000000000"

module _ {D F : Type 0} (d : Double D) (f : Double F) (c : Casts D F) (b : Blaze D) (nan : D)
    (empty : b.Matrix) where
  abbrev pub State : Type 0
  State = ClosedTradesState D b.Matrix

  abbrev pub key : ExchangeName → Text → Text
  key name symbol = make_key name symbol none

  -- A trade that has an identifier is given a new one.
  abbrev pub renamed : Text → Trade d f c b nan → Trade d f c b nan
  renamed id t = if text_eq t.id nil_uuid then t else record t { id = id }

  -- `getCurrentTrade`, as the trade that the reference leads to
  unfoldable pub get_current_trade : Text → ExchangeName → Text → State → Trade d f c b nan
  get_current_trade id name symbol s = elim (lookup (key name symbol) s.temp_trades) [
    | some t ↦ renamed id t
    | none ↦ construct_trade d f c b nan empty id
  ]

  abbrev put : Text → State → Result (Unit {0}) × Trade d f c b nan → Result (Unit {0}) × State
  put k s (r, t) = (r, record s { temp_trades = insert k t s.temp_trades })

  -- A change through the reference
  abbrev on_current :
      Text → ExchangeName → Text → M (Trade d f c b nan) (Unit {0}) → M State (Unit {0})
  on_current id name symbol m s = put (key name symbol) s (m (get_current_trade id name symbol s))

  unfoldable pub reset_current_trade : Text → ExchangeName → Text → State → State
  reset_current_trade id name symbol s = record s {
    temp_trades = insert (key name symbol) (construct_trade d f c b nan empty id) s.temp_trades;
  }

  unfoldable pub add_order_record_only :
      Text → ExchangeName → Text → OrderSide → D → D → M State (Unit {0})
  unfolding get_current_trade
  add_order_record_only id name symbol side qty price =
      on_current id name symbol (by_side d f c b nan side (d.abs qty) price)

  -- The copy of the order has the identifier of the trade.
  abbrev recorded : Order D → M (Trade d f c b nan) (Unit {0})
  recorded o t = add_order d f c b nan (record o { trade_id = some t.id }) t

  unfoldable pub add_executed_order : Text → Text → Order D → M State (Unit {0})
  unfolding add_order_record_only
  add_executed_order id again o =
      let qty = if is_partially_filled o then o.filled_qty else o.qty in
      on_current id o.exchange_name o.symbol (if is_partially_filled o then pure tt else recorded o)
      >> add_order_record_only again o.exchange_name o.symbol o.order_side qty
          (price_or_zero d f c b nan o)

  abbrev time_or_zero : Option ℕ → ℕ
  time_or_zero none = 0
  time_or_zero (some t) = t

  -- A member that is set to what a getter of the position returns, unless the getter throws
  abbrev set_from :
      {A : Type 0}
      → Result A
      → (A → Trade d f c b nan → Trade d f c b nan)
      → M (Trade d f c b nan) (Unit {0})
  set_from (ok a) change t = (ok tt, change a t)
  set_from (err e) change t = (err e, t)

  -- `openTrade`: the leverage is the position's, cut to an `int` by `truncated`.
  unfoldable pub open_trade :
      Text
      → ExchangeName
      → Text
      → Option ℕ
      → (D → D)
      → Result D
      → Result PositionType
      → M State (Unit {0})
  unfolding get_current_trade
  open_trade id name symbol opened_at truncated leverage type = on_current id name symbol (
      modify (λ t. record t { opened_at = time_or_zero opened_at })
      >> set_from leverage (λ v t. record t { leverage = truncated v })
      >> modify (λ t. record t { exchange_name = some name; symbol = symbol })
      >> set_from type (λ p t. record t { position_type = some p }))

  -- The figures that the message of `closeTrade` reads, outside unit tests
  abbrev figures : (List D → D) → F → D → Trade d f c b nan → Result (Unit {0})
  figures sum fee hundred t = and_then (get_qty d f c b nan sum t) λ _.
      and_then (get_entry_price d f c b nan t) λ _. and_then (get_exit_price d f c b nan t) λ _.
        and_then (get_pnl d f c b nan sum fee t)
          λ _. and_then (get_roi d f c b nan sum fee hundred t) λ _. ok tt

  -- The trade is kept, then the message is written, then the trade under way is reset.
  abbrev finish : Text → ExchangeName → Text → Result (Unit {0}) → State → Result (Unit {0}) × State
  finish id name symbol (err e) s = (err e, s)
  finish id name symbol (ok a) s = (ok a, reset_current_trade id name symbol s)

  abbrev closed : Option ℕ → Trade d f c b nan → Trade d f c b nan
  closed closed_at t = record t { closed_at = time_or_zero closed_at }

  unfoldable pub close_trade :
      Bool
      → (List D → D)
      → F
      → D
      → Text
      → Text
      → ExchangeName
      → Text
      → Option ℕ
      → M State (Unit {0})
  unfolding get_current_trade reset_current_trade
  close_trade unit_testing sum fee hundred id fresh name symbol closed_at s =
      let t = get_current_trade id name symbol s in
      let u = closed closed_at t in
      let k = key name symbol in
      if not (is_open d f c b nan t)
      then (ok tt, record s { temp_trades = insert k t s.temp_trades })
      else finish fresh name symbol (if unit_testing then ok tt else figures sum fee hundred u)
          (record s { trades = s.trades ++ (u ∷ []); temp_trades = insert k u s.temp_trades })

-- ===== src/Broker.antt =====
-- include/Broker.hpp and src/Broker.cpp: `Broker`, through which a strategy places its orders. The
-- assertions are those of a debug build. Identifiers, times and the threshold of `isPriceNear` are
-- arguments; the broker changes the order book and reads its position.
pub mod Placed
pub mod Refusals
use cipher_trader.Prelude.{
  ℕ, Bool, true, false, ◌&&◌, ◌||◌, Option, none, some, if◌then◌else◌, Text, Result, ok, err,
  invalid_argument, order_not_allowed, bad_optional_access, assertion_failed, and_then, or_fail, M,
  throw,
}
use cipher_trader.Double.{Double}
use cipher_trader.Helper.Decimal.{Decimals}
use cipher_trader.Helper.Sides.{opposite_side, position_type_to_order_side}
use cipher_trader.Helper.Qty.{is_price_near}
use cipher_trader.Enums.{ExchangeName, OrderSide, PositionType, buy, sell, long, short, close}
use cipher_trader.Timeframes.{Timeframe}
use cipher_trader.Orders.{OrdersState, same_side}
use cipher_trader.Position.{Position, PositionExchange, Casts, get_position_type, is_close}
use cipher_trader.Api
use cipher_trader.Api.{Api}

pub record Broker (D E : Type 0) : Type 0 where
  pub position : Position D E
  pub symbol : Text
  pub timeframe : Timeframe
  pub exchange_name : ExchangeName

abbrev pub same_type : PositionType → PositionType → Bool
same_type long long = true
same_type short short = true
same_type close close = true
same_type _ _ = false

module _ {D F E : Type 0} (d : Double D) (f : Double F) (c : Casts D F) (x : Decimals D)
    (ex : PositionExchange D E) (live : Bool) (near : D) (api : Api) (b : Broker D E) where
  -- A read that can fail before a call
  abbrev pub after_read :
      {A : Type 0} → Result A → (A → M (OrdersState D) (Option ℕ)) → M (OrdersState D) (Option ℕ)
  after_read (err e) k s = (err e, s)
  after_read (ok a) k s = k a s

  abbrev market : Text → ℕ → D → D → OrderSide → Bool → M (OrdersState D) (Option ℕ)
  market id now = Api.market_order d api b.exchange_name id now b.symbol

  abbrev limit : Text → ℕ → D → D → OrderSide → Bool → M (OrdersState D) (Option ℕ)
  limit id now = Api.limit_order d api b.exchange_name id now b.symbol

  abbrev stop : Text → ℕ → D → D → OrderSide → Bool → M (OrdersState D) (Option ℕ)
  stop id now = Api.stop_order d api b.exchange_name id now b.symbol

  -- `getCurrentPrice().value()`
  abbrev current_price : Result D
  current_price = or_fail b.position.current_price bad_optional_access

  -- `sellAtMarket` and `buyAtMarket`
  abbrev at_market : OrderSide → Text → ℕ → D → M (OrdersState D) (Option ℕ)
  at_market side id now qty =
      if d.eq qty d.nought
      then throw assertion_failed
      else after_read current_price λ price. market id now (d.abs qty) price side false

  unfoldable pub sell_at_market : Text → ℕ → D → M (OrdersState D) (Option ℕ)
  sell_at_market = at_market sell

  unfoldable pub buy_at_market : Text → ℕ → D → M (OrdersState D) (Option ℕ)
  buy_at_market = at_market buy

  -- `sellAt` and `buyAt`
  abbrev at_price : OrderSide → Text → ℕ → D → D → M (OrdersState D) (Option ℕ)
  at_price side id now qty price =
      if d.eq qty d.nought
      then throw assertion_failed
      else if d.lt price d.nought
      then throw invalid_argument
      else limit id now (d.abs qty) price side false

  unfoldable pub sell_at : Text → ℕ → D → D → M (OrdersState D) (Option ℕ)
  sell_at = at_price sell

  unfoldable pub buy_at : Text → ℕ → D → D → M (OrdersState D) (Option ℕ)
  buy_at = at_price buy

  -- The price lies on the side of the current price where the position gains, or loses.
  abbrev takes_profit : OrderSide → PositionType → D → D → Bool
  takes_profit side t price current =
      (same_side side sell && same_type t long && d.lt current price)
      || (same_side side buy && same_type t short && d.lt price current)

  abbrev stops_loss : OrderSide → PositionType → D → D → Bool
  stops_loss side t price current =
      (same_side side sell && same_type t long && d.lt price current)
      || (same_side side buy && same_type t short && d.lt current price)

  pub reduce_by : Text → ℕ → D → D → D → PositionType → OrderSide → M (OrdersState D) (Option ℕ)
  reduce_by id now qty price current t side =
      if is_price_near d price current near
      then market id now qty price side true
      else if takes_profit side t price current
      then limit id now qty price side true
      else if stops_loss side t price current
      then stop id now (d.abs qty) price side true
      else throw order_not_allowed

  abbrev pub reducing_side : PositionType → Result OrderSide
  reducing_side t = and_then (position_type_to_order_side t) opposite_side

  abbrev reduce_open : Text → ℕ → D → D → D → M (OrdersState D) (Option ℕ)
  reduce_open id now qty price current =
      after_read (get_position_type d f c x ex live b.position)
        λ t. after_read (reducing_side t) λ side. reduce_by id now (d.abs qty) price current t side

  unfoldable pub reduce_position_at : Text → ℕ → D → D → D → M (OrdersState D) (Option ℕ)
  unfolding reduce_by
  reduce_position_at id now qty price current =
      if d.eq qty d.nought
      then throw assertion_failed
      else if d.lt price d.nought
      then throw invalid_argument
      else after_read (is_close d f c x ex live b.position)
          λ closed. if closed then throw order_not_allowed else reduce_open id now qty price current

  -- `price < current` and `price > current` for an optional `current`: an empty one is below all.
  abbrev below : D → Option D → Bool
  below price none = false
  below price (some current) = d.lt price current

  abbrev above : D → Option D → Bool
  above price none = true
  above price (some current) = d.lt current price

  -- The message of the exception reads the current price.
  abbrev refuse : M (OrdersState D) (Option ℕ)
  refuse = after_read current_price λ price. throw order_not_allowed

  unfoldable pub start_profit_at : OrderSide → Text → ℕ → D → D → M (OrdersState D) (Option ℕ)
  start_profit_at side id now qty price =
      if d.eq qty d.nought
      then throw assertion_failed
      else if d.lt price d.nought
      then throw invalid_argument
      else if same_side side buy && below price b.position.current_price
      then refuse
      else if same_side side sell && above price b.position.current_price
      then refuse
      else stop id now (d.abs qty) price side false

  unfoldable pub cancel_all_orders : Bool → (ℕ → ℕ) → OrdersState D → OrdersState D
  cancel_all_orders unit_testing clock =
      Api.cancel_all_orders d api unit_testing clock b.exchange_name b.symbol

  unfoldable pub cancel_order : ℕ → Text → OrdersState D → OrdersState D
  cancel_order now order_id = Api.cancel_order d api now b.exchange_name b.symbol order_id

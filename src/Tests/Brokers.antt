-- ===== src/Tests/Brokers.antt =====
-- The theorems on the broker, at a long position and a book of one order.
use cipher_trader.Prelude.{◌≡◌, refl, false, [], ◌∷◌, codes, ok, inl, inr}
use cipher_trader.Prelude.Int.{pos, abs}
use cipher_trader.Double.Scaled.{Scaled, whole, scaled}
use cipher_trader.Enums.{OrderSide, OrderType, long, sandbox, exchange_name_to_string}
use cipher_trader.Timeframes.{minute_1}
use cipher_trader.Orders.{OrdersState}
use cipher_trader.Position.{get_position_type}
use cipher_trader.Api.{Api}
use cipher_trader.Broker.{Broker, reduce_position_at}
use cipher_trader.Broker.Placed.{OfKind, Closes, Reduces, reduce_orders_close}
use cipher_trader.Tests.Money.{decimals}
use cipher_trader.Tests.Positions.{Ledger, casts, futures_exchange, long_position}

abbrev api : Api
api = record { drivers = sandbox ∷ [] }

abbrev broker : Broker Scaled Ledger
broker = record {
  position = long_position;
  symbol = codes "BTC-USDT";
  timeframe = minute_1;
  exchange_name = sandbox;
}

abbrev empty_book : OrdersState Scaled
empty_book = record { heap = []; storage = []; active_storage = []; to_execute = [] }

long_position-long :
    get_position_type scaled scaled casts decimals futures_exchange false long_position ≡ ok long
unfolding get_position_type scaled
long_position-long = refl

-- The long position of three is reduced by two at 20, above the current price of 9.
reduce_orders_close_example :
    (side : OrderSide) × (ty : OrderType) × Closes scaled scaled casts decimals futures_exchange
      false
      (whole (pos 0))
      api
      broker
      long
      side
    × OfKind scaled (whole (pos 0)) long side (whole (pos 20)) (whole (pos 9)) ty
    × Reduces scaled scaled casts decimals futures_exchange false
        (whole (pos 0))
        api
        broker
        (codes "3")
        8
        (scaled.abs (whole (pos 2)))
        (whole (pos 20))
        side
        ty
        empty_book
        (reduce_position_at scaled scaled casts decimals futures_exchange false
          (whole (pos 0))
          api
          broker
          (codes "3")
          8
          (whole (pos 2))
          (whole (pos 20))
          (whole (pos 9))
          empty_book)
unfolding scaled exchange_name_to_string abs
reduce_orders_close_example =
    reduce_orders_close scaled scaled casts decimals futures_exchange false (whole (pos 0)) api
      broker (codes "3") 8 (whole (pos 2)) (whole (pos 20)) (whole (pos 9)) long empty_book refl
      refl refl refl long_position-long (inl refl) (inr (inr refl))

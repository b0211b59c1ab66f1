-- ===== src/Broker/Refusals.antt =====
-- `Broker`: a call that places no order changes nothing.
use cipher_trader.Prelude.{ℕ, ◌≡◌, Bool, Option, some, Text, Result, ok, M, ◌⊎◌}
use cipher_trader.Double.{Double}
use cipher_trader.Helper.Decimal.{Decimals}
use cipher_trader.Enums.{OrderSide, OrderType, sandbox, sell, buy}
use cipher_trader.Orders.{OrdersState}
use cipher_trader.Exchange.Sandbox.Placing.{Queues}
use cipher_trader.Position.{PositionExchange, Casts}
use cipher_trader.Api.{Api}
use cipher_trader.Broker.{Broker}

module _ {D F E : Type 0} (d : Double D) (f : Double F) (c : Casts D F) (x : Decimals D)
    (ex : PositionExchange D E) (live : Bool) (near : D) (api : Api) (b : Broker D E) where
  -- The call placed an order at the sandbox, with this identifier, time and reduce-only flag, on a side
  -- that is expected, and answers it; or the order book is the same.
  abbrev pub PlacedOrKept :
      Text
      → ℕ
      → (OrderSide → Type 0)
      → Bool
      → OrdersState D
      → Result (Option ℕ) × OrdersState D
      → Type 0
  PlacedOrKept id now Expected reduce_only s result =
      ((ty : OrderType) × (qty : D) × (price : D) × (side : OrderSide) × (r : ℕ) × Expected side
        × (result.0 ≡ ok (some r))
        × Queues d sandbox id now ty b.symbol qty price side reduce_only s r result.1)
      ⊎ (result.1 ≡ s)

  module _ (id : Text) (now : ℕ) (Expected : OrderSide → Type 0) (reduce_only : Bool) where
    abbrev PlacesOrKeeps : M (OrdersState D) (Option ℕ) → Type 0
    PlacesOrKeeps m = (s : OrdersState D) → PlacedOrKept id now Expected reduce_only s (m s)

  -- An order of the side that the call is for
  abbrev pub Same : OrderSide → OrderSide → Type 0
  Same side t = t ≡ side

  -- Any side: that of a call that reduces is the one that closes the position.
  abbrev pub Either : OrderSide → Type 0
  Either t = (t ≡ buy) ⊎ (t ≡ sell)

-- ===== src/Api.antt =====
-- include/Api.hpp and src/Api.cpp: `Api`, which hands the calls of a broker to the driver of an
-- exchange. Every driver of a back test is a sandbox with its default name. In live trading the
-- drivers are not written yet, so that there is none.
use cipher_trader.Prelude.{
  ℕ, Bool, false, ◌||◌, Option, none, some, List, [], ◌∷◌, if◌then◌else◌, Text, String, Result, ok,
  err, M,
}
use cipher_trader.Double.{Double}
use cipher_trader.Enums.{ExchangeName, OrderSide, sandbox, to_exchange_name}
use cipher_trader.Orders.{OrdersState, same_exchange}
use cipher_trader.Exchange.Sandbox

-- The exchanges that have a driver
pub record Api : Type 0 where
  pub drivers : List ExchangeName

-- `drivers_.find(name) != drivers_.end()`
abbrev pub has_driver : ExchangeName → List ExchangeName → Bool
has_driver name [] = false
has_driver name (n ∷ ns) = same_exchange n name || has_driver name ns

-- `initDrivers`: an unknown exchange throws, with the drivers before it made.
pub init_drivers : Bool → List String → M Api (Unit {0})
init_drivers live [] a = (ok tt, a)
init_drivers live (e ∷ es) a = elim (to_exchange_name e) [
  | err u ↦ (err u, a)
  | ok name ↦ init_drivers live es (if live then a else record a { drivers = name ∷ a.drivers })
]

unfoldable pub construct_api : Bool → List String → M Api (Unit {0})
unfolding init_drivers
construct_api live considering_exchanges a =
    if live then (ok tt, a) else init_drivers live considering_exchanges a

module _ {D : Type 0} (d : Double D) (a : Api) where
  -- An order of the driver, or none where there is no driver
  abbrev handed : Result ℕ × OrdersState D → Result (Option ℕ) × OrdersState D
  handed (ok r, s) = (ok (some r), s)
  handed (err e, s) = (err e, s)

  unfoldable pub market_order :
      ExchangeName → Text → ℕ → Text → D → D → OrderSide → Bool → M (OrdersState D) (Option ℕ)
  market_order name id now symbol qty current_price side reduce_only s =
      if has_driver name a.drivers
      then handed
          (Sandbox.market_order d sandbox id now symbol qty current_price side reduce_only s)
      else (ok none, s)

  unfoldable pub limit_order :
      ExchangeName → Text → ℕ → Text → D → D → OrderSide → Bool → M (OrdersState D) (Option ℕ)
  limit_order name id now symbol qty price side reduce_only s =
      if has_driver name a.drivers
      then handed (Sandbox.limit_order d sandbox id now symbol qty price side reduce_only s)
      else (ok none, s)

  unfoldable pub stop_order :
      ExchangeName → Text → ℕ → Text → D → D → OrderSide → Bool → M (OrdersState D) (Option ℕ)
  stop_order name id now symbol qty price side reduce_only s =
      if has_driver name a.drivers
      then handed (Sandbox.stop_order d sandbox id now symbol qty price side reduce_only s)
      else (ok none, s)

  unfoldable pub cancel_all_orders :
      Bool → (ℕ → ℕ) → ExchangeName → Text → OrdersState D → OrdersState D
  cancel_all_orders unit_testing clock name symbol s =
      if has_driver name a.drivers
      then Sandbox.cancel_all_orders d sandbox unit_testing clock symbol s
      else s

  unfoldable pub cancel_order : ℕ → ExchangeName → Text → Text → OrdersState D → OrdersState D
  cancel_order now name symbol order_id s =
      if has_driver name a.drivers then Sandbox.cancel_order d sandbox now symbol order_id s else s

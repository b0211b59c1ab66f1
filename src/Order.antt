-- ===== src/Order.antt =====
-- include/DB.hpp and src/DB.cpp: `Order`, and its transitions. `nowToTimestamp()` and the random
-- identifiers are arguments; the free-form `vars`, the log and the notifications are left out.
pub mod Machine
pub mod Remaining
use cipher_trader.Prelude.{
  ℕ, Bool, true, false, ◌&&◌, ◌||◌, not, Option, none, some, if◌then◌else◌, Text, codes, text_eq,
  Result, ok, err, Error, runtime_error, M,
}
use cipher_trader.Double.{Double}
use cipher_trader.Helper.Qty.{prepare_qty}
use cipher_trader.Enums.{
  OrderSide, OrderStatus, OrderType, ExchangeName, active, canceled, executed, partially_filled,
  queued, order_side_to_string,
}

-- include/Enum.hpp: `OrderSubmittedVia`
pub data OrderSubmittedVia : Type 0 where
  stop_loss take_profit : OrderSubmittedVia

pub record Order (D : Type 0) : Type 0 where
  pub id : Text
  pub trade_id : Option Text
  pub session_id : Text
  pub exchange_id : Option Text
  pub symbol : Text
  pub exchange_name : ExchangeName
  pub order_side : OrderSide
  pub order_type : OrderType
  pub reduce_only : Bool
  pub qty : D
  pub filled_qty : D
  pub price : Option D
  pub status : OrderStatus
  pub created_at : ℕ
  pub executed_at : Option ℕ
  pub canceled_at : Option ℕ
  pub submitted_via : Option OrderSubmittedVia

abbrev status_is_active : OrderStatus → Bool
status_is_active active = true
status_is_active _ = false

abbrev status_is_queued : OrderStatus → Bool
status_is_queued queued = true
status_is_queued _ = false

abbrev status_is_canceled : OrderStatus → Bool
status_is_canceled canceled = true
status_is_canceled _ = false

abbrev status_is_executed : OrderStatus → Bool
status_is_executed executed = true
status_is_executed _ = false

abbrev status_is_partially_filled : OrderStatus → Bool
status_is_partially_filled partially_filled = true
status_is_partially_filled _ = false

module _ {D : Type 0} where
  unfoldable pub is_active : Order D → Bool
  is_active o = status_is_active o.status

  unfoldable pub is_queued : Order D → Bool
  is_queued o = status_is_queued o.status

  unfoldable pub is_canceled : Order D → Bool
  is_canceled o = status_is_canceled o.status

  unfoldable pub is_executed : Order D → Bool
  is_executed o = status_is_executed o.status

  unfoldable pub is_partially_filled : Order D → Bool
  is_partially_filled o = status_is_partially_filled o.status

  unfoldable pub is_cancellable : Order D → Bool
  unfolding is_active is_partially_filled is_queued
  is_cancellable o = is_active o || is_partially_filled o || is_queued o

  unfoldable pub is_new : Order D → Bool
  unfolding is_active
  is_new o = is_active o

  unfoldable pub queue_it : Order D → Order D
  queue_it o = record o { status = queued; canceled_at = none }

  -- `id` is the new random identifier.
  unfoldable pub resubmit : Text → M (Order D) (Unit {0})
  unfolding is_queued
  resubmit id o =
      if is_queued o
      then (ok tt, record o { id = id; status = active; canceled_at = none })
      else (err runtime_error, o)

  unfoldable pub cancel : ℕ → Text → Order D → Order D
  unfolding is_canceled is_executed is_queued
  cancel now source o =
      if is_canceled o || is_executed o
      then o
      else if text_eq source (codes "stream") && is_queued o
      then o
      else record o { canceled_at = some now; status = canceled }

  unfoldable pub execute : ℕ → Order D → Order D
  unfolding is_canceled is_executed
  execute now o =
      if is_canceled o || is_executed o
      then o
      else record o { executed_at = some now; status = executed }

  unfoldable pub execute_partially : ℕ → Order D → Order D
  execute_partially now o = record o { executed_at = some now; status = partially_filled }

  module _ (d : Double D) where
    unfoldable pub get_value : Order D → D
    get_value o = elim o.price [ none ↦ d.nought | some p ↦ d.mul (d.abs o.qty) p ]

    unfoldable pub get_remaining_qty : Order D → Result D
    get_remaining_qty o =
        prepare_qty d (d.sub (d.abs o.qty) (d.abs o.filled_qty))
          (codes (order_side_to_string o.order_side))

-- ===== src/Tests/Trading.antt =====
-- The theorems on orders, the order book and the sandbox, at a book of two orders.
use cipher_trader.Prelude.{
  ℕ, ◌+◌, ◌≡◌, refl, true, false, ◌&&◌, none, some, List, [], ◌∷◌, ◌++◌, All, length, get_elem?,
  Text, codes, Result, ok, arith, ◌⊎◌, inl,
}
use cipher_trader.Prelude.Dict.{insert, lookup, value_or}
use cipher_trader.Prelude.Int.{pos}
use cipher_trader.Double.Scaled.{Scaled, whole, scaled}
use cipher_trader.Enums.{
  OrderSide, OrderStatus, buy, sell, limit, market, stop, long, active, queued, executed, sandbox,
  order_side_to_string, exchange_name_to_string,
}
use cipher_trader.Helper.Sides.{position_type_to_order_side}
use cipher_trader.Helper.Qty.{prepare_qty}
use cipher_trader.Helper.Symbols.{make_key}
use cipher_trader.Order.{Order, is_executed, is_new, execute, queue_it}
use cipher_trader.Order.Machine
use cipher_trader.Order.Machine.{
  IsFresh, HasStamps, IsSettled, run, call_cancel, call_execute, call_resubmit, by_execute,
  by_queue_it, reachable-HasStamps, finished_stays, one_ending,
}
use cipher_trader.Orders.{
  OrdersState, test, enters, exits, execute_pending_market_orders, get_orders, get_active_orders,
  get_entry_orders, get_active_exit_orders, reset, add_order, allocate,
}
use cipher_trader.Orders.Execution.{Settled, pending_orders_finish, other_orders_stay}
use cipher_trader.Orders.Steps.{start, after, step, here, next, was_reset, executed as ran}
use cipher_trader.Orders.Filing.{HasKey, Filed, FiledIn-insert, orders_stay_home}
use cipher_trader.Orders.Inclusion.{member, Among, Included, active_orders_are_stored}
use cipher_trader.Orders.Views.{SplitInto, entry_exit_split}
use cipher_trader.Exchange.Sandbox.{book, market_order, limit_order, stop_order, cancel_all_orders}
use cipher_trader.Exchange.Sandbox.Placing.{Queues, new_orders_queue_up, market_order_gets_done}
use cipher_trader.Exchange.Sandbox.Canceling.{canceled_order, cancel_all_cancels_active}

abbrev symbol : Text
symbol = codes "BTC-USDT"

abbrev an_order : OrderStatus → OrderSide → Order Scaled
an_order status side = record {
  id = codes "1";
  trade_id = none;
  session_id = [];
  exchange_id = none;
  symbol = symbol;
  exchange_name = sandbox;
  order_side = side;
  order_type = market;
  reduce_only = false;
  qty = whole (pos 3);
  filled_qty = whole (pos 1);
  price = some (whole (pos 7));
  status = status;
  created_at = 5;
  executed_at = none;
  canceled_at = none;
  submitted_via = none;
}

abbrev bid : Order Scaled
bid = an_order active buy

abbrev done : Order Scaled
done = record bid { status = executed; executed_at = some 6 }

abbrev key : Text
key = codes "Sandbox-BTC-USDT"

-- An active buy order, which is queued for execution, and a queued sell order
abbrev two_orders : OrdersState Scaled
two_orders = record {
  heap = bid ∷ an_order queued sell ∷ [];
  storage = (key, 0 ∷ 1 ∷ []) ∷ [];
  active_storage = (key, 0 ∷ 1 ∷ []) ∷ [];
  to_execute = 0 ∷ [];
}

reachable-HasStamps_example : HasStamps (queue_it (execute 9 bid))
reachable-HasStamps_example =
    reachable-HasStamps bid (queue_it (execute 9 bid)) (tt, refl, refl)
      (Machine.next (Machine.next Machine.here (by_execute 9 bid)) (by_queue_it (execute 9 bid)))

abbrev clock : ℕ → ℕ
clock i = 100 + i

pending_orders_finish_example :
    ((execute_pending_market_orders clock two_orders).to_execute ≡ [])
    × All (Settled two_orders.heap (execute_pending_market_orders clock two_orders).heap) (0 ∷ [])
    × (length (execute_pending_market_orders clock two_orders).heap ≡ 2)
    × ((execute_pending_market_orders clock two_orders).storage ≡ two_orders.storage)
    × ((execute_pending_market_orders clock two_orders).active_storage ≡ two_orders.active_storage)
pending_orders_finish_example =
    pending_orders_finish clock two_orders (execute_pending_market_orders clock two_orders)
      (omega arith, tt) refl

other_orders_stay_example :
    get_elem? (execute_pending_market_orders clock two_orders).heap 1 ≡ some (an_order queued sell)
other_orders_stay_example =
    other_orders_stay clock two_orders 1 (an_order queued sell) refl (inl (ground arith, tt))

entry_exit_split_example :
    (side : OrderSide) × (entries : List ℕ) × (leaving : List ℕ) × (position_type_to_order_side long
      ≡ ok side)
    × (get_entry_orders sandbox symbol (some (false, long)) two_orders ≡ ok entries)
    × (get_active_exit_orders sandbox symbol (some (false, long)) two_orders ≡ ok leaving)
    × All (λ r. test (enters side) two_orders.heap r ≡ true) entries
    × All (λ r. test (exits side) two_orders.heap r ≡ true) leaving
    × SplitInto two_orders (get_active_orders sandbox symbol two_orders) entries leaving
entry_exit_split_example = entry_exit_split sandbox symbol long two_orders (λ e. ground (arith, e))

two_orders-Filed : Filed two_orders
unfolding value_or lookup insert make_key exchange_name_to_string
two_orders-Filed =
    let filed = FiledIn-insert two_orders.heap key (0 ∷ 1 ∷ []) [] (refl, (refl, tt)) (λ k. tt) in
    (filed, filed)

two_orders-Included : Included two_orders
unfolding value_or lookup
two_orders-Included k = ground arith

orders_stay_home_example :
    All
      (HasKey (reset two_orders).heap (make_key sandbox symbol none))
      (get_orders sandbox symbol (reset two_orders))
    × All
        (HasKey (reset two_orders).heap (make_key sandbox symbol none))
        (get_active_orders sandbox symbol (reset two_orders))
orders_stay_home_example =
    orders_stay_home two_orders (reset two_orders) two_orders-Filed
      (after start (step (was_reset two_orders))) sandbox symbol

active_orders_are_stored_example :
    Among
      (get_active_orders sandbox symbol (execute_pending_market_orders clock two_orders))
      (get_orders sandbox symbol (execute_pending_market_orders clock two_orders))
active_orders_are_stored_example =
    active_orders_are_stored two_orders (execute_pending_market_orders clock two_orders)
      two_orders-Included (next here (ran clock two_orders)) sandbox symbol

new_orders_queue_up_example :
    (r : ℕ) × (m l c : OrdersState Scaled) × ((market_order scaled sandbox
          (codes "3")
          8
          symbol
          (whole (pos 3))
          (whole (pos 7))
          sell
          false
          two_orders
        ≡ (ok r, m))
      × Queues scaled sandbox
          (codes "3")
          8
          market
          symbol
          (whole (pos 3))
          (whole (pos 7))
          sell
          false
          two_orders
          r
          m
      × (m.to_execute ≡ (0 ∷ []) ++ (r ∷ [])))
    × ((limit_order scaled sandbox
            (codes "3")
            8
            symbol
            (whole (pos 3))
            (whole (pos 7))
            sell
            false
            two_orders
          ≡ (ok r, l))
        × Queues scaled sandbox
            (codes "3")
            8
            stop
            symbol
            (whole (pos 3))
            (whole (pos 7))
            sell
            false
            two_orders
            r
            l
        × (l.to_execute ≡ 0 ∷ []))
    × ((stop_order scaled sandbox
            (codes "3")
            8
            symbol
            (whole (pos 3))
            (whole (pos 7))
            sell
            false
            two_orders
          ≡ (ok r, c))
        × Queues scaled sandbox
            (codes "3")
            8
            limit
            symbol
            (whole (pos 3))
            (whole (pos 7))
            sell
            false
            two_orders
            r
            c
        × (c.to_execute ≡ 0 ∷ []))
new_orders_queue_up_example =
    new_orders_queue_up scaled sandbox (codes "3") 8 symbol (whole (pos 3)) (whole (pos 7)) sell
      false two_orders

abbrev ordered : Result ℕ × OrdersState Scaled
ordered =
    market_order scaled sandbox (codes "3") 8 symbol (whole (pos 3)) (whole (pos 7)) buy false
      two_orders

ordered-ok : ordered ≡ (ok 2, ordered.1)
unfolding market_order book allocate add_order prepare_qty order_side_to_string
ordered-ok = refl

market_order_gets_done_example :
    test is_executed (execute_pending_market_orders clock ordered.1).heap 2 ≡ true
market_order_gets_done_example =
    market_order_gets_done scaled sandbox (codes "3") 8 symbol (whole (pos 3)) (whole (pos 7)) buy
      false clock two_orders ordered.1 2 (omega arith, tt) ordered-ok

cancel_all_cancels_active_example :
    ((member 0 (get_active_orders sandbox symbol two_orders) && is_new bid ≡ true)
      × ((now : ℕ) × (get_elem?
              (cancel_all_orders scaled sandbox false clock symbol two_orders).heap
              0
            ≡ some (canceled_order scaled sandbox now bid))))
    ⊎ ((member 0 (get_active_orders sandbox symbol two_orders) && is_new bid ≡ false)
        × (get_elem? (cancel_all_orders scaled sandbox false clock symbol two_orders).heap 0
            ≡ some bid))
cancel_all_cancels_active_example =
    cancel_all_cancels_active scaled sandbox false clock symbol two_orders 0 bid refl

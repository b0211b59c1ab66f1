-- ===== src/Tests/Positions.antt =====
-- The theorems on positions, at a futures exchange that counts profits and fees, and at a long
-- position of it.
use cipher_trader.Prelude.{◌≡◌, refl, true, false, none, some, codes, ok, M, ◌⊎◌}
use cipher_trader.Prelude.Int.{pos, negsuc, ◌+ℤ◌, ◌-ℤ◌, ◌*ℤ◌, abs}
use cipher_trader.Helper.Decimal.{add_floats, to_decimal}
use cipher_trader.Helper.Estimates.{estimate_pnl}
use cipher_trader.Helper.Symbols.{get_base_asset}
use cipher_trader.Double.Scaled.{Scaled, whole, scaled}
use cipher_trader.Enums.{futures, sandbox, sell, market, queued}
use cipher_trader.Order.{Order}
use cipher_trader.Position.{
  Position, PositionExchange, Casts, construct_position, is_close, update_qty, can_mutate_qty,
  get_position_type, get_min_qty,
}
use cipher_trader.Position.Moves.{
  close_position, close_at, move_of, on_backtest_order, on_executed_order,
}
use cipher_trader.Position.Moves.ReduceOnly.{reduce_only_keeps_entry}
use cipher_trader.Tests.Money.{decimals}

-- The realized profit and the fees
abbrev pub Ledger : Type 0
Ledger = Scaled × Scaled

abbrev gain : Scaled → M Ledger (Unit {0})
gain g (pnl, fees) = (ok tt, (scaled.add pnl g, fees))

abbrev pay : Scaled → M Ledger (Unit {0})
pay g (pnl, fees) = (ok tt, (pnl, scaled.add fees g))

abbrev pub futures_exchange : PositionExchange Scaled Ledger
futures_exchange = record {
  exchange_type = λ e. futures;
  fee_rate = λ e. whole (pos 0);
  add_realized_pnl = gain;
  increase_asset_temp_reduced_amount = λ asset amount e. (ok tt, e);
  charge_fee = pay;
  min_qty_var = λ symbol e. none;
  min_notional_size = λ symbol e. whole (pos 0);
}

abbrev pub casts : Casts Scaled Scaled
casts = record { narrow = λ v. v; widen = λ v. v }

abbrev unassigned : Position Scaled Ledger
unassigned =
    construct_position scaled scaled casts decimals futures_exchange false (codes "1") sandbox
      (codes "BTC-USDT")

abbrev pub long_position : Position Scaled Ledger
long_position = record unassigned {
  exchange = some (whole (pos 0), whole (pos 0));
  qty = whole (pos 3);
  entry_price = some (whole (pos 7));
}

abbrev stop_loss : Order Scaled
stop_loss = record {
  id = codes "2";
  trade_id = none;
  session_id = codes "";
  exchange_id = none;
  symbol = codes "BTC-USDT";
  exchange_name = sandbox;
  order_side = sell;
  order_type = market;
  reduce_only = true;
  qty = whole (negsuc 4);
  filled_qty = whole (pos 0);
  price = some (whole (pos 9));
  status = queued;
  created_at = 5;
  executed_at = none;
  canceled_at = none;
  submitted_via = none;
}

-- A sale of five at the price of nine closes a long position of three that was opened at seven, with
-- a profit of six.
abbrev closed_position : Position Scaled Ledger
closed_position = record long_position {
  exchange = some (whole (pos 6), whole (negsuc 44));
  qty = whole (pos 0);
  previous_qty = whole (pos 3);
  entry_price = none;
  exit_price = some (whole (pos 9));
  closed_at = some 8;
}

stop_loss_closes :
    on_executed_order scaled scaled casts decimals futures_exchange false 8 stop_loss long_position
    ≡ (ok tt, closed_position)
unfolding on_executed_order on_backtest_order close_position close_at move_of update_qty
    can_mutate_qty is_close get_position_type get_min_qty estimate_pnl add_floats to_decimal
    get_base_asset scaled decimals ◌+ℤ◌ ◌-ℤ◌ ◌*ℤ◌ abs
stop_loss_closes = refl

reduce_only_keeps_entry_example :
    ((on_executed_order scaled scaled casts decimals futures_exchange false 8 stop_loss
        long_position).1.entry_price
      ≡ some (whole (pos 7)))
    ⊎ ((on_executed_order scaled scaled casts decimals futures_exchange false 8 stop_loss
          long_position).1.entry_price
        ≡ none)
unfolding scaled
reduce_only_keeps_entry_example =
    reduce_only_keeps_entry scaled scaled casts decimals futures_exchange 8 stop_loss long_position
      refl refl

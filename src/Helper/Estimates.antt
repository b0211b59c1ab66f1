-- ===== src/Helper/Estimates.antt =====
-- src/Helper.cpp: the average entry price and the profit of a position, computed in `float`s.
use cipher_trader.Prelude.{if◌then◌else◌, Result, ok, err, invalid_argument}
use cipher_trader.Double.{Double}
use cipher_trader.Enums.{PositionType, long, short, close}

module _ {F : Type 0} (f : Double F) where
  unfoldable pub estimate_average_price : F → F → F → F → Result F
  estimate_average_price order_qty order_price current_qty current_entry_price =
      let abs_order_qty = f.abs order_qty in
      let abs_current_qty = f.abs current_qty in
      let total_qty = f.add abs_order_qty abs_current_qty in
      let weighted =
        f.add (f.mul abs_order_qty order_price) (f.mul abs_current_qty current_entry_price) in
      if f.eq total_qty f.nought then err invalid_argument else ok (f.div weighted total_qty)

  -- The sign of the profit, where a closed position is refused
  abbrev multiplier : PositionType → Result F
  multiplier long = ok f.one
  multiplier short = ok (f.neg f.one)
  multiplier close = err invalid_argument

  abbrev profit_after_fee : F → F → F → F → Result F → Result F
  profit_after_fee abs_qty entry_price exit_price trading_fee (err e) = err e
  profit_after_fee abs_qty entry_price exit_price trading_fee (ok m) =
      let profit = f.mul (f.mul abs_qty (f.sub exit_price entry_price)) m in
      let fee =
        if f.lt f.nought trading_fee
        then f.mul (f.mul trading_fee abs_qty) (f.add entry_price exit_price)
        else f.nought in
      ok (f.sub profit fee)

  unfoldable pub estimate_pnl : F → F → F → PositionType → F → Result F
  estimate_pnl qty entry_price exit_price position_type trading_fee =
      let abs_qty = f.abs qty in
      let profit =
        profit_after_fee abs_qty entry_price exit_price trading_fee (multiplier position_type) in
      if f.eq abs_qty f.nought then err invalid_argument else profit

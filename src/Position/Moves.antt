-- ===== src/Position/Moves.antt =====
-- src/Position.cpp: the operations that change a position, and `onExecutedOrder`, which chooses among
-- them. Profits and average prices go through `float`.
pub mod Guards
pub mod Entry
pub mod ReduceOnly
use cipher_trader.Prelude.{
  ℕ, Bool, true, false, not, ◌&&◌, ◌||◌, Option, none, some, if◌then◌else◌, Text, Result, ok, err,
  Error, null_pointer, empty_position, open_position_error, and_then, M, ◌>>=◌, ◌>>◌, pure, throw,
  modify,
}
use cipher_trader.Double.{Double}
use cipher_trader.Helper.Decimal.{Decimals, add_floats}
use cipher_trader.Helper.Estimates.{estimate_average_price, estimate_pnl}
use cipher_trader.Helper.Symbols.{get_base_asset}
use cipher_trader.Enums.{ExchangeType, PositionType, spot, futures, long, short, close}
use cipher_trader.Order.{Order, is_partially_filled}
use cipher_trader.Position.{
  Position, PositionExchange, Casts, Operation, set_to, add_to, subtract_from, ask, call, type_of,
  get_min_qty, get_position_type, is_close, is_open, can_mutate_qty, and_mutable, update_qty,
}

-- What an executed order does to a position outside live trading
pub data Move : Type 0 where
  opens closes increases reduces flips nothing : Move

module _ {D F E : Type 0} (d : Double D) (f : Double F) (c : Casts D F) (x : Decimals D)
    (ex : PositionExchange D E) (live : Bool) where
  -- `entry_price_.value_or(0.0)`
  abbrev entry : Position D E → D
  entry p = elim p.entry_price [ none ↦ d.nought | some e ↦ e ]

  -- `helper::estimatePNL(qty, entry, price, getPositionType())`
  abbrev pub profit_as : D → D → Position D E → PositionType → Result D
  profit_as qty price p t =
      and_then (estimate_pnl f (c.narrow qty) (c.narrow (entry p)) (c.narrow price) t f.nought)
        λ v. ok (c.widen v)

  abbrev pub profit : D → D → Position D E → Result D
  profit qty price p = and_then (get_position_type d f c x ex live p) (profit_as qty price p)

  abbrev pub realize : D → D → D → M (Position D E) (Unit {0})
  realize qty price gain p =
      (call d f c x ex live (ex.add_realized_pnl gain)
          >> call d f c x ex live (
              ex.increase_asset_temp_reduced_amount (get_base_asset p.symbol)
                (d.abs (d.mul qty price))))
        p

  -- The futures part of `close`
  abbrev settle_close : D → ExchangeType → M (Position D E) (Unit {0})
  settle_close price spot p = (ok tt, p)
  settle_close price futures p =
      (ask d f c x ex live (profit (d.abs p.qty) price) >>= realize (d.abs p.qty) price) p

  abbrev set_if : Bool → D → M (Position D E) (Unit {0})
  set_if true qty = update_qty d f c x ex live qty set_to
  set_if false qty = pure tt

  unfoldable pub close_at : ℕ → D → M (Position D E) (Unit {0})
  close_at now price =
      modify (λ p. record p { exit_price = some price; closed_at = some now })
      >> ask d f c x ex live (type_of d f c x ex live)
      >>= settle_close price
      >> ask d f c x ex live (can_mutate_qty d f c x ex live)
      >>= (λ b. set_if b d.nought)
      >> modify (λ p. record p { entry_price = none })

  -- `isClose() && canMutateQty()`, and `isOpen() && canMutateQty()`
  abbrev closed_and_mutable : Position D E → Result Bool
  closed_and_mutable p = and_then (is_close d f c x ex live p) λ q. and_mutable d f c x ex live q p

  abbrev open_and_mutable : Position D E → Result Bool
  open_and_mutable p = and_then (is_open d f c x ex live p) λ q. and_mutable d f c x ex live q p

  unfoldable pub close_position : ℕ → D → M (Position D E) (Unit {0})
  unfolding close_at
  close_position now price = ask d f c x ex live closed_and_mutable >>= λ b.
      if b then throw empty_position else close_at now price

  -- The change of the quantity by the type of the position
  abbrev shift : Operation → Operation → D → PositionType → M (Position D E) (Unit {0})
  shift for_long for_short qty long = update_qty d f c x ex live qty for_long
  shift for_long for_short qty short = update_qty d f c x ex live qty for_short
  shift for_long for_short qty close = pure tt

  abbrev settle_reduce : D → D → D → ExchangeType → M (Position D E) (Unit {0})
  settle_reduce qty price gain spot = pure tt
  settle_reduce qty price gain futures = realize qty price gain

  pub reduce_by : D → D → M (Position D E) (Unit {0})
  reduce_by qty price =
      ask d f c x ex live (profit qty price)
      >>= (λ gain. ask d f c x ex live (type_of d f c x ex live) >>= settle_reduce qty price gain)
      >> ask d f c x ex live (get_position_type d f c x ex live)
      >>= shift subtract_from add_to qty

  unfoldable pub reduce : D → D → M (Position D E) (Unit {0})
  unfolding reduce_by
  reduce qty price = ask d f c x ex live (can_mutate_qty d f c x ex live) >>= λ mutable.
      if not mutable
      then pure tt
      else ask d f c x ex live (is_open d f c x ex live) >>= λ q.
          if not q then throw empty_position else reduce_by (d.abs qty) price

  abbrev average : D → D → Position D E → Result D
  average qty price p =
      and_then
        (estimate_average_price f (c.narrow qty) (c.narrow price) (c.narrow p.qty)
          (c.narrow (entry p)))
        λ v. ok (c.widen v)

  abbrev shift_if : Bool → D → M (Position D E) (Unit {0})
  shift_if true qty =
      ask d f c x ex live (get_position_type d f c x ex live) >>= shift add_to subtract_from qty
  shift_if false qty = pure tt

  pub increase_by : D → D → M (Position D E) (Unit {0})
  increase_by qty price =
      ask d f c x ex live (average qty price)
      >>= (λ v. modify λ p. record p { entry_price = some v })
      >> ask d f c x ex live (can_mutate_qty d f c x ex live)
      >>= λ b. shift_if b qty

  unfoldable pub increase : D → D → M (Position D E) (Unit {0})
  unfolding increase_by
  increase qty price = ask d f c x ex live (is_open d f c x ex live) >>= λ q.
      if not q then throw open_position_error else increase_by (d.abs qty) price

  unfoldable pub open_at : ℕ → D → D → M (Position D E) (Unit {0})
  open_at now qty price =
      modify (λ p. record p { entry_price = some price; exit_price = none })
      >> ask d f c x ex live (can_mutate_qty d f c x ex live)
      >>= (λ b. set_if b qty)
      >> modify (λ p. record p { opened_at = some now })

  unfoldable pub open_position : ℕ → D → D → M (Position D E) (Unit {0})
  unfolding open_at
  open_position now qty price = ask d f c x ex live open_and_mutable >>= λ b.
      if b then throw open_position_error else open_at now qty price

  unfoldable pub move_of : D → D → Bool → Move
  move_of position_qty qty reduce_only =
      let product = d.mul position_qty qty in
      if d.eq position_qty d.nought
      then opens
      else if d.eq (add_floats x position_qty qty) d.nought
      then closes
      else if d.lt d.nought product
      then (if reduce_only then nothing else increases)
      else if d.lt product d.nought
      then (if d.lt (d.abs position_qty) (d.abs qty)
          then (if reduce_only then closes else flips)
          else reduces)
      else nothing

  abbrev perform : ℕ → D → D → D → Move → M (Position D E) (Unit {0})
  perform now old qty price opens = open_position now qty price
  perform now old qty price closes = close_position now price
  perform now old qty price increases = increase qty price
  perform now old qty price reduces = reduce qty price
  perform now old qty price flips =
      close_position now price >> open_position now (add_floats x old qty) price
  perform now old qty price nothing = pure tt

  abbrev order_price : Order D → D
  order_price o = elim o.price [ none ↦ d.nought | some p ↦ p ]

  abbrev charge : Order D → ExchangeType → M (Position D E) (Unit {0})
  charge o spot = pure tt
  charge o futures = call d f c x ex live (ex.charge_fee (d.mul o.qty (order_price o)))

  unfoldable pub on_backtest_order : ℕ → Order D → M (Position D E) (Unit {0})
  unfolding open_position close_position increase reduce move_of
  on_backtest_order now o = ask d f c x ex live (type_of d f c x ex live) >>= charge o >> λ p.
      perform now p.qty o.qty (order_price o) (move_of p.qty o.qty o.reduce_only) p

  -- The four tests of the live spot branch, each with the least quantity that is current then
  abbrev when : (D → Bool) → M (Position D E) (Unit {0}) → M (Position D E) (Unit {0})
  when g m =
      ask d f c x ex live (get_min_qty d f c x ex live) >>= λ least. if g least then m else pure tt

  -- `a <= b` of doubles
  abbrev le : D → D → Bool
  le a b = d.lt a b || d.eq a b

  abbrev live_spot : ℕ → D → D → D → D → M (Position D E) (Unit {0})
  live_spot now before after qty price =
      when (λ m. d.lt m before && le after m) (close_position now price)
      >> when (λ m. d.lt before m && d.lt m after) (open_position now qty price)
      >> when (λ m. d.lt before after && d.lt m before) (increase qty price)
      >> when (λ m. d.lt after before && d.lt m after) (reduce qty price)

  abbrev on_live_order : ℕ → Order D → ExchangeType → M (Position D E) (Unit {0})
  on_live_order now o futures p = (ok tt, p)
  on_live_order now o spot p = live_spot now p.previous_qty p.qty o.qty (order_price o) p

  -- The futures branch of live trading only calls the empty `close()`.
  unfoldable pub on_executed_order : ℕ → Order D → M (Position D E) (Unit {0})
  unfolding on_backtest_order
  on_executed_order now o =
      if live
      then ask d f c x ex live (type_of d f c x ex live) >>= on_live_order now o
      else on_backtest_order now o

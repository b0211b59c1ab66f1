-- ===== src/Position/Figures.antt =====
-- src/Position.cpp: the figures of a position that reports show. NaN, the three constants of the
-- code, and the leverage mode of an exchange are arguments.
pub mod Prices
use cipher_trader.Prelude.{
  ℕ, ◌≡◌, refl, Bool, true, false, not, ◌||◌, Option, none, some, if◌then◌else◌, Result, ok, err,
  null_pointer, and_then, arith, Bool-cases,
}
use cipher_trader.Double.{Double}
use cipher_trader.Helper.Decimal.{Decimals}
use cipher_trader.Enums.{
  ExchangeType, PositionType, LeverageMode, spot, futures, long, short, close, cross, isolated,
}
use cipher_trader.Position.{
  Position, PositionExchange, Casts, type_of, type_by_qty, get_min_qty, get_position_type,
  closed_type, is_close,
}

-- A NaN of `std::nanf`, the maintenance rate 0.004, the number 100, and `Exchange::getLeverageMode`
pub record Constants (D E : Type 0) : Type 0 where
  pub nan : D
  pub maintenance : D
  pub hundred : D
  pub leverage_mode : E → LeverageMode

module _ {D F E : Type 0} (d : Double D) (f : Double F) (c : Casts D F) (x : Decimals D)
    (ex : PositionExchange D E) (k : Constants D E) (live : Bool) where
  -- `std::isnan`
  abbrev pub is_nan : D → Bool
  is_nan v = not (d.eq v v)

  abbrev entry_price : Position D E → D
  entry_price p = elim p.entry_price [ none ↦ d.nought | some v ↦ v ]

  abbrev value_at : Position D E → Option D → Bool → D
  value_at p current true = d.nought
  value_at p none false = k.nan
  value_at p (some price) false = d.abs (d.mul price p.qty)

  unfoldable pub get_value : Position D E → Result D
  get_value p = and_then (is_close d f c x ex live p) λ q. ok (value_at p p.current_price q)

  abbrev leverage_of : ExchangeType → D
  leverage_of spot = d.one
  leverage_of futures = k.nan

  unfoldable pub get_leverage : Position D E → Result D
  get_leverage p = and_then (type_of d f c x ex live p) λ t. ok (leverage_of t)

  unfoldable pub get_initial_margin_rate : Position D E → Result D
  unfolding get_leverage
  get_initial_margin_rate p = and_then (get_leverage p) λ v. ok (d.div d.one v)

  abbrev mode_on : E → ExchangeType → Option LeverageMode
  mode_on e spot = none
  mode_on e futures = some (k.leverage_mode e)

  unfoldable pub get_leverage_mode : Position D E → Result (Option LeverageMode)
  get_leverage_mode p = elim p.exchange [
    | none ↦ err null_pointer
    | some e ↦ ok (mode_on e (ex.exchange_type e))
  ]

  abbrev bankruptcy_at : D → D → PositionType → D
  bankruptcy_at entry rate long = d.mul entry (d.sub d.one rate)
  bankruptcy_at entry rate short = d.mul entry (d.add d.one rate)
  bankruptcy_at entry rate close = k.nan

  -- A closed position does not ask for the margin rate.
  abbrev bankruptcy_of : Position D E → PositionType → Result D
  bankruptcy_of p close = ok k.nan
  bankruptcy_of p t =
      and_then (get_initial_margin_rate p) λ rate. ok (bankruptcy_at (entry_price p) rate t)

  unfoldable pub get_bankruptcy_price : Position D E → Result D
  unfolding get_initial_margin_rate
  get_bankruptcy_price p = and_then (get_position_type d f c x ex live p) (bankruptcy_of p)

  abbrev liquidation_at : D → D → PositionType → D
  liquidation_at entry rate long = d.mul entry (d.add (d.sub d.one rate) k.maintenance)
  liquidation_at entry rate short = d.mul entry (d.sub (d.add d.one rate) k.maintenance)
  liquidation_at entry rate close = k.nan

  abbrev isolated_price : Position D E → PositionType → Result D
  isolated_price p close = ok k.nan
  isolated_price p t =
      and_then (get_initial_margin_rate p) λ rate. ok (liquidation_at (entry_price p) rate t)

  abbrev price_in_mode : Position D E → Option LeverageMode → Result D
  price_in_mode p none = ok k.nan
  price_in_mode p (some cross) = ok k.nan
  price_in_mode p (some isolated) =
      and_then (get_position_type d f c x ex live p) (isolated_price p)

  abbrev open_price : Position D E → Result (Option D)
  open_price p =
      if live
      then ok p.liquidation_price
      else and_then (and_then (get_leverage_mode p) (price_in_mode p)) λ v. ok (some v)

  abbrev price_if_open : Position D E → Bool → Result (Option D)
  price_if_open p true = ok (some k.nan)
  price_if_open p false = open_price p

  unfoldable pub get_liquidation_price : Position D E → Result (Option D)
  unfolding get_initial_margin_rate get_leverage_mode
  get_liquidation_price p = and_then (is_close d f c x ex live p) (price_if_open p)

  abbrev signed_profit : D → PositionType → D
  signed_profit diff short = d.neg diff
  signed_profit diff _ = diff

  abbrev pnl_at : Position D E → D → D → PositionType → D
  pnl_at p entry value t =
      if d.eq value d.nought || is_nan value
      then d.nought
      else signed_profit (d.sub value (d.abs (d.mul entry p.qty))) t

  abbrev pnl_from : Position D E → Option D → Result D
  pnl_from p none = ok d.nought
  pnl_from p (some entry) =
      and_then (get_value p)
        λ value. and_then (get_position_type d f c x ex live p) λ t. ok (pnl_at p entry value t)

  unfoldable pub get_pnl : Position D E → Result D
  unfolding get_value
  get_pnl p =
      and_then (get_min_qty d f c x ex live p)
        λ least. if d.lt (d.abs p.qty) least then ok d.nought else pnl_from p p.entry_price

  abbrev total_cost : Position D E → Result D
  total_cost p =
      let base_cost = d.mul (entry_price p) (d.abs p.qty) in
      elim p.strategy [
        | none ↦ ok base_cost
        | some s ↦ and_then (get_leverage p) λ v. ok (d.div base_cost v)
      ]

  unfoldable pub get_total_cost : Position D E → Result D
  unfolding get_leverage
  get_total_cost p = and_then (is_close d f c x ex live p) λ q. if q then ok k.nan else total_cost p

  -- `getRoi` and `getPnlPercentage`
  unfoldable pub get_roi : Position D E → Result D
  unfolding get_pnl get_total_cost
  get_roi p = and_then (get_pnl p) λ pnl.
      let percentage = and_then (get_total_cost p) λ cost. ok (d.mul (d.div pnl cost) k.hundred) in
      if d.eq pnl d.nought then ok d.nought else percentage

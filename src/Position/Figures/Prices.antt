-- ===== src/Position/Figures/Prices.antt =====
-- `Position`: which liquidation prices and profits the code can answer.
use cipher_trader.Prelude.{
  ◌≡◌, refl, true, false, none, some, ok, arith, Bool-cases, Option-cases, ◌⊎◌, inl, inr,
}
use cipher_trader.Double.{Double}
use cipher_trader.Helper.Decimal.{Decimals}
use cipher_trader.Enums.{
  ExchangeType, PositionType, LeverageMode, spot, futures, long, short, close, cross, isolated,
}
use cipher_trader.Position.{
  Position, PositionExchange, Casts, type_of, type_by_qty, get_min_qty, get_position_type,
  closed_type, is_close,
}
use cipher_trader.Position.Figures.{
  Constants, get_liquidation_price, get_initial_margin_rate, get_leverage, get_leverage_mode,
  open_price, price_in_mode, isolated_price, liquidation_at, entry_price, get_pnl, get_roi,
  get_value,
}

-- NaN is not equal to itself, and arithmetic with it gives NaN.
pub record PropagatesNan {D E : Type 0} (d : Double D) (k : Constants D E) : Type 0 where
  pub nan-Nan : d.eq k.nan k.nan ≡ false
  pub add-Nan : (a b : D) → d.eq a a ≡ false → d.eq (d.add a b) (d.add a b) ≡ false
  pub add-Nan-right : (a b : D) → d.eq b b ≡ false → d.eq (d.add a b) (d.add a b) ≡ false
  pub sub-Nan : (a b : D) → d.eq a a ≡ false → d.eq (d.sub a b) (d.sub a b) ≡ false
  pub sub-Nan-right : (a b : D) → d.eq b b ≡ false → d.eq (d.sub a b) (d.sub a b) ≡ false
  pub mul-Nan-right : (a b : D) → d.eq b b ≡ false → d.eq (d.mul a b) (d.mul a b) ≡ false
  pub div-Nan-right : (a b : D) → d.eq b b ≡ false → d.eq (d.div a b) (d.div a b) ≡ false

module _ {D F E : Type 0} (d : Double D) (f : Double F) (c : Casts D F) (x : Decimals D)
    (ex : PositionExchange D E) (k : Constants D E) (rules : PropagatesNan d k) where
  abbrev IsNan : D → Type 0
  IsNan v = d.eq v v ≡ false

  abbrev futures_rate : D
  futures_rate = d.div d.one k.nan

  liquidation_at-IsNan :
      (entry : D) (t : PositionType)
      → IsNan (liquidation_at d f c x ex k false entry futures_rate t)
  liquidation_at-IsNan entry long =
      rules.mul-Nan-right entry (d.add (d.sub d.one futures_rate) k.maintenance) (
        rules.add-Nan (d.sub d.one futures_rate) k.maintenance
          (rules.sub-Nan-right d.one futures_rate (rules.div-Nan-right d.one k.nan rules.nan-Nan)))
  liquidation_at-IsNan entry short =
      rules.mul-Nan-right entry (d.sub (d.add d.one futures_rate) k.maintenance) (
        rules.sub-Nan (d.add d.one futures_rate) k.maintenance
          (rules.add-Nan-right d.one futures_rate (rules.div-Nan-right d.one k.nan rules.nan-Nan)))
  liquidation_at-IsNan entry close = rules.nan-Nan

  isolated_price-IsNan :
      (p : Position D E) (t : PositionType)
      → type_of d f c x ex false p ≡ ok futures
      → (v : D) × (isolated_price d f c x ex k false p t ≡ ok v) × IsNan v
  unfolding get_initial_margin_rate get_leverage
  isolated_price-IsNan p long i = (
    liquidation_at d f c x ex k false (entry_price d f c x ex k false p) futures_rate long,
    ground (arith, i),
    liquidation_at-IsNan (entry_price d f c x ex k false p) long,
  )
  isolated_price-IsNan p short i = (
    liquidation_at d f c x ex k false (entry_price d f c x ex k false p) futures_rate short,
    ground (arith, i),
    liquidation_at-IsNan (entry_price d f c x ex k false p) short,
  )
  isolated_price-IsNan p close i = (k.nan, refl, rules.nan-Nan)

  price_in_mode-IsNan :
      (p : Position D E) (m : LeverageMode)
      → type_of d f c x ex false p ≡ ok futures
      → (v : D) × (price_in_mode d f c x ex k false p (some m) ≡ ok v) × IsNan v
  unfolding get_position_type get_min_qty
  price_in_mode-IsNan p cross i = (k.nan, refl, rules.nan-Nan)
  price_in_mode-IsNan p isolated i =
      isolated_price-IsNan p (type_by_qty d f c x ex false p.qty d.nought) i

  open_price-IsNan :
      (p : Position D E) (e : E) (t : ExchangeType)
      → p.exchange ≡ some e
      → ex.exchange_type e ≡ t
      → (v : D) × (open_price d f c x ex k false p ≡ ok (some v)) × IsNan v
  unfolding get_leverage_mode
  open_price-IsNan p e spot h i = (k.nan, ground (arith, h, i), rules.nan-Nan)
  open_price-IsNan p e futures h i =
      let (v, j, n) = price_in_mode-IsNan p (k.leverage_mode e) (ground (arith, h, i)) in
      (v, ground (arith, h, i, j), n)

  -- Outside live trading no position has a liquidation price that is a number: whatever exchange the
  -- position has, `getLiquidationPrice` answers NaN. It asks that arithmetic with NaN gives NaN.
  pub liquidation_price_is_nan :
      (p : Position D E) (e : E)
      → p.exchange ≡ some e
      → (v : D) × (get_liquidation_price d f c x ex k false p ≡ ok (some v)) × (d.eq v v ≡ false)
  unfolding get_liquidation_price is_close get_position_type get_min_qty get_leverage_mode
      get_initial_margin_rate get_leverage
  liquidation_price_is_nan p e h =
      elim (Bool-cases
        (closed_type d f c x ex false (type_by_qty d f c x ex false p.qty d.nought))) [
          | inl b ↦ (k.nan, ground (arith, b), rules.nan-Nan)
          | inr b ↦
              let (v, j, n) = open_price-IsNan p e (ex.exchange_type e) h refl in
              (v, ground (arith, b, j), n)
        ]

  pnl-nought :
      (p : Position D E)
      → d.eq d.nought d.nought ≡ true
      → (p.entry_price ≡ none) ⊎ (p.current_price ≡ none)
      → get_pnl d f c x ex k false p ≡ ok d.nought
  unfolding get_pnl get_value is_close get_position_type get_min_qty
  pnl-nought p h (inl i) = ground (arith, i)
  pnl-nought p h (inr i) =
      elim (Bool-cases
        (closed_type d f c x ex false (type_by_qty d f c x ex false p.qty d.nought))) [
          | inl b ↦ elim (Option-cases p.entry_price) [
            | inl j ↦ ground (arith, j)
            | inr (e, j) ↦ ground (arith, h, i, b, j)
          ]
          | inr b ↦ elim (Option-cases p.entry_price) [
            | inl j ↦ ground (arith, j)
            | inr (e, j) ↦ ground (arith, i, b, j, rules.nan-Nan)
          ]
        ]

  -- Outside live trading a position without an entry price, or without a current price, has no
  -- profit and no return: `getPnl` and `getRoi` answer zero, not NaN. It asks that zero equals
  -- itself, and takes the rules for NaN.
  pub no_price_no_profit :
      (p : Position D E)
      → d.eq d.nought d.nought ≡ true
      → (p.entry_price ≡ none) ⊎ (p.current_price ≡ none)
      → (get_pnl d f c x ex k false p ≡ ok d.nought) × (get_roi d f c x ex k false p ≡ ok d.nought)
  unfolding get_roi
  no_price_no_profit p h i = let j = pnl-nought p h i in (j, ground (arith, h, j))

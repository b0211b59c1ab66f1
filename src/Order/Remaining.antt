-- ===== src/Order/Remaining.antt =====
-- The remaining quantity of an order.
use cipher_trader.Prelude.{◌≡◌, refl, false, ok, ◌⊎◌, inl, inr}
use cipher_trader.Double.{Double, NotNegative, IsIeee}
use cipher_trader.Helper.Qty.{prepare_qty-side}
use cipher_trader.Enums.{OrderSide, buy, sell}
use cipher_trader.Order.{Order, get_remaining_qty}

side_cases : (s : OrderSide) → (s ≡ buy) ⊎ (s ≡ sell)
side_cases buy = inl refl
side_cases sell = inr refl

-- The remaining quantity of an order always exists. It is never negative for a buy order and never
-- positive for a sell order, whatever was filled.
pub remaining_qty-signed :
    {D : Type 0} (d : Double D)
    → IsIeee d
    → (o : Order D)
    → (q : D) × (get_remaining_qty d o ≡ ok q)
      × (((o.order_side ≡ buy) × NotNegative d q)
          ⊎ ((o.order_side ≡ sell) × (d.lt d.nought q ≡ false)))
unfolding get_remaining_qty
remaining_qty-signed d laws o = elim (side_cases o.order_side) [
  | inl b ↦ (
    d.abs (d.sub (d.abs o.qty) (d.abs o.filled_qty)),
    rw b (prepare_qty-side d (d.sub (d.abs o.qty) (d.abs o.filled_qty)) buy),
    inl (b, laws.abs-NotNegative (d.sub (d.abs o.qty) (d.abs o.filled_qty))),
  )
  | inr e ↦ (
    d.neg (d.abs (d.sub (d.abs o.qty) (d.abs o.filled_qty))),
    rw e (prepare_qty-side d (d.sub (d.abs o.qty) (d.abs o.filled_qty)) sell),
    inr (e, laws.neg-abs-not_positive (d.sub (d.abs o.qty) (d.abs o.filled_qty))),
  )
]

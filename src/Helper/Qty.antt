-- ===== src/Helper/Qty.antt =====
-- src/Helper.cpp: `prepareQty`, the signed quantity of an order, and `isPriceNear`.
use cipher_trader.Prelude.{
  ℕ, ◌+◌, ◌≡◌, refl, Bool, ◌&&◌, ◌||◌, map, leb, if◌then◌else◌, Text, codes, text_eq, Result, ok,
  err, invalid_argument,
}
use cipher_trader.Double.{Double}
use cipher_trader.Enums.{OrderSide, buy, sell, order_side_to_string}

-- `::tolower` of the C locale
abbrev pub to_lower : ℕ → ℕ
to_lower c = if leb 65 c && leb c 90 then c + 32 else c

module _ {D : Type 0} (d : Double D) where
  unfoldable pub prepare_qty : D → Text → Result D
  prepare_qty qty action =
      let lower_side = map to_lower action in
      if text_eq lower_side (codes "sell") || text_eq lower_side (codes "short")
      then ok (d.neg (d.abs qty))
      else if text_eq lower_side (codes "buy") || text_eq lower_side (codes "long")
      then ok (d.abs qty)
      else if text_eq lower_side (codes "close")
      then ok d.nought
      else err invalid_argument

  -- `<=` of doubles is `<` or `==`.
  unfoldable pub is_price_near : D → D → D → Bool
  is_price_near order_price price_to_compare threshold =
      let distance = d.abs (d.sub d.one (d.div order_price price_to_compare)) in
      if d.eq price_to_compare d.nought
      then d.eq order_price d.nought
      else d.lt distance threshold || d.eq distance threshold

  pub prepare_qty-side :
      (qty : D) (s : OrderSide)
      → prepare_qty qty (codes (order_side_to_string s))
        ≡ elim s [ buy ↦ ok (d.abs qty) | sell ↦ ok (d.neg (d.abs qty)) ]
  unfolding prepare_qty order_side_to_string
  prepare_qty-side qty buy = refl
  prepare_qty-side qty sell = refl

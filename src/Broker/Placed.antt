-- ===== src/Broker/Placed.antt =====
-- `Broker`: which order a call that reduces a position leaves in the order book, and where the orders
-- of a strategy stand.
use cipher_trader.Prelude.{
  ℕ, ◌≡◌, refl, Bool, true, false, Option, some, Text, Result, ok, arith, ◌⊎◌, inl, inr, Bool-cases,
  sym, subst,
}
use cipher_trader.Double.{Double}
use cipher_trader.Helper.Decimal.{Decimals}
use cipher_trader.Helper.Sides.{opposite_side, position_type_to_order_side}
use cipher_trader.Helper.Qty.{is_price_near}
use cipher_trader.Enums.{
  OrderSide, OrderType, PositionType, buy, sell, long, short, close, market, limit, stop, sandbox,
}
use cipher_trader.Orders.{OrdersState}
use cipher_trader.Exchange.Sandbox.Placing.{Queues, new_orders_queue_up}
use cipher_trader.Position.{PositionExchange, Casts, get_position_type, is_close, closed_type}
use cipher_trader.Api.{Api, has_driver, market_order, limit_order, stop_order}
use cipher_trader.Broker.{Broker, reduce_by, reducing_side, reduce_position_at}

module _ {D : Type 0} (d : Double D) (near : D) where
  -- The type of the order by its price, where a limit order is made as STOP and a stop order as LIMIT
  abbrev pub OfKind : PositionType → OrderSide → D → D → OrderType → Type 0
  OfKind t side price current ty =
      ((is_price_near d price current near ≡ true) × (ty ≡ market))
      ⊎ ((is_price_near d price current near ≡ false)
          × (side ≡ sell)
          × (d.lt current price ≡ true)
          × (ty ≡ stop))
      ⊎ ((is_price_near d price current near ≡ false)
          × (side ≡ buy)
          × (d.lt price current ≡ true)
          × (ty ≡ stop))
      ⊎ ((is_price_near d price current near ≡ false)
          × (side ≡ sell)
          × (d.lt price current ≡ true)
          × (ty ≡ limit))
      ⊎ ((is_price_near d price current near ≡ false)
          × (side ≡ buy)
          × (d.lt current price ≡ true)
          × (ty ≡ limit))

  -- The prices can be compared, or are near.
  abbrev pub Comparable : D → D → Type 0
  Comparable price current =
      (is_price_near d price current near ≡ true)
      ⊎ (d.lt price current ≡ true)
      ⊎ (d.lt current price ≡ true)

module _ {D F E : Type 0} (d : Double D) (f : Double F) (c : Casts D F) (x : Decimals D)
    (ex : PositionExchange D E) (live : Bool) (near : D) (api : Api) (b : Broker D E) where
  -- The call answers an order that it placed at the sandbox: of the type `ty`, on the side `side`,
  -- reduce-only
  abbrev pub Reduces :
      Text
      → ℕ
      → D
      → D
      → OrderSide
      → OrderType
      → OrdersState D
      → Result (Option ℕ) × OrdersState D
      → Type 0
  Reduces id now qty price side ty s result =
      (r : ℕ) × (u : OrdersState D) × (result ≡ (ok (some r), u))
      × Queues d sandbox id now ty b.symbol qty price side true s r u

  market-Reduces :
      (id : Text) (now : ℕ) (qty price : D) (side : OrderSide) (s : OrdersState D)
      → has_driver b.exchange_name api.drivers ≡ true
      → Reduces id now qty price side market s
          (market_order d api b.exchange_name id now b.symbol qty price side true s)
  unfolding market_order
  market-Reduces id now qty price side s h =
      let (r, m, l, u, (em, pm, _), _, _) =
        new_orders_queue_up d sandbox id now b.symbol qty price side true s in
      (r, m, rw (h, em) refl, pm)

  limit-Reduces :
      (id : Text) (now : ℕ) (qty price : D) (side : OrderSide) (s : OrdersState D)
      → has_driver b.exchange_name api.drivers ≡ true
      → Reduces id now qty price side stop s
          (limit_order d api b.exchange_name id now b.symbol qty price side true s)
  unfolding limit_order
  limit-Reduces id now qty price side s h =
      let (r, m, l, u, _, (el, pl, _), _) =
        new_orders_queue_up d sandbox id now b.symbol qty price side true s in
      (r, l, rw (h, el) refl, pl)

  stop-Reduces :
      (id : Text) (now : ℕ) (qty price : D) (side : OrderSide) (s : OrdersState D)
      → has_driver b.exchange_name api.drivers ≡ true
      → Reduces id now qty price side limit s
          (stop_order d api b.exchange_name id now b.symbol qty price side true s)
  unfolding stop_order
  stop-Reduces id now qty price side s h =
      let (r, m, l, u, _, _, (eu, pu, _)) =
        new_orders_queue_up d sandbox id now b.symbol qty price side true s in
      (r, u, rw (h, eu) refl, pu)

  stop-Reduces_abs :
      (id : Text) (now : ℕ) (qty price : D) (side : OrderSide) (s : OrdersState D)
      → has_driver b.exchange_name api.drivers ≡ true
      → d.abs qty ≡ qty
      → Reduces id now qty price side limit s
          (stop_order d api b.exchange_name id now b.symbol (d.abs qty) price side true s)
  stop-Reduces_abs id now qty price side s h a =
      subst
        (λ q.
          Reduces id now qty price side limit s
            (stop_order d api b.exchange_name id now b.symbol q price side true s))
        (sym a) (stop-Reduces id now qty price side s h)

  -- The side that reduces a position of a type
  abbrev pub Closes : PositionType → OrderSide → Type 0
  Closes t side = ((t ≡ long) × (side ≡ sell)) ⊎ ((t ≡ short) × (side ≡ buy))

  reduce_by-Reduces :
      (id : Text) (now : ℕ) (qty price current : D) (t : PositionType) (side : OrderSide)
      (s : OrdersState D)
      → has_driver b.exchange_name api.drivers ≡ true
      → d.abs qty ≡ qty
      → reducing_side d f c x ex live near api b t ≡ ok side
      → Comparable d near price current
      → (ty : OrderType) × OfKind d near t side price current ty
        × Reduces id now qty price side ty s
            (reduce_by d f c x ex live near api b id now qty price current t side s)
  unfolding reduce_by position_type_to_order_side opposite_side
  reduce_by-Reduces id now qty price current close side s h a i j = ground (arith, i)
  reduce_by-Reduces id now qty price current long buy s h a i j = ground (arith, i)
  reduce_by-Reduces id now qty price current short sell s h a i j = ground (arith, i)
  reduce_by-Reduces id now qty price current long sell s h a i j =
      elim (Bool-cases (is_price_near d price current near)) [
        | inl n ↦ (market, inl (n, refl), rw n (market-Reduces id now qty price sell s h))
        | inr n ↦ elim (Bool-cases (d.lt current price)) [
          | inl g ↦ (
            stop,
            inr (inl (n, refl, g, refl)),
            rw (n, g) (limit-Reduces id now qty price sell s h),
          )
          | inr g ↦
              let l : d.lt price current ≡ true = ground (arith, n, g, j) in
              (
                limit,
                inr (inr (inr (inl (n, refl, l, refl)))),
                rw (n, g, l) (stop-Reduces_abs id now qty price sell s h a),
              )
        ]
      ]
  reduce_by-Reduces id now qty price current short buy s h a i j =
      elim (Bool-cases (is_price_near d price current near)) [
        | inl n ↦ (market, inl (n, refl), rw n (market-Reduces id now qty price buy s h))
        | inr n ↦ elim (Bool-cases (d.lt price current)) [
          | inl g ↦ (
            stop,
            inr (inr (inl (n, refl, g, refl))),
            rw (n, g) (limit-Reduces id now qty price buy s h),
          )
          | inr g ↦
              let l : d.lt current price ≡ true = ground (arith, n, g, j) in
              (
                limit,
                inr (inr (inr (inr (n, refl, l, refl)))),
                rw (n, g, l) (stop-Reduces_abs id now qty price buy s h a),
              )
        ]
      ]

  reducing_side-Closes :
      (t : PositionType)
      → (t ≡ long) ⊎ (t ≡ short)
      → (side : OrderSide) × Closes t side × (reducing_side d f c x ex live near api b t ≡ ok side)
  unfolding position_type_to_order_side opposite_side
  reducing_side-Closes long h = (sell, inl (refl, refl), refl)
  reducing_side-Closes short h = (buy, inr (refl, refl), refl)
  reducing_side-Closes close h = ground (arith, h)

  -- A call that reduces an open position at a price places an order, if the exchange of the broker has
  -- a driver, the quantity is not zero, the price is not negative, and the two prices are near or can
  -- be compared. It is one queued, reduce-only order of the side that closes the position, at the
  -- price, whose quantity is the given one with the sign of that side. It is the last order of the
  -- symbol in the order book of the sandbox; no other order changes. Its type is MARKET for a price near the current one, STOP where the price is a
  -- gain, and LIMIT where it is a loss.
  pub reduce_orders_close :
      (id : Text) (now : ℕ) (qty price current : D) (t : PositionType) (s : OrdersState D)
      → has_driver b.exchange_name api.drivers ≡ true
      → d.abs (d.abs qty) ≡ d.abs qty
      → d.eq qty d.nought ≡ false
      → d.lt price d.nought ≡ false
      → get_position_type d f c x ex live b.position ≡ ok t
      → (t ≡ long) ⊎ (t ≡ short)
      → Comparable d near price current
      → (side : OrderSide) × (ty : OrderType) × Closes t side
        × OfKind d near t side price current ty
        × Reduces id now
            (d.abs qty)
            price
            side
            ty
            s
            (reduce_position_at d f c x ex live near api b id now qty price current s)
  unfolding reduce_position_at is_close
  reduce_orders_close id now qty price current t s h a n g e i j =
      let (side, k, m) = reducing_side-Closes t i in
      let (ty, kind, placed) =
        reduce_by-Reduces id now (d.abs qty) price current t side s h a m j in
      let o : closed_type d f c x ex live t ≡ false = ground (arith, i) in
      (side, ty, k, kind, rw (n, g, e, o, m) placed)

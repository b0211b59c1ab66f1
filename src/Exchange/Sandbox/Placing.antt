-- ===== src/Exchange/Sandbox/Placing.antt =====
-- `Sandbox`: what placing an order does, and that a market order is executed.
use cipher_trader.Prelude.{
  All-map, ℕ, suc, ◌<◌, ◌≡◌, refl, ap, sym, Bool, true, none, some, List, [], ◌∷◌, ◌++◌, get_elem?,
  length, Text, All, All-append, ok, arith, length-append,
}
use cipher_trader.Prelude.Dict.{insert_same}
use cipher_trader.Double.{Double}
use cipher_trader.Enums.{ExchangeName, OrderSide, buy, sell, OrderType, market, limit, stop, queued}
use cipher_trader.Helper.Qty.{prepare_qty-side}
use cipher_trader.Order.{Order, is_executed, is_canceled}
use cipher_trader.Orders.{
  OrdersState, at_key, key_of, test, allocate, add_order, add_order_to_execute, get_orders, add_at,
  get_active_orders, execute_pending_market_orders,
}
use cipher_trader.Orders.Live.{live, last_is_executed}
use cipher_trader.Prelude.Slices.{get_elem?-lt}
use cipher_trader.Exchange.Sandbox.{
  new_order, book, then_execute, place, signed_qty, market_order, limit_order, stop_order,
}

module _ {A : Type 0} where
  get_elem?-last : (xs : List A) (x : A) → get_elem? (xs ++ (x ∷ [])) (length xs) ≡ some x
  get_elem?-last [] x = refl
  get_elem?-last (y ∷ xs) x = get_elem?-last xs x

module _ {D : Type 0} (d : Double D) (name : ExchangeName) where
  -- The order that is placed stands at `r` of `t`, which has it as the last order of its symbol, and
  -- among the orders before it nothing changed.
  abbrev pub Placed : Order D → OrdersState D → ℕ → OrdersState D → Type 0
  Placed o s r t =
      (t.heap ≡ s.heap ++ (o ∷ []))
      × (get_elem? t.heap r ≡ some o)
      × (get_orders name o.symbol t ≡ get_orders name o.symbol s ++ (r ∷ []))
      × (get_active_orders name o.symbol t ≡ get_active_orders name o.symbol s ++ (r ∷ []))

  abbrev pub with_sign : OrderSide → D → D
  with_sign buy qty = d.abs qty
  with_sign sell qty = d.neg (d.abs qty)

  -- The order is queued and has what it was asked for, with the sign of its side.
  abbrev pub IsAsked : Text → ℕ → OrderType → Text → D → D → OrderSide → Bool → Order D → Type 0
  IsAsked id now ty symbol qty price side reduce_only o =
      (o.id ≡ id)
      × (o.created_at ≡ now)
      × (o.order_type ≡ ty)
      × (o.symbol ≡ symbol)
      × (o.exchange_name ≡ name)
      × (o.qty ≡ with_sign side qty)
      × (o.price ≡ some price)
      × (o.order_side ≡ side)
      × (o.reduce_only ≡ reduce_only)
      × (o.status ≡ queued)
      × (o.filled_qty ≡ d.nought)
      × (o.executed_at ≡ none)
      × (o.canceled_at ≡ none)

  -- One new order stands at `r`: the one that was asked for.
  abbrev pub Queues :
      Text
      → ℕ
      → OrderType
      → Text
      → D
      → D
      → OrderSide
      → Bool
      → OrdersState D
      → ℕ
      → OrdersState D
      → Type 0
  Queues id now ty symbol qty price side reduce_only s r t =
      (o : Order D) × IsAsked id now ty symbol qty price side reduce_only o × Placed o s r t

  add_order-some :
      (r : ℕ) (t : OrdersState D) (o : Order D)
      → get_elem? t.heap r ≡ some o
      → add_order r t ≡ add_at (key_of o) r t
  unfolding add_order
  add_order-some r t o e = ground (arith, e)

  booked :
      (o : Order D) (s : OrdersState D)
      → o.exchange_name ≡ name
      → (t : OrdersState D) × (book d name o s ≡ (length s.heap, t))
        × Placed o s (length s.heap) t
        × (t.to_execute ≡ s.to_execute)
  unfolding book allocate get_orders get_active_orders
  booked o s e =
      let there = get_elem?-last s.heap o in
      let t : OrdersState D = record s { heap = s.heap ++ (o ∷ []) } in
      let r = length s.heap in
      let key = key_of o in
      (
        add_at key r t,
        ap (λ u. (r, u)) (add_order-some r t o there),
        (
          refl,
          there,
          rw (sym e) (insert_same key (at_key key s.storage ++ (r ∷ [])) [] s.storage),
          rw (sym e)
              (insert_same key (at_key key s.active_storage ++ (r ∷ [])) [] s.active_storage),
        ),
        refl,
      )

  signed_qty-ok :
      (qty : D) (side : OrderSide) → signed_qty d name qty side ≡ ok (with_sign side qty)
  signed_qty-ok qty buy = prepare_qty-side d qty buy
  signed_qty-ok qty sell = prepare_qty-side d qty sell

  placed :
      (id : Text) (now : ℕ) (ty : OrderType) (symbol : Text) (qty price : D) (side : OrderSide)
      (reduce_only : Bool) (s : OrdersState D)
      → (t : OrdersState D) × (place d name id now ty symbol
            (signed_qty d name qty side)
            price
            side
            reduce_only
            s
          ≡ (ok (length s.heap), t))
        × Queues id now ty symbol qty price side reduce_only s (length s.heap) t
        × (t.to_execute ≡ s.to_execute)
  unfolding new_order
  placed id now ty symbol qty price side reduce_only s =
      let o = new_order d name id now ty symbol (with_sign side qty) price side reduce_only in
      let (t, e, p, same) = booked o s refl in
      let asked : IsAsked id now ty symbol qty price side reduce_only o =
        (refl, refl, refl, refl, refl, refl, refl, refl, refl, refl, refl, refl, refl) in
      (t, rw (signed_qty-ok qty side, e) refl, (o, asked, p), same)

  -- Each of the three ways to place an order always succeeds. It makes one order, which has the
  -- status QUEUED, the side, symbol, price and reduce-only flag that were asked for, the quantity with
  -- the sign of the side, and nothing filled. This is the last order of its symbol in both lists, and
  -- no other order changes. A limit order is made with the type STOP, a stop order with the type
  -- LIMIT. Only a market order, of type MARKET, joins the queue for the execution.
  pub new_orders_queue_up :
      (id : Text) (now : ℕ) (symbol : Text) (qty price : D) (side : OrderSide) (reduce_only : Bool)
      (s : OrdersState D)
      → (r : ℕ) × (m l c : OrdersState D) × ((market_order d name id now symbol qty price side
              reduce_only s
            ≡ (ok r, m))
          × Queues id now market symbol qty price side reduce_only s r m
          × (m.to_execute ≡ s.to_execute ++ (r ∷ [])))
        × ((limit_order d name id now symbol qty price side reduce_only s ≡ (ok r, l))
            × Queues id now stop symbol qty price side reduce_only s r l
            × (l.to_execute ≡ s.to_execute))
        × ((stop_order d name id now symbol qty price side reduce_only s ≡ (ok r, c))
            × Queues id now limit symbol qty price side reduce_only s r c
            × (c.to_execute ≡ s.to_execute))
  unfolding market_order limit_order stop_order add_order_to_execute get_orders get_active_orders
  new_orders_queue_up id now symbol qty price side reduce_only s =
      let r = length s.heap in
      let (m, em, pm, qm) = placed id now market symbol qty price side reduce_only s in
      let (l, el, pl, ql) = placed id now stop symbol qty price side reduce_only s in
      let (c, ec, pc, qc) = placed id now limit symbol qty price side reduce_only s in
      (
        r,
        add_order_to_execute r m,
        l,
        c,
        (ap (then_execute d name) em, pm, ap (λ rs. rs ++ (r ∷ [])) qm),
        (el, pl, ql),
        (ec, pc, qc),
      )

  queued-live : (o : Order D) → o.status ≡ queued → live o ≡ true
  unfolding is_canceled
  queued-live o h = rw h refl

  -- An execution of the queue after a market order executes this order, whatever else is queued.
  pub market_order_gets_done :
      (id : Text) (now : ℕ) (symbol : Text) (qty price : D) (side : OrderSide) (reduce_only : Bool)
      (clock : ℕ → ℕ) (s t : OrdersState D) (r : ℕ)
      → All (λ q. q < length s.heap) s.to_execute
      → market_order d name id now symbol qty price side reduce_only s ≡ (ok r, t)
      → test is_executed (execute_pending_market_orders clock t).heap r ≡ true
  market_order_gets_done id now symbol qty price side reduce_only clock s t r h e =
      let (r', m, _, _, (em, (o, asked, (grown, there, _, _)), queue), _, _) =
        new_orders_queue_up id now symbol qty price side reduce_only s in
      let (_, _, _, _, _, _, _, _, _, status, _, _, _) = asked in
      let same : r' ≡ r = ground (arith, e, em) in
      let same' : m ≡ t = ground (arith, e, em) in
      let one_more : length m.heap ≡ suc (length s.heap) =
        omega (arith, ap length grown, length-append s.heap (o ∷ [])) in
      let in_heap =
        All-append (λ i. i < length m.heap) s.to_execute (r' ∷ [])
          (All-map (λ i. i < length s.heap) (λ i. i < length m.heap) s.to_execute
            (λ i l. omega (arith, l, one_more)) h)
          (get_elem?-lt r' m.heap o there, tt) in
      rw (sym same, sym same')
        (last_is_executed clock m s.to_execute r' queue in_heap
          (ground (arith, there, queued-live o status)))

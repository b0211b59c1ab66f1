-- ===== src/ClosedTrades/Counting.antt =====
-- What `ClosedTradesState` records of an executed order.
use cipher_trader.Prelude.{
  ◌≤◌, ◌≡◌, refl, ◌∙◌, false, none, some, List, [], ◌∷◌, ◌++◌, Text, text_eq, text_eq_iff, ok,
  arith, inl, inr, Bool-cases,
}
use cipher_trader.Prelude.Dict.{insert, lookup, lookup-insert}
use cipher_trader.Double.{Double}
use cipher_trader.Blaze.{Blaze, IsBlaze}
use cipher_trader.DynamicArray.{DynamicArray}
use cipher_trader.DynamicArray.View.{view, Inv}
use cipher_trader.DynamicArray.Append.{view-append}
use cipher_trader.Enums.{OrderSide, buy, sell}
use cipher_trader.Order.{Order, is_partially_filled}
use cipher_trader.Position.{Casts}
use cipher_trader.ClosedTrades.{
  Trade, add_buy_order, add_sell_order, add_order, by_side, price_or_zero,
}
use cipher_trader.ClosedTrades.Recording.{
  State, key, get_current_trade, add_order_record_only, add_executed_order, nil_uuid,
}

module _ {D F : Type 0} (d : Double D) (f : Double F) (c : Casts D F) (b : Blaze D)
    (laws : IsBlaze b) (nan : D) (empty : b.Matrix) where
  -- The rows of the orders of one side
  abbrev pub of_side : OrderSide → Trade d f c b nan → DynamicArray b.Matrix
  of_side buy t = t.buy_orders
  of_side sell t = t.sell_orders

  abbrev with_side : OrderSide → DynamicArray b.Matrix → Trade d f c b nan → Trade d f c b nan
  with_side buy a t = record t { buy_orders = a }
  with_side sell a t = record t { sell_orders = a }

  -- A well-formed array of pairs that drops nothing
  pub record Pairs (a : DynamicArray b.Matrix) : Type 0 where
    pub inv : Inv b laws a
    pub two : a.width ≡ 2
    pub room : 2 ≤ a.bucket_size
    pub all : a.drop_at ≡ none

  by_side_lem :
      (side : OrderSide) (qty price : D) (t : Trade d f c b nan)
      → Pairs (of_side side t)
      → (a : DynamicArray b.Matrix) × (by_side d f c b nan side qty price t
          ≡ (ok tt, with_side side a t))
        × (view b laws a ≡ view b laws (of_side side t) ++ (qty ∷ price ∷ []) ∷ [])
        × Pairs a
  unfolding add_buy_order add_sell_order
  by_side_lem buy qty price t p =
      let (a, e, w, i, wide, k, o) =
        view-append b laws t.buy_orders (qty ∷ price ∷ []) p.inv p.room (ground (arith, p.all)) in
      (
        a,
        rw e refl,
        w ∙ rw (p.all, p.two) refl,
        record { inv = i; two = wide ∙ p.two; room = omega (arith, k, p.room); all = o ∙ p.all },
      )
  by_side_lem sell qty price t p =
      let (a, e, w, i, wide, k, o) =
        view-append b laws t.sell_orders (qty ∷ price ∷ []) p.inv p.room (ground (arith, p.all)) in
      (
        a,
        rw e refl,
        w ∙ rw (p.all, p.two) refl,
        record { inv = i; two = wide ∙ p.two; room = omega (arith, k, p.room); all = o ∙ p.all },
      )

  renamed_side :
      (side : OrderSide) (j : Text) (os : List (Order D)) (t : Trade d f c b nan)
      → of_side side (record t { id = j; orders = os }) ≡ of_side side t
  renamed_side buy j os t = refl
  renamed_side sell j os t = refl

  set_side :
      (side : OrderSide) (a : DynamicArray b.Matrix) (t : Trade d f c b nan)
      → of_side side (with_side side a t) ≡ a
  set_side buy a t = refl
  set_side sell a t = refl

  get_current_trade_lem :
      (id : Text) (o : Order D) (s : State d f c b nan empty) (t : Trade d f c b nan)
      → lookup (key d f c b nan empty o.exchange_name o.symbol) s.temp_trades ≡ some t
      → (j : Text) × (get_current_trade d f c b nan empty id o.exchange_name o.symbol s
          ≡ record t { id = j })
  unfolding get_current_trade
  get_current_trade_lem id o s t h = elim (Bool-cases (text_eq t.id nil_uuid)) [
    | inl fresh ↦ (t.id, rw (h, fresh, get_current_trade) refl)
    | inr old ↦ (id, rw (h, old, get_current_trade) refl)
  ]

  add_order_record_only_lem :
      (id : Text) (o : Order D) (qty price : D) (s : State d f c b nan empty)
      (t : Trade d f c b nan)
      → lookup (key d f c b nan empty o.exchange_name o.symbol) s.temp_trades ≡ some t
      → Pairs (of_side o.order_side t)
      → (s' : State d f c b nan empty) × (t' : Trade d f c b nan) × (add_order_record_only d f c b
            nan empty id o.exchange_name o.symbol o.order_side qty price s
          ≡ (ok tt, s'))
        × (lookup (key d f c b nan empty o.exchange_name o.symbol) s'.temp_trades ≡ some t')
        × (view b laws (of_side o.order_side t')
            ≡ view b laws (of_side o.order_side t) ++ (d.abs qty ∷ price ∷ []) ∷ [])
        × Pairs (of_side o.order_side t')
  unfolding add_order_record_only
  add_order_record_only_lem id o qty price s t h p =
      let k = key d f c b nan empty o.exchange_name o.symbol in
      let (j, e) = get_current_trade_lem id o s t h in
      let same = renamed_side o.order_side j t.orders t in
      let (a, g, w, p') =
        by_side_lem o.order_side (d.abs qty) price (record t { id = j }) (rw same p) in
      let t' = with_side o.order_side a (record t { id = j }) in
      let put = set_side o.order_side a (record t { id = j }) in
      (
        record s { temp_trades = insert k t' s.temp_trades },
        t',
        rw (e, g) refl,
        lookup-insert k k t' s.temp_trades ∙ ground (arith, text_eq_iff k k),
        rw put (w ∙ rw same refl),
        rw put p',
      )

  -- An executed order that is not partially filled, of an exchange and a symbol that have a trade under
  -- way whose rows of that side are well-formed pairs: the call succeeds, and the rows of that side
  -- become the old ones, then the signed quantity and the price, then the absolute quantity and the
  -- price. The order is counted twice.
  pub full_order_counts_twice :
      (id again : Text) (o : Order D) (s : State d f c b nan empty) (t : Trade d f c b nan)
      → lookup (key d f c b nan empty o.exchange_name o.symbol) s.temp_trades ≡ some t
      → Pairs (of_side o.order_side t)
      → is_partially_filled o ≡ false
      → (s' : State d f c b nan empty) × (t' : Trade d f c b nan) × (add_executed_order d f c b nan
            empty id again o s
          ≡ (ok tt, s'))
        × (lookup (key d f c b nan empty o.exchange_name o.symbol) s'.temp_trades ≡ some t')
        × (view b laws (of_side o.order_side t')
            ≡ (view b laws (of_side o.order_side t)
                ++ (o.qty ∷ price_or_zero d f c b nan o ∷ []) ∷ [])
              ++ (d.abs o.qty ∷ price_or_zero d f c b nan o ∷ []) ∷ [])
  unfolding add_order add_executed_order
  full_order_counts_twice id again o s t h p full =
      let k = key d f c b nan empty o.exchange_name o.symbol in
      let (j, e) = get_current_trade_lem id o s t h in
      let os = t.orders ++ record o { trade_id = some j } ∷ [] in
      let u = record t { id = j; orders = os } in
      let same = renamed_side o.order_side j os t in
      let (a, g, w, p') =
        by_side_lem o.order_side o.qty (price_or_zero d f c b nan o) u (rw same p) in
      let t₁ = with_side o.order_side a u in
      let put = set_side o.order_side a u in
      let s₁ = record s { temp_trades = insert k t₁ s.temp_trades } in
      let (s₂, t₂, e₂, l₂, w₂, _) =
        add_order_record_only_lem again o o.qty (price_or_zero d f c b nan o) s₁ t₁
          (lookup-insert k k t₁ s.temp_trades ∙ ground (arith, text_eq_iff k k)) (rw put p') in
      (s₂, t₂, rw (full, e, g, e₂, add_executed_order) refl, l₂, w₂ ∙ rw (put, w, same) refl)

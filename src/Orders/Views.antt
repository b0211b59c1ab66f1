-- ===== src/Orders/Views.antt =====
-- The lists that `OrdersState` answers: entry orders, exit orders, active orders and the search by
-- an identifier.
use cipher_trader.Prelude.{
  ℕ, ◌+◌, ◌≡◌, ◌≢◌, refl, ap, ◌∙◌, Bool, true, false, ◌&&◌, ◌||◌, not, none, some, List, [], ◌∷◌,
  keep_if, count_if, All, arith, inl, inr, Text, ok, Bool-cases,
}
use cipher_trader.Prelude.Dict.{insert_same, insert-cases}
use cipher_trader.Enums.{ExchangeName, OrderSide, PositionType, buy, sell, long, short, close}
use cipher_trader.Helper.Symbols.{make_key}
use cipher_trader.Helper.Sides.{position_type_to_order_side}
use cipher_trader.Order.{Order, is_active, is_canceled, is_executed}
use cipher_trader.Orders.{
  OrdersState, exit_orders, test, at_key, enters, exits, unfinished, get_orders, get_active_orders,
  get_entry_orders, get_active_exit_orders, count_active_orders, update_active_orders,
}

module _ {A : Type 0} where
  keep_if-All : (p : A → Bool) (xs : List A) → All (λ x. p x ≡ true) (keep_if p xs)
  keep_if-All p [] = tt
  keep_if-All p (x ∷ xs) = ground (arith, keep_if-All p xs)

  -- Two tests that split a third one split its list.
  keep_if-split :
      (p q r t : A → Bool)
      → ((x : A) → ((p x || q x) ≡ r x) × ((p x && q x) ≡ false))
      → (xs : List A)
      → count_if t (keep_if p xs) + count_if t (keep_if q xs) ≡ count_if (λ x. t x && r x) xs
  keep_if-split p q r t h [] = refl
  keep_if-split p q r t h (x ∷ xs) = ground (arith, h x, keep_if-split p q r t h xs)

  -- A test that implies another one counts the same after a selection by the other.
  count_if-keep_if :
      (p q : A → Bool)
      → ((x : A) → p x ≡ true → q x ≡ true)
      → (xs : List A) → count_if p (keep_if q xs) ≡ count_if p xs
  count_if-keep_if p q h [] = refl
  count_if-keep_if p q h (x ∷ xs) = elim (Bool-cases (q x)) [
    | inl b ↦ ground (arith, b, count_if-keep_if p q h xs)
    | inr b ↦ elim (Bool-cases (p x)) [
      | inl c ↦ ground (arith, b, c, h x c)
      | inr c ↦ ground (arith, b, c, count_if-keep_if p q h xs)
    ]
  ]

module _ {D : Type 0} where
  not_canceled : Order D → Bool
  not_canceled o = not (is_canceled o)

  sides_split :
      (side : OrderSide) (heap : List (Order D)) (r : ℕ)
      → ((test (enters side) heap r || test (exits side) heap r) ≡ test not_canceled heap r)
        × ((test (enters side) heap r && test (exits side) heap r) ≡ false)
  unfolding not_canceled
  sides_split side heap r = ground arith

  exit_orders_lem :
      (p : PositionType) (side : OrderSide) (rs : List ℕ) (s : OrdersState D)
      → position_type_to_order_side p ≡ ok side
      → exit_orders rs (some (false, p)) s ≡ ok (keep_if (test (exits side) s.heap) rs)
  exit_orders_lem p side [] s h = refl
  exit_orders_lem p side (r ∷ rs) s h = rw h refl

  -- Whatever is counted: in both lists together it stands as often as among the orders of the first
  -- list that are not canceled.
  abbrev pub SplitInto : OrdersState D → List ℕ → List ℕ → List ℕ → Type 0
  SplitInto s active entries leaving =
      (t : ℕ → Bool)
      → count_if t entries + count_if t leaving
        ≡ count_if (λ r. t r && test (λ o. not (is_canceled o)) s.heap r) active

  split_by :
      (name : ExchangeName) (symbol : Text) (p : PositionType) (side : OrderSide)
      (s : OrdersState D)
      → position_type_to_order_side p ≡ ok side
      → (entries : List ℕ) × (leaving : List ℕ) × (get_entry_orders name symbol (some (false, p)) s
          ≡ ok entries)
        × (get_active_exit_orders name symbol (some (false, p)) s ≡ ok leaving)
        × All (λ r. test (enters side) s.heap r ≡ true) entries
        × All (λ r. test (exits side) s.heap r ≡ true) leaving
        × SplitInto s (get_active_orders name symbol s) entries leaving
  unfolding get_entry_orders get_active_exit_orders not_canceled
  split_by name symbol p side s h =
      let active = get_active_orders name symbol s in
      (
        keep_if (test (enters side) s.heap) active,
        keep_if (test (exits side) s.heap) active,
        rw h refl,
        exit_orders_lem p side active s h,
        keep_if-All (test (enters side) s.heap) active,
        keep_if-All (test (exits side) s.heap) active,
        λ t.
            keep_if-split (test (enters side) s.heap) (test (exits side) s.heap)
              (test not_canceled s.heap) t (sides_split side s.heap) active,
      )

  -- While a position is open, every active order of its symbol that is not canceled is either an
  -- entry order, on the side of the position, or an active exit order, on the other side: whatever
  -- test counts them, the two lists together have as many as the active orders that are not canceled.
  -- No order is both, and neither list has a canceled order.
  pub entry_exit_split :
      (name : ExchangeName) (symbol : Text) (p : PositionType) (s : OrdersState D)
      → p ≢ close
      → (side : OrderSide) × (entries : List ℕ) × (leaving : List ℕ) × (position_type_to_order_side
            p
          ≡ ok side)
        × (get_entry_orders name symbol (some (false, p)) s ≡ ok entries)
        × (get_active_exit_orders name symbol (some (false, p)) s ≡ ok leaving)
        × All (λ r. test (enters side) s.heap r ≡ true) entries
        × All (λ r. test (exits side) s.heap r ≡ true) leaving
        × SplitInto s (get_active_orders name symbol s) entries leaving
  unfolding position_type_to_order_side
  entry_exit_split name symbol long s h =
      let (es, ls, a, b, c, e, f) = split_by name symbol long buy s refl in
      (buy, es, ls, refl, a, b, c, e, f)
  entry_exit_split name symbol short s h =
      let (es, ls, a, b, c, e, f) = split_by name symbol short sell s refl in
      (sell, es, ls, refl, a, b, c, e, f)
  entry_exit_split name symbol close s h = absurd (h refl)

  active-unfinished :
      (heap : List (Order D)) (r : ℕ) → test is_active heap r ≡ true → test unfinished heap r ≡ true
  unfolding is_active is_canceled is_executed
  active-unfinished heap r h = ground (arith, h)

  -- `updateActiveOrders` leaves in the list of active orders of the symbol no order that is canceled
  -- or executed, and changes the number of active orders of no symbol. Other lists stay.
  pub update_active_orders_drops_finished :
      (name other : ExchangeName) (symbol symbol' : Text) (s : OrdersState D)
      → All
          (λ r. test unfinished s.heap r ≡ true)
          (get_active_orders name symbol (update_active_orders name symbol s))
        × (count_active_orders other symbol' (update_active_orders name symbol s)
            ≡ count_active_orders other symbol' s)
        × (get_orders other symbol' (update_active_orders name symbol s)
            ≡ get_orders other symbol' s)
  unfolding update_active_orders get_active_orders count_active_orders get_orders
  update_active_orders_drops_finished name other symbol symbol' s =
      let key = make_key name symbol none in
      let key' = make_key other symbol' none in
      let old = at_key key s.active_storage in
      let new = keep_if (test unfinished s.heap) old in
      let same =
        count_if-keep_if (test is_active s.heap) (test unfinished s.heap) (active-unfinished s.heap)
          old in
      (
        rw (insert_same key new [] s.active_storage) (keep_if-All (test unfinished s.heap) old),
        elim (insert-cases key key' new [] s.active_storage) [
          | inl (e, w) ↦
              ap (count_if (test is_active s.heap)) w
              ∙ same
              ∙ ap (λ k. count_if (test is_active s.heap) (at_key k s.active_storage)) e
          | inr (_, w) ↦ ap (count_if (test is_active s.heap)) w
        ],
        refl,
      )

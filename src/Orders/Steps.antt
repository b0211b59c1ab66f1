-- ===== src/Orders/Steps.antt =====
-- The calls of `OrdersState` as a step relation, and what a clearing of its maps leaves.
use cipher_trader.Prelude.{
  ℕ, ◌≡◌, refl, ◌∙◌, Bool, true, false, some, List, [], ◌∷◌, All, arith, ◌⊎◌, inl, inr, Text,
  text_eq_iff, keep_if, get_elem?, Option-cases,
}
use cipher_trader.Prelude.Dict.{Dict, lookup, value_or, insert, insert-cases}
use cipher_trader.Enums.{ExchangeName}
use cipher_trader.Order.{Order}
use cipher_trader.Orders.{
  OrdersState, at_key, key_of, clear_all, clear_keys, update, allocate, reset, reset_trade_orders,
  add_order, add_order_to_execute, remove_order, execute_pending_market_orders,
  update_active_orders, clear_orders, add_at, remove_at_key,
}

module _ {D : Type 0} where
  -- A call that keeps the active orders among the stored ones. An order can also be changed through
  -- a reference, by one of its transitions for example, which keeps its exchange and its symbol.
  pub data Step : OrdersState D → OrdersState D → Type 0 where
    made : (o : Order D) (s : OrdersState D) → Step s (allocate o s).1
    changed :
        (r : ℕ) (f : Order D → Order D) (s : OrdersState D)
        → ((o : Order D) → key_of (f o) ≡ key_of o)
        → Step s (record s { heap = update r f s.heap })
    was_reset : (s : OrdersState D) → Step s (reset s)
    trade_ended :
        (name : ExchangeName) (symbol : Text) (s : OrdersState D)
        → Step s (reset_trade_orders name symbol s)
    added : (r : ℕ) (s : OrdersState D) → Step s (add_order r s)
    queued : (r : ℕ) (s : OrdersState D) → Step s (add_order_to_execute r s)
    removed : (r : ℕ) (s : OrdersState D) → Step s (remove_order r s)
    executed : (clock : ℕ → ℕ) (s : OrdersState D) → Step s (execute_pending_market_orders clock s)
    updated :
        (name : ExchangeName) (symbol : Text) (s : OrdersState D)
        → Step s (update_active_orders name symbol s)

  -- All calls: those, and the clearing of the stored orders
  pub data AnyStep : OrdersState D → OrdersState D → Type 0 where
    step : {s t : OrdersState D} → Step s t → AnyStep s t
    cleared :
        (name : ExchangeName) (symbol : Text) (s : OrdersState D)
        → AnyStep s (clear_orders name symbol s)

  pub data Reach (s : OrdersState D) : OrdersState D → Type 0 where
    here : Reach s s
    next : {t u : OrdersState D} → Reach s t → Step t u → Reach s u

  pub data AnyReach (s : OrdersState D) : OrdersState D → Type 0 where
    start : AnyReach s s
    after : {t u : OrdersState D} → AnyReach s t → AnyStep t u → AnyReach s u

module _ {A : Type 0} where
  pub All-kept :
      (P : A → Type 0) (b : Bool) (x : A) (xs : List A)
      → (b ≡ true → P x)
      → All P xs
      → All P (elim b [ true ↦ x ∷ xs | false ↦ xs ])
  All-kept P true x xs p ps = (p refl, ps)
  All-kept P false x xs p ps = ps

  pub All-keep_if : (P : A → Type 0) (q : A → Bool) (xs : List A) → All P xs → All P (keep_if q xs)
  All-keep_if P q [] h = tt
  All-keep_if P q (x ∷ xs) (p, ps) =
      All-kept P (q x) x (keep_if q xs) (λ _. p) (All-keep_if P q xs ps)

pub at_key-clear_all : (k : Text) (m : Dict (List ℕ)) → at_key k (clear_all m) ≡ []
unfolding value_or lookup
at_key-clear_all k [] = refl
at_key-clear_all k ((j, v) ∷ m) = ground (arith, at_key-clear_all k m)

-- A cleared map has an empty list at a key, or the key is not among the cleared ones and has the
-- list that it had.
pub at_key-clear_keys :
    (k : Text) (keys m : Dict (List ℕ))
    → (at_key k (clear_keys keys m) ≡ [])
      ⊎ ((at_key k (clear_keys keys m) ≡ at_key k m) × (at_key k keys ≡ []))
unfolding value_or lookup
at_key-clear_keys k [] m = inr (refl, refl)
at_key-clear_keys k ((j, v) ∷ keys) m = elim (at_key-clear_keys k keys (insert j [] m)) [
  | inl e ↦ inl e
  | inr (e, n) ↦ elim (insert-cases j k [] [] m) [
    | inl (_, w) ↦ inl (e ∙ w)
    | inr (apart, w) ↦ inr (e ∙ w, ground (arith, apart, n, text_eq_iff j k))
  ]
]

module _ {D : Type 0} where
  pub add_order-cases :
      (r : ℕ) (s : OrdersState D)
      → (add_order r s ≡ s)
        ⊎ ((o : Order D) × (get_elem? s.heap r ≡ some o) × (add_order r s ≡ add_at (key_of o) r s))
  unfolding add_order
  add_order-cases r s = elim (Option-cases (get_elem? s.heap r)) [
    | inl e ↦ inl (ground (arith, e))
    | inr (o, e) ↦ inr (o, e, ground (arith, e))
  ]

  pub remove_order-cases :
      (r : ℕ) (s : OrdersState D)
      → (remove_order r s ≡ s)
        ⊎ ((o : Order D) × (get_elem? s.heap r ≡ some o)
            × (remove_order r s ≡ remove_at_key (key_of o) o.id s))
  unfolding remove_order
  remove_order-cases r s = elim (Option-cases (get_elem? s.heap r)) [
    | inl e ↦ inl (ground (arith, e))
    | inr (o, e) ↦ inr (o, e, ground (arith, e))
  ]

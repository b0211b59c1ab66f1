-- ===== src/Orders/Filing.antt =====
-- `OrdersState`: which lists an order can stand in.
use cipher_trader.Prelude.{
  All-map, ℕ, zero, suc, ◌≡◌, sym, Bool, true, not, none, some, List, [], ◌∷◌, ◌++◌, All,
  All-append, arith, inl, inr, Text, text_eq, text_eq_iff, keep_if, get_elem?, Option-cases,
  ℕ_discrete,
}
use cipher_trader.Prelude.Dict.{Dict, insert, insert-cases}
use cipher_trader.Enums.{ExchangeName}
use cipher_trader.Helper.Symbols.{make_key}
use cipher_trader.Order.{Order, execute, is_canceled, is_executed}
use cipher_trader.Orders.{
  OrdersState, at_key, key_of, test, update, clear_all, clear_keys, unfinished, allocate, reset,
  reset_trade_orders, add_order_to_execute, execute_all, update_active_orders, clear_orders, add_at,
  remove_at_key, get_orders, get_active_orders,
}
use cipher_trader.Orders.Execution.{update_same, update_other, drained}
use cipher_trader.Orders.Steps.{
  Step, AnyStep, AnyReach, made, changed, was_reset, trade_ended, added, queued, removed, executed,
  updated, step, cleared, start, after, All-keep_if, add_order-cases, remove_order-cases,
  at_key-clear_all, at_key-clear_keys,
}

module _ {D : Type 0} where
  -- The reference leads to an order of this key.
  abbrev pub HasKey : List (Order D) → Text → ℕ → Type 0
  HasKey heap key r = test (λ o. text_eq (key_of o) key) heap r ≡ true

  abbrev pub FiledIn : List (Order D) → Dict (List ℕ) → Type 0
  FiledIn heap m = (key : Text) → All (HasKey heap key) (at_key key m)

  -- Every list has orders of its own key only.
  abbrev pub Filed : OrdersState D → Type 0
  Filed s = FiledIn s.heap s.storage × FiledIn s.heap s.active_storage

  -- A change of the heap that keeps the keys
  abbrev Keeps : List (Order D) → List (Order D) → Type 0
  Keeps heap heap' = (key : Text) (r : ℕ) → HasKey heap key r → HasKey heap' key r

  FiledIn-heap :
      (heap heap' : List (Order D)) (m : Dict (List ℕ))
      → Keeps heap heap'
      → FiledIn heap m
      → FiledIn heap' m
  FiledIn-heap heap heap' m k h key =
      All-map (HasKey heap key) (HasKey heap' key) (at_key key m) (k key) (h key)

  Filed-heap :
      (s : OrdersState D) (heap : List (Order D))
      → Keeps s.heap heap
      → Filed s
      → Filed (record s { heap = heap })
  Filed-heap s heap k (h, g) =
      (FiledIn-heap s.heap heap s.storage k h, FiledIn-heap s.heap heap s.active_storage k g)

  pub FiledIn-insert :
      (heap : List (Order D)) (key : Text) (rs : List ℕ) (m : Dict (List ℕ))
      → All (HasKey heap key) rs
      → FiledIn heap m
      → FiledIn heap (insert key rs m)
  FiledIn-insert heap key rs m a h k = elim (insert-cases key k rs [] m) [
    | inl (e, w) ↦ rw (w, sym e) a
    | inr (_, w) ↦ rw w (h k)
  ]

  FiledIn-append :
      (heap : List (Order D)) (r : ℕ) (o : Order D) (m : Dict (List ℕ))
      → get_elem? heap r ≡ some o
      → FiledIn heap m
      → FiledIn heap (insert (key_of o) (at_key (key_of o) m ++ (r ∷ [])) m)
  FiledIn-append heap r o m g h =
      FiledIn-insert heap (key_of o) _ m
        (All-append (HasKey heap (key_of o)) (at_key (key_of o) m) (r ∷ []) (h (key_of o))
          (ground (arith, g, text_eq_iff (key_of o) (key_of o)), tt))
        h

  FiledIn-keep_if :
      (heap : List (Order D)) (key : Text) (q : ℕ → Bool) (m : Dict (List ℕ))
      → FiledIn heap m
      → FiledIn heap (insert key (keep_if q (at_key key m)) m)
  FiledIn-keep_if heap key q m h =
      FiledIn-insert heap key (keep_if q (at_key key m)) m
        (All-keep_if (HasKey heap key) q (at_key key m) (h key)) h

  FiledIn-clear_all : (heap : List (Order D)) (m : Dict (List ℕ)) → FiledIn heap (clear_all m)
  FiledIn-clear_all heap m k = rw (at_key-clear_all k m) tt

  FiledIn-clear_keys :
      (heap : List (Order D)) (keys m : Dict (List ℕ))
      → FiledIn heap m
      → FiledIn heap (clear_keys keys m)
  FiledIn-clear_keys heap keys m h k = elim (at_key-clear_keys k keys m) [
    | inl e ↦ rw e tt
    | inr (e, _) ↦ rw e (h k)
  ]

  Keeps-append : (heap : List (Order D)) (o : Order D) → Keeps heap (heap ++ (o ∷ []))
  Keeps-append [] o key r h = ground (arith, h)
  Keeps-append (x ∷ heap) o key zero h = h
  Keeps-append (x ∷ heap) o key (suc r) h = Keeps-append heap o key r h

  Keeps-update :
      (r : ℕ) (f : Order D → Order D) (heap : List (Order D))
      → ((o : Order D) → key_of (f o) ≡ key_of o)
      → Keeps heap (update r f heap)
  Keeps-update r f heap k key j h = elim (ℕ_discrete r j) [
    | no n ↦ ground (arith, h, update_other r j f heap n)
    | yes e ↦ elim (Option-cases (get_elem? heap r)) [
      | inl g ↦ ground (arith, h, e, g)
      | inr (o, g) ↦ ground (arith, h, e, g, k o, update_same r f heap o g)
    ]
  ]

  execute-key : (now : ℕ) (o : Order D) → key_of (execute now o) ≡ key_of o
  unfolding execute is_canceled is_executed
  execute-key now o = ground arith

  Keeps-execute_all :
      (clock : ℕ → ℕ) (i : ℕ) (rs : List ℕ) (heap : List (Order D))
      → Keeps heap (execute_all clock i rs heap)
  unfolding execute_all
  Keeps-execute_all clock i [] heap key r h = h
  Keeps-execute_all clock i (q ∷ rs) heap key r h =
      Keeps-execute_all clock (suc i) rs (update q (execute (clock i)) heap) key r
        (Keeps-update q (execute (clock i)) heap (execute-key (clock i)) key r h)

  add_at-Filed :
      (r : ℕ) (s : OrdersState D) (o : Order D)
      → get_elem? s.heap r ≡ some o
      → Filed s
      → Filed (add_at (key_of o) r s)
  add_at-Filed r s o g (h, k) =
      (FiledIn-append s.heap r o s.storage g h, FiledIn-append s.heap r o s.active_storage g k)

  remove_at_key-Filed :
      (key id : Text) (s : OrdersState D) → Filed s → Filed (remove_at_key key id s)
  remove_at_key-Filed key id s (h, k) = (
    FiledIn-keep_if s.heap key (λ r. not (test (λ o. text_eq o.id id) s.heap r)) s.storage h,
    FiledIn-keep_if s.heap key (λ r. not (test (λ o. text_eq o.id id) s.heap r)) s.active_storage k,
  )

  Step-Filed : {s t : OrdersState D} → Step s t → Filed s → Filed t
  unfolding allocate reset reset_trade_orders add_order_to_execute update_active_orders
      get_active_orders
  Step-Filed (made o s) h = Filed-heap s (s.heap ++ (o ∷ [])) (Keeps-append s.heap o) h
  Step-Filed (changed r f s k) h = Filed-heap s (update r f s.heap) (Keeps-update r f s.heap k) h
  Step-Filed (was_reset s) (h, k) =
      (FiledIn-clear_all s.heap s.storage, FiledIn-clear_keys s.heap s.storage s.active_storage k)
  Step-Filed (trade_ended name symbol s) (h, k) = (
    FiledIn-insert s.heap (make_key name symbol none) [] s.storage tt h,
    FiledIn-insert s.heap (make_key name symbol none) [] s.active_storage tt k,
  )
  Step-Filed (added r s) h = elim (add_order-cases r s) [
    | inl e ↦ rw e h
    | inr (o, g, e) ↦ rw e (add_at-Filed r s o g h)
  ]
  Step-Filed (queued r s) h = h
  Step-Filed (removed r s) h = elim (remove_order-cases r s) [
    | inl e ↦ rw e h
    | inr (o, _, e) ↦ rw e (remove_at_key-Filed (key_of o) o.id s h)
  ]
  Step-Filed (executed clock s) h =
      let (heap, _, storage, active) = drained clock s in
      rw (heap, storage, active)
        (Filed-heap s (execute_all clock 0 s.to_execute s.heap)
          (Keeps-execute_all clock 0 s.to_execute s.heap) h)
  Step-Filed (updated name symbol s) (h, k) = (
    h,
    FiledIn-keep_if s.heap (make_key name symbol none) (test unfinished s.heap) s.active_storage k,
  )

  AnyStep-Filed : {s t : OrdersState D} → AnyStep s t → Filed s → Filed t
  unfolding clear_orders
  AnyStep-Filed (step q) h = Step-Filed q h
  AnyStep-Filed (cleared name symbol s) (h, k) =
      (FiledIn-insert s.heap (make_key name symbol none) [] s.storage tt h, k)

  AnyReach-Filed : {s t : OrdersState D} → AnyReach s t → Filed s → Filed t
  AnyReach-Filed start h = h
  AnyReach-Filed (after r q) h = AnyStep-Filed q (AnyReach-Filed r h)

  -- However the order book is used, from a state where it holds: the list of stored orders and the
  -- list of active orders of an exchange and a symbol have only orders whose own exchange and symbol
  -- make the same key by `makeKey`, and none that does not exist.
  pub orders_stay_home :
      (s t : OrdersState D)
      → Filed s
      → AnyReach s t
      → (name : ExchangeName) (symbol : Text)
      → All (HasKey t.heap (make_key name symbol none)) (get_orders name symbol t)
        × All (HasKey t.heap (make_key name symbol none)) (get_active_orders name symbol t)
  unfolding get_orders get_active_orders
  orders_stay_home s t h r name symbol =
      let (stored, active) = AnyReach-Filed r h in
      (stored (make_key name symbol none), active (make_key name symbol none))

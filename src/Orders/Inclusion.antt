-- ===== src/Orders/Inclusion.antt =====
-- `OrdersState`: the active orders of a symbol are among its stored orders.
use cipher_trader.Prelude.{
  All-map, ℕ, ◌≡◌, subst, ap, ◌∙◌, Bool, true, false, not, none, List, [], ◌∷◌, ◌++◌, All,
  All-append, arith, inl, inr, Text, text_eq, keep_if, ◌==◌, if◌then◌else◌, ==_iff, Bool-cases,
}
use cipher_trader.Prelude.Dict.{Dict, insert, insert-cases}
use cipher_trader.Enums.{ExchangeName}
use cipher_trader.Helper.Symbols.{make_key}
use cipher_trader.Orders.{
  OrdersState, at_key, key_of, test, clear_all, clear_keys, unfinished, allocate, reset,
  reset_trade_orders, add_order_to_execute, update_active_orders, add_at, remove_at_key, get_orders,
  get_active_orders,
}
use cipher_trader.Orders.Execution.{drained}
use cipher_trader.Orders.Steps.{
  Step, Reach, All-kept, All-keep_if, add_order-cases, remove_order-cases, at_key-clear_all,
  at_key-clear_keys, made, changed, was_reset, trade_ended, added, queued, removed, executed,
  updated, here, next,
}

abbrev pub member : ℕ → List ℕ → Bool
member r [] = false
member r (x ∷ xs) = if x == r then true else member r xs

-- Every reference of the first list is in the second one.
abbrev pub Among : List ℕ → List ℕ → Type 0
Among xs ys = All (λ r. member r ys ≡ true) xs

member-append : (r : ℕ) (xs ys : List ℕ) → member r xs ≡ true → member r (xs ++ ys) ≡ true
member-append r [] ys h = ground (arith, h)
member-append r (x ∷ xs) ys h = ground (arith, h, member-append r xs ys)

member-last : (r : ℕ) (xs : List ℕ) → member r (xs ++ (r ∷ [])) ≡ true
member-last r [] = ground arith
member-last r (x ∷ xs) = ground (arith, member-last r xs)

member-keep_if :
    (p : ℕ → Bool) (r : ℕ) (xs : List ℕ)
    → p r ≡ true
    → member r xs ≡ true
    → member r (keep_if p xs) ≡ true
member-keep_if p r [] h m = ground (arith, m)
member-keep_if p r (x ∷ xs) h m = elim (Bool-cases (x == r)) [
  | inl e ↦ let px : p x ≡ true = ap p ((==_iff x r).0 e) ∙ h in ground (arith, e, px)
  | inr e ↦ ground (arith, e, m, member-keep_if p r xs h)
]

Among-append : (r : ℕ) (xs ys : List ℕ) → Among xs ys → Among (xs ++ (r ∷ [])) (ys ++ (r ∷ []))
Among-append r xs ys h =
    All-append (λ q. member q (ys ++ (r ∷ [])) ≡ true) xs (r ∷ [])
      (All-map (λ q. member q ys ≡ true) (λ q. member q (ys ++ (r ∷ [])) ≡ true) xs
        (λ q m. member-append q ys (r ∷ []) m) h)
      (member-last r ys, tt)

Among-keep_if : (p : ℕ → Bool) (xs ys : List ℕ) → Among xs ys → Among (keep_if p xs) (keep_if p ys)
Among-keep_if p [] ys h = tt
Among-keep_if p (x ∷ xs) ys (m, ms) =
    All-kept (λ r. member r (keep_if p ys) ≡ true) (p x) x (keep_if p xs)
      (λ k. member-keep_if p x ys k m) (Among-keep_if p xs ys ms)

-- At every key
abbrev Within : Dict (List ℕ) → Dict (List ℕ) → Type 0
Within m n = (key : Text) → Among (at_key key m) (at_key key n)

Within-insert :
    (key : Text) (xs ys : List ℕ) (m n : Dict (List ℕ))
    → Among xs ys
    → Within m n
    → Within (insert key xs m) (insert key ys n)
Within-insert key xs ys m n a h k = elim (insert-cases key k xs [] m) [
  | inl (e, v) ↦ elim (insert-cases key k ys [] n) [
    | inl (_, w) ↦ rw (v, w) a
    | inr (apart, _) ↦ absurd (apart e)
  ]
  | inr (apart, v) ↦ elim (insert-cases key k ys [] n) [
    | inl (e, _) ↦ absurd (apart e)
    | inr (_, w) ↦ rw (v, w) (h k)
  ]
]

Within-insert_left :
    (key : Text) (xs : List ℕ) (m n : Dict (List ℕ))
    → Among xs (at_key key n)
    → Within m n
    → Within (insert key xs m) n
Within-insert_left key xs m n a h k = elim (insert-cases key k xs [] m) [
  | inl (e, v) ↦ rw v (subst (λ j. Among xs (at_key j n)) e a)
  | inr (_, v) ↦ rw v (h k)
]

Within-clear : (m n : Dict (List ℕ)) → Within m n → Within (clear_keys n m) (clear_all n)
Within-clear m n h k = elim (at_key-clear_keys k n m) [
  | inl e ↦ rw e tt
  | inr (e, absent) ↦
      rw (e, at_key-clear_all k n) (subst (λ ys. Among (at_key k m) ys) absent (h k))
]

module _ {D : Type 0} where
  -- At every key the active orders are among the stored ones.
  abbrev pub Included : OrdersState D → Type 0
  Included s = Within s.active_storage s.storage

  add_at-Included :
      (key : Text) (r : ℕ) (s : OrdersState D) → Included s → Included (add_at key r s)
  add_at-Included key r s h =
      Within-insert key (at_key key s.active_storage ++ (r ∷ [])) (at_key key s.storage ++ (r ∷ []))
        s.active_storage s.storage
        (Among-append r (at_key key s.active_storage) (at_key key s.storage) (h key)) h

  remove_at_key-Included :
      (key id : Text) (s : OrdersState D) → Included s → Included (remove_at_key key id s)
  remove_at_key-Included key id s h =
      let keep = λ (r : ℕ). not (test (λ o. text_eq o.id id) s.heap r) in
      Within-insert key (keep_if keep (at_key key s.active_storage))
        (keep_if keep (at_key key s.storage)) s.active_storage s.storage
        (Among-keep_if keep (at_key key s.active_storage) (at_key key s.storage) (h key)) h

  Step-Included : {s t : OrdersState D} → Step s t → Included s → Included t
  unfolding allocate reset reset_trade_orders add_order_to_execute update_active_orders
      get_active_orders
  Step-Included (made o s) h = h
  Step-Included (changed r f s k) h = h
  Step-Included (was_reset s) h = Within-clear s.active_storage s.storage h
  Step-Included (trade_ended name symbol s) h =
      Within-insert (make_key name symbol none) [] [] s.active_storage s.storage tt h
  Step-Included (added r s) h = elim (add_order-cases r s) [
    | inl e ↦ rw e h
    | inr (o, _, e) ↦ rw e (add_at-Included (key_of o) r s h)
  ]
  Step-Included (queued r s) h = h
  Step-Included (removed r s) h = elim (remove_order-cases r s) [
    | inl e ↦ rw e h
    | inr (o, _, e) ↦ rw e (remove_at_key-Included (key_of o) o.id s h)
  ]
  Step-Included (executed clock s) h =
      let (_, _, storage, active) = drained clock s in rw (storage, active) h
  Step-Included (updated name symbol s) h =
      Within-insert_left (make_key name symbol none)
        (keep_if (test unfinished s.heap) (at_key (make_key name symbol none) s.active_storage))
        s.active_storage s.storage
        (All-keep_if (λ r. member r (at_key (make_key name symbol none) s.storage) ≡ true)
          (test unfinished s.heap) (at_key (make_key name symbol none) s.active_storage)
          (h (make_key name symbol none)))
        h

  Reach-Included : {s t : OrdersState D} → Reach s t → Included s → Included t
  Reach-Included here h = h
  Reach-Included (next r q) h = Step-Included q (Reach-Included r h)

  -- As long as `clearOrders` is not called, the active orders of a symbol are among its stored
  -- orders, from a state where they are: so however orders are made, changed, added, queued,
  -- removed and executed, and the book is reset and updated.
  pub active_orders_are_stored :
      (s t : OrdersState D)
      → Included s
      → Reach s t
      → (name : ExchangeName) (symbol : Text)
      → Among (get_active_orders name symbol t) (get_orders name symbol t)
  unfolding get_orders get_active_orders
  active_orders_are_stored s t h r name symbol = Reach-Included r h (make_key name symbol none)

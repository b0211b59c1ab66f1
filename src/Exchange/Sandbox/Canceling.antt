-- ===== src/Exchange/Sandbox/Canceling.antt =====
-- `Sandbox::cancelAllOrders`: which orders it cancels.
use cipher_trader.Prelude.{
  ℕ, suc, ◌≡◌, ◌≢◌, refl, ap, ◌∙◌, Bool, true, false, ◌&&◌, some, List, [], ◌∷◌, get_elem?, Text,
  arith, ◌⊎◌, inl, inr, if◌then◌else◌, Bool-cases, ℕ_discrete,
}
use cipher_trader.Double.{Double}
use cipher_trader.Enums.{ExchangeName, canceled}
use cipher_trader.Order.{Order, is_new, is_active, is_canceled, is_executed, cancel}
use cipher_trader.Orders.{OrdersState, update, test, get_active_orders, clear_orders}
use cipher_trader.Orders.Execution.{update_same, update_other}
use cipher_trader.Orders.Inclusion.{member}
use cipher_trader.Exchange.Sandbox.{cancel_each, cancel_all_orders}

module _ {D : Type 0} (d : Double D) (name : ExchangeName) where
  -- What is left of an order that is canceled at a time
  abbrev pub canceled_order : ℕ → Order D → Order D
  canceled_order now o = record o { canceled_at = some now; status = canceled }

  cancel-new : (now : ℕ) (o : Order D) → is_new o ≡ true → cancel now [] o ≡ canceled_order now o
  unfolding cancel is_new is_active is_canceled is_executed
  cancel-new now o h = ground (arith, h)

  canceled-not_new : (now : ℕ) (o : Order D) → is_new (canceled_order now o) ≡ false
  unfolding is_new is_active
  canceled-not_new now o = refl

  -- One round of the loop
  abbrev round : ℕ → ℕ → List (Order D) → List (Order D)
  round now r heap = if test is_new heap r then update r (cancel now []) heap else heap

  round_other :
      (now q r : ℕ) (heap : List (Order D))
      → q ≢ r
      → get_elem? (round now q heap) r ≡ get_elem? heap r
  round_other now q r heap n = elim (Bool-cases (test is_new heap q)) [
    | inl e ↦ rw e (update_other q r (cancel now []) heap n)
    | inr e ↦ rw e refl
  ]

  round_old :
      (now q r : ℕ) (heap : List (Order D)) (o : Order D)
      → get_elem? heap r ≡ some o
      → is_new o ≡ false
      → get_elem? (round now q heap) r ≡ some o
  round_old now q r heap o g h = elim (ℕ_discrete q r) [
    | yes e ↦ ground (arith, e, g, h)
    | no n ↦ round_other now q r heap n ∙ g
  ]

  round_new :
      (now r : ℕ) (heap : List (Order D)) (o : Order D)
      → get_elem? heap r ≡ some o
      → is_new o ≡ true
      → get_elem? (round now r heap) r ≡ some (canceled_order now o)
  round_new now r heap o g h =
      ground (arith, g, h, update_same r (cancel now []) heap o g, cancel-new now o h)

  each_old :
      (clock : ℕ → ℕ) (i r : ℕ) (rs : List ℕ) (heap : List (Order D)) (o : Order D)
      → get_elem? heap r ≡ some o
      → is_new o ≡ false
      → get_elem? (cancel_each d name clock i rs heap) r ≡ some o
  unfolding cancel_each
  each_old clock i r [] heap o g h = g
  each_old clock i r (q ∷ rs) heap o g h =
      each_old clock (suc i) r rs (round (clock i) q heap) o (round_old (clock i) q r heap o g h) h

  each_unlisted :
      (clock : ℕ → ℕ) (i r : ℕ) (rs : List ℕ) (heap : List (Order D))
      → member r rs ≡ false
      → get_elem? (cancel_each d name clock i rs heap) r ≡ get_elem? heap r
  unfolding cancel_each
  each_unlisted clock i r [] heap h = refl
  each_unlisted clock i r (q ∷ rs) heap h =
      each_unlisted clock (suc i) r rs (round (clock i) q heap) (ground (arith, h))
      ∙ round_other (clock i) q r heap (λ e. ground (arith, h, e))

  each_listed :
      (clock : ℕ → ℕ) (i r : ℕ) (rs : List ℕ) (heap : List (Order D)) (o : Order D)
      → get_elem? heap r ≡ some o
      → is_new o ≡ true
      → member r rs ≡ true
      → (now : ℕ) × (get_elem? (cancel_each d name clock i rs heap) r ≡ some (canceled_order now o))
  unfolding cancel_each
  each_listed clock i r [] heap o g h m = ground (arith, m)
  each_listed clock i r (q ∷ rs) heap o g h m = elim (ℕ_discrete q r) [
    | yes e ↦ (
      clock i,
      each_old clock (suc i) r rs (round (clock i) q heap) (canceled_order (clock i) o)
          (rw e (round_new (clock i) r heap o g h)) (canceled-not_new (clock i) o),
    )
    | no n ↦
        each_listed clock (suc i) r rs (round (clock i) q heap) o
          (round_other (clock i) q r heap n ∙ g) h (ground (arith, m, n))
  ]

  cancel_all-heap :
      (unit_testing : Bool) (clock : ℕ → ℕ) (symbol : Text) (s : OrdersState D)
      → (cancel_all_orders d name unit_testing clock symbol s).heap
        ≡ cancel_each d name clock 0 (get_active_orders name symbol s) s.heap
  unfolding cancel_all_orders clear_orders
  cancel_all-heap true clock symbol s = refl
  cancel_all-heap false clock symbol s = refl

  -- `cancelAllOrders` cancels exactly the orders that are listed as active orders of the symbol and
  -- whose status is ACTIVE: such an order is canceled with its time, any other order, one that is
  -- still queued for example, stays as it is.
  pub cancel_all_cancels_active :
      (unit_testing : Bool) (clock : ℕ → ℕ) (symbol : Text) (s : OrdersState D) (r : ℕ)
      (o : Order D)
      → get_elem? s.heap r ≡ some o
      → ((member r (get_active_orders name symbol s) && is_new o ≡ true)
          × ((now : ℕ) × (get_elem? (cancel_all_orders d name unit_testing clock symbol s).heap r
                ≡ some (canceled_order now o))))
        ⊎ ((member r (get_active_orders name symbol s) && is_new o ≡ false)
            × (get_elem? (cancel_all_orders d name unit_testing clock symbol s).heap r ≡ some o))
  cancel_all_cancels_active unit_testing clock symbol s r o g =
      let listed = member r (get_active_orders name symbol s) in
      elim (Bool-cases listed) [
        | inr n ↦ inr (
          ground (arith, n),
          rw (cancel_all-heap unit_testing clock symbol s)
              (each_unlisted clock 0 r (get_active_orders name symbol s) s.heap n ∙ g),
        )
        | inl m ↦ elim (Bool-cases (is_new o)) [
          | inr n ↦ inr (
            ground (arith, n, m),
            rw (cancel_all-heap unit_testing clock symbol s)
                (each_old clock 0 r (get_active_orders name symbol s) s.heap o g n),
          )
          | inl n ↦
              let (now, e) =
                each_listed clock 0 r (get_active_orders name symbol s) s.heap o g n m in
              inl (
                ground (arith, n, m),
                (now, ap (λ h. get_elem? h r) (cancel_all-heap unit_testing clock symbol s) ∙ e),
              )
        ]
      ]

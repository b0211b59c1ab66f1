-- ===== src/Orders/Live.antt =====
-- `OrdersState`: an order that is in the queue and was not canceled is executed.
use cipher_trader.Prelude.{
  ℕ, suc, ◌<◌, ◌≡◌, sym, Bool, true, not, List, [], ◌∷◌, ◌++◌, get_elem?, length, All, arith,
  Option-cases, ℕ_discrete, inl, inr,
}
use cipher_trader.Order.{Order, execute, is_executed, is_canceled}
use cipher_trader.Orders.{OrdersState, test, update, execute_all, execute_pending_market_orders}
use cipher_trader.Orders.Execution.{update_same, update_other, drained, queue_done, finished}

module _ {A : Type 0} where
  All-last : (P : A → Type 0) (xs : List A) (x : A) → All P (xs ++ (x ∷ [])) → P x
  All-last P [] x h = h.0
  All-last P (y ∷ xs) x (_, h) = All-last P xs x h

module _ {D : Type 0} where
  abbrev pub live : Order D → Bool
  live o = not (is_canceled o)

  execute-live : (now : ℕ) (o : Order D) → live o ≡ true → live (execute now o) ≡ true
  unfolding execute is_canceled is_executed
  execute-live now o h = ground (arith, h)

  update-live :
      (now q r : ℕ) (heap : List (Order D))
      → test live heap r ≡ true
      → test live (update q (execute now) heap) r ≡ true
  update-live now q r heap h = elim (ℕ_discrete q r) [
    | no n ↦ ground (arith, h, update_other q r (execute now) heap n)
    | yes e ↦ elim (Option-cases (get_elem? heap q)) [
      | inl g ↦ ground (arith, h, e, g)
      | inr (o, g) ↦
          ground (arith, h, e, g, update_same q (execute now) heap o g, execute-live now o)
    ]
  ]

  execute_all-live :
      (clock : ℕ → ℕ) (i r : ℕ) (rs : List ℕ) (heap : List (Order D))
      → test live heap r ≡ true
      → test live (execute_all clock i rs heap) r ≡ true
  unfolding execute_all
  execute_all-live clock i r [] heap h = h
  execute_all-live clock i r (q ∷ rs) heap h =
      execute_all-live clock (suc i) r rs (update q (execute (clock i)) heap)
        (update-live (clock i) q r heap h)

  -- What is finished and not canceled is executed.
  live-executed :
      (heap : List (Order D)) (r : ℕ)
      → test finished heap r ≡ true
      → test live heap r ≡ true
      → test is_executed heap r ≡ true
  live-executed heap r f l = ground (arith, f, l)

  -- The last order of the queue
  pub last_is_executed :
      (clock : ℕ → ℕ) (s : OrdersState D) (qs : List ℕ) (r : ℕ)
      → s.to_execute ≡ qs ++ (r ∷ [])
      → All (λ i. i < length s.heap) (qs ++ (r ∷ []))
      → test live s.heap r ≡ true
      → test is_executed (execute_pending_market_orders clock s).heap r ≡ true
  last_is_executed clock s qs r e h l =
      let t = execute_pending_market_orders clock s in
      let (heap, _, _, _) = drained clock s in
      let done = queue_done clock 0 s.to_execute s.heap (rw e h) in
      let last = All-last (λ i. test finished t.heap i ≡ true) qs r (rw (sym e, heap) done) in
      live-executed t.heap r last (rw heap (execute_all-live clock 0 r s.to_execute s.heap l))

-- ===== src/Orders/Execution.antt =====
-- `OrdersState::executePendingMarketOrders`: what it does to the orders in the queue and to others.
use cipher_trader.Prelude.{
  ℕ, zero, suc, ◌<◌, ◌≡◌, ◌≢◌, refl, ap, sym, ◌∙◌, Bool, true, ◌||◌, some, List, [], ◌∷◌, length,
  get_elem?, set, All, arith, length-set, ◌⊎◌, inl, inr, Option-cases, ℕ_discrete, All-map, subst,
  false, Bool-cases,
}
use cipher_trader.Prelude.Slices.{get_elem?-some}
use cipher_trader.Enums.{executed}
use cipher_trader.Order.{Order, is_canceled, is_executed, execute}
use cipher_trader.Orders.{OrdersState, test, update, execute_all, execute_pending_market_orders}

module _ {A : Type 0} where
  get_elem?-set_same :
      (i : ℕ) (v : A) (xs : List A) (o : A)
      → get_elem? xs i ≡ some o
      → get_elem? (set xs i v) i ≡ some v
  get_elem?-set_same i v [] o h = ground (arith, h)
  get_elem?-set_same zero v (x ∷ xs) o h = refl
  get_elem?-set_same (suc i) v (x ∷ xs) o h = get_elem?-set_same i v xs o h

  get_elem?-set_other :
      (i j : ℕ) (v : A) (xs : List A) → i ≢ j → get_elem? (set xs i v) j ≡ get_elem? xs j
  get_elem?-set_other i j v [] n = refl
  get_elem?-set_other zero zero v (x ∷ xs) n = absurd (n refl)
  get_elem?-set_other zero (suc j) v (x ∷ xs) n = refl
  get_elem?-set_other (suc i) zero v (x ∷ xs) n = refl
  get_elem?-set_other (suc i) (suc j) v (x ∷ xs) n =
      get_elem?-set_other i j v xs (λ e. n (ap suc e))

module _ {D : Type 0} where
  -- Canceled or executed
  abbrev pub finished : Order D → Bool
  finished o = is_canceled o || is_executed o

  pub length-update :
      (r : ℕ) (f : Order D → Order D) (heap : List (Order D))
      → length (update r f heap) ≡ length heap
  length-update r f heap = elim (Option-cases (get_elem? heap r)) [
    | inl e ↦ ground (arith, e)
    | inr (o, e) ↦ ground (arith, e, length-set heap r (f o))
  ]

  pub update_same :
      (r : ℕ) (f : Order D → Order D) (heap : List (Order D)) (o : Order D)
      → get_elem? heap r ≡ some o
      → get_elem? (update r f heap) r ≡ some (f o)
  update_same r f heap o h = ground (arith, h, get_elem?-set_same r (f o) heap o h)

  pub update_other :
      (r j : ℕ) (f : Order D → Order D) (heap : List (Order D))
      → r ≢ j
      → get_elem? (update r f heap) j ≡ get_elem? heap j
  update_other r j f heap n = elim (Option-cases (get_elem? heap r)) [
    | inl e ↦ ground (arith, e)
    | inr (o, e) ↦ ground (arith, e, get_elem?-set_other r j (f o) heap n)
  ]

  execute-finished : (now : ℕ) (o : Order D) → finished (execute now o) ≡ true
  unfolding execute is_canceled is_executed
  execute-finished now o = ground arith

  execute_noop : (now : ℕ) (o : Order D) → finished o ≡ true → execute now o ≡ o
  unfolding execute is_canceled is_executed
  execute_noop now o h = ground (arith, h)

  -- One execution leaves a finished order finished, the same order in fact.
  update-finished :
      (now r j : ℕ) (heap : List (Order D)) (o : Order D)
      → get_elem? heap j ≡ some o
      → finished o ≡ true
      → get_elem? (update r (execute now) heap) j ≡ some o
  update-finished now r j heap o g h = elim (ℕ_discrete r j) [
    | yes e ↦
        let g' : get_elem? heap r ≡ some o = rw e g in
        rw (sym e) (update_same r (execute now) heap o g' ∙ ap (λ p. some p) (execute_noop now o h))
    | no n ↦ update_other r j (execute now) heap n ∙ g
  ]

  pub execute_all-finished :
      (clock : ℕ → ℕ) (i j : ℕ) (rs : List ℕ) (heap : List (Order D)) (o : Order D)
      → get_elem? heap j ≡ some o
      → finished o ≡ true
      → get_elem? (execute_all clock i rs heap) j ≡ some o
  unfolding execute_all
  execute_all-finished clock i j [] heap o g h = g
  execute_all-finished clock i j (r ∷ rs) heap o g h =
      execute_all-finished clock (suc i) j rs (update r (execute (clock i)) heap) o
        (update-finished (clock i) r j heap o g h) h

  execute_all-other :
      (clock : ℕ → ℕ) (i j : ℕ) (rs : List ℕ) (heap : List (Order D))
      → All (λ r. r ≢ j) rs
      → get_elem? (execute_all clock i rs heap) j ≡ get_elem? heap j
  unfolding execute_all
  execute_all-other clock i j [] heap n = refl
  execute_all-other clock i j (r ∷ rs) heap (n, ns) =
      execute_all-other clock (suc i) j rs (update r (execute (clock i)) heap) ns
      ∙ update_other r j (execute (clock i)) heap n

  pub queue_done :
      (clock : ℕ → ℕ) (i : ℕ) (rs : List ℕ) (heap : List (Order D))
      → All (λ r. r < length heap) rs
      → All (λ r. test finished (execute_all clock i rs heap) r ≡ true) rs
  unfolding execute_all
  queue_done clock i [] heap h = tt
  queue_done clock i (r ∷ rs) heap (l, ls) =
      let (o, g) = get_elem?-some r heap l in
      let o' : Order D = execute (clock i) o in
      let next : List (Order D) = update r (execute (clock i)) heap in
      let done =
        execute_all-finished clock (suc i) r rs next o' (update_same r (execute (clock i)) heap o g)
          (execute-finished (clock i) o) in
      let same : length next ≡ length heap = length-update r (execute (clock i)) heap in
      (
        rw (test, done) (execute-finished (clock i) o),
        queue_done clock (suc i) rs next (rw same ls),
      )

  -- What became of the order at a reference of the queue, by what it was before
  abbrev pub Settled : List (Order D) → List (Order D) → ℕ → Type 0
  Settled heap heap' r =
      (o : Order D) × (get_elem? heap r ≡ some o)
      × (((finished o ≡ true) × (get_elem? heap' r ≡ some o))
          ⊎ ((finished o ≡ false)
              × ((now : ℕ) × (get_elem? heap' r
                    ≡ some (record o { executed_at = some now; status = executed })))))

  execute_live :
      (now : ℕ) (o : Order D)
      → finished o ≡ false
      → execute now o ≡ record o { executed_at = some now; status = executed }
  unfolding execute is_canceled is_executed
  execute_live now o h = ground (arith, h)

  first-Settled :
      (clock : ℕ → ℕ) (i r : ℕ) (rs : List ℕ) (heap : List (Order D)) (o : Order D)
      → get_elem? heap r ≡ some o
      → Settled heap (execute_all clock i (r ∷ rs) heap) r
  unfolding execute_all
  first-Settled clock i r rs heap o g = elim (Bool-cases (finished o)) [
    | inl f ↦ (o, g, inl (f, execute_all-finished clock i r (r ∷ rs) heap o g f))
    | inr f ↦
        let done =
          execute_all-finished clock (suc i) r rs (update r (execute (clock i)) heap)
            (execute (clock i) o) (update_same r (execute (clock i)) heap o g)
            (execute-finished (clock i) o) in
        (o, g, inr (f, (clock i, done ∙ ap (λ p. some p) (execute_live (clock i) o f))))
  ]

  all-Settled :
      (clock : ℕ → ℕ) (i : ℕ) (rs : List ℕ) (heap : List (Order D))
      → All (λ r. r < length heap) rs
      → All (Settled heap (execute_all clock i rs heap)) rs
  unfolding execute_all
  all-Settled clock i [] heap h = tt
  all-Settled clock i (q ∷ rs) heap (l, ls) =
      let (o, g) = get_elem?-some q heap l in
      let next : List (Order D) = update q (execute (clock i)) heap in
      let same : length next ≡ length heap = length-update q (execute (clock i)) heap in
      let first = first-Settled clock i q rs heap o g in
      (
        first,
        All-map (Settled next (execute_all clock (suc i) rs next))
            (Settled heap (execute_all clock (suc i) rs next)) rs
            (λ r t. elim (ℕ_discrete q r) [
              | yes e ↦ subst (Settled heap (execute_all clock (suc i) rs next)) e first
              | no n ↦
                  let (p, k, w) = t in (p, sym (update_other q r (execute (clock i)) heap n) ∙ k, w)
            ])
            (all-Settled clock (suc i) rs next (rw same ls)),
      )

  execute_all-length :
      (clock : ℕ → ℕ) (i : ℕ) (rs : List ℕ) (heap : List (Order D))
      → length (execute_all clock i rs heap) ≡ length heap
  unfolding execute_all
  execute_all-length clock i [] heap = refl
  execute_all-length clock i (r ∷ rs) heap =
      execute_all-length clock (suc i) rs (update r (execute (clock i)) heap)
      ∙ length-update r (execute (clock i)) heap

  pub drained :
      (clock : ℕ → ℕ) (s : OrdersState D)
      → ((execute_pending_market_orders clock s).heap ≡ execute_all clock 0 s.to_execute s.heap)
        × ((execute_pending_market_orders clock s).to_execute ≡ [])
        × ((execute_pending_market_orders clock s).storage ≡ s.storage)
        × ((execute_pending_market_orders clock s).active_storage ≡ s.active_storage)
  unfolding execute_pending_market_orders execute_all
  drained clock s = ground arith

  -- `executePendingMarketOrders` empties the queue. An order that was in it and was canceled or
  -- executed before is as it was; any other one, also one that stood in it twice, has the status
  -- EXECUTED and a time of its execution, and is else as it was. No order is made or lost, and the
  -- lists of the symbols stay as they are.
  pub pending_orders_finish :
      (clock : ℕ → ℕ) (s t : OrdersState D)
      → All (λ r. r < length s.heap) s.to_execute
      → t ≡ execute_pending_market_orders clock s
      → (t.to_execute ≡ [])
        × All (Settled s.heap t.heap) s.to_execute
        × (length t.heap ≡ length s.heap)
        × (t.storage ≡ s.storage)
        × (t.active_storage ≡ s.active_storage)
  pending_orders_finish clock s t h e =
      let (heap, queue, storage, active) = drained clock s in
      rw (e, heap, queue, storage, active)
        (
          refl,
          all-Settled clock 0 s.to_execute s.heap h,
          execute_all-length clock 0 s.to_execute s.heap,
          refl,
          refl,
        )

  -- `executePendingMarketOrders` changes no order outside the queue and no order that is canceled or
  -- executed.
  pub other_orders_stay :
      (clock : ℕ → ℕ) (s : OrdersState D) (r : ℕ) (o : Order D)
      → get_elem? s.heap r ≡ some o
      → All (λ q. q ≢ r) s.to_execute ⊎ (finished o ≡ true)
      → get_elem? (execute_pending_market_orders clock s).heap r ≡ some o
  other_orders_stay clock s r o g h = rw (drained clock s).0 (elim h [
    | inl n ↦ execute_all-other clock 0 r s.to_execute s.heap n ∙ g
    | inr f ↦ execute_all-finished clock 0 r s.to_execute s.heap o g f
  ])

-- ===== src/Exchange/Spot/Balances.antt =====
-- `SpotExchange`: the balances through submissions, executions and cancellations of orders
use cipher_trader.Prelude.{
  ◌≡◌, ◌≢◌, ap, sym, ◌∙◌, Bool, true, false, Text, text_eq_iff, Result, ok, err, inl, inr, arith,
  Bool-cases,
}
use cipher_trader.Prelude.Dict.{Dict, value_or, insert, value_or-insert}
use cipher_trader.Double.{Double, NotNegative, IsIeee}
use cipher_trader.Helper.Decimal.{Decimals, add_floats, subtract_floats, IsDecimal}
use cipher_trader.Helper.Symbols.{get_base_asset}
use cipher_trader.Enums.{OrderSide, buy, sell}
use cipher_trader.Order.{Order, get_value}
use cipher_trader.Exchange.Spot.{
  SpotExchange, asset, put_asset, settlement, price_or_zero, after_fee, track, untrack, check_qty,
  submit_sell, submit_buy, submit, restore, on_order_submission, sold_qty, execute_sell,
  execute_buy, execute_side, on_order_execution, cancel_buy, cancel_side, on_order_cancellation,
}
use cipher_trader.Exchange.Spot.Submission.{track_by-base}

module _ {D : Type 0} (d : Double D) (x : Decimals D) where
  -- No balance is negative, and the fee is no more than the whole.
  abbrev pub Solvent : SpotExchange D → Type 0
  Solvent s = ((k : Text) → NotNegative d (asset d x k s)) × NotNegative d (after_fee d x s)

  -- An order with a price that is not negative, for an asset other than the settlement currency
  abbrev pub IsSound : Order D → SpotExchange D → Type 0
  IsSound o s = NotNegative d (price_or_zero d x o) × (get_base_asset o.symbol ≢ settlement d x s)

  -- One call with an order. A call that throws is a step too.
  pub data Step (live : Bool) : SpotExchange D → SpotExchange D → Type 0 where
    submitted :
        (o : Order D) (s : SpotExchange D)
        → IsSound o s
        → Step live s (on_order_submission d x live o s).1
    executed :
        (o : Order D) (s : SpotExchange D)
        → IsSound o s
        → Step live s (on_order_execution d x live o s)
    canceled :
        (o : Order D) (s : SpotExchange D)
        → IsSound o s
        → Step live s (on_order_cancellation d x live o s)

  pub data Reach (live : Bool) (s : SpotExchange D) : SpotExchange D → Type 0 where
    here : Reach live s s
    next : {t u : SpotExchange D} → Reach live s t → Step live t u → Reach live s u

  module _ (ieee : IsIeee d) (decimal : IsDecimal x d) where
    put-Solvent :
        (k : Text) (v : D) (s : SpotExchange D)
        → Solvent s
        → NotNegative d v
        → Solvent (put_asset d x k v s)
    put-Solvent k v s (h, f) n =
        (λ j. ground (arith, value_or-insert k j v d.nought s.base.assets, h j, n), f)

    value_elsewhere :
        (k j : Text) (v : D) (m : Dict D)
        → k ≢ j
        → value_or j d.nought (insert k v m) ≡ value_or j d.nought m
    value_elsewhere k j v m n = ground (arith, text_eq_iff k j, value_or-insert k j v d.nought m, n)

    base-Solvent : (s t : SpotExchange D) → t.base ≡ s.base → Solvent s → Solvent t
    base-Solvent s t e (h, f) = (
      λ k. ap (λ b. d.lt (value_or k d.nought b.assets) d.nought) e ∙ h k,
      ap (λ b. d.lt (d.sub d.one b.fee_rate) d.nought) e ∙ f,
    )

    untrack-base : (o : Order D) (s : SpotExchange D) → (untrack d x o s).base ≡ s.base
    unfolding untrack
    untrack-base o s = track_by-base d x (subtract_floats x) o.order_type o s

    sold_qty-bounds :
        (o : Order D) (balance : D)
        → NotNegative d balance
        → NotNegative d (sold_qty d x o balance) × (d.lt balance (sold_qty d x o balance) ≡ false)
    sold_qty-bounds o balance n = elim (Bool-cases (d.lt balance (d.abs o.qty))) [
      | inl b ↦ (
        ground (arith, b, ieee.abs-NotNegative balance),
        ground (arith, b, ieee.abs-le balance n),
      )
      | inr b ↦ (ground (arith, b, ieee.abs-NotNegative o.qty), ground (arith, b))
    ]

    execute_sell-Solvent :
        (o : Order D) (s : SpotExchange D)
        → IsSound o s
        → Solvent s
        → Solvent (execute_sell d x o s)
    unfolding execute_sell
    execute_sell-Solvent o s (p, apart) h =
        let t : SpotExchange D = untrack d x o s in
        let a : Text = get_base_asset o.symbol in
        let st : Solvent t = base-Solvent s t (untrack-base o s) h in
        let (sold, left) = sold_qty-bounds o (asset d x a t) (st.0 a) in
        let paid = ieee.mul-NotNegative _ _ (ieee.mul-NotNegative _ _ sold p) st.1 in
        let cash : D = add_floats x (asset d x (settlement d x t) t) (
          d.mul (d.mul (sold_qty d x o (asset d x a t)) (price_or_zero d x o)) (after_fee d x t)) in
        let credit = decimal.add-NotNegative _ _ (st.0 (settlement d x t)) paid in
        let other : settlement d x t ≢ a =
          λ e. apart (sym e ∙ ap (λ b. b.settlement_currency) (untrack-base o s)) in
        let u : SpotExchange D = put_asset d x (settlement d x t) cash t in
        put-Solvent a _ u (put-Solvent (settlement d x t) cash t st credit) (
          decimal.subtract-NotNegative _ _
            (rw (value_elsewhere (settlement d x t) a cash t.base.assets other) left))

    execute_buy-Solvent :
        (o : Order D) (s : SpotExchange D) → Solvent s → Solvent (execute_buy d x o s)
    unfolding execute_buy
    execute_buy-Solvent o s (h, f) =
        put-Solvent (get_base_asset o.symbol) _ s (h, f)
          (decimal.add-NotNegative _ _ (h (get_base_asset o.symbol))
            (ieee.mul-NotNegative _ _ (ieee.abs-NotNegative o.qty) f))

    cancel_buy-Solvent :
        (o : Order D) (s : SpotExchange D) → Solvent s → Solvent (cancel_buy d x o s)
    unfolding cancel_buy
    cancel_buy-Solvent o s (h, f) =
        put-Solvent (settlement d x s) _ s (h, f)
          (decimal.add-NotNegative _ _ (h (settlement d x s)) (ieee.abs-NotNegative _))

    execute_side-Solvent :
        (side : OrderSide) (o : Order D) (s : SpotExchange D)
        → IsSound o s
        → Solvent s
        → Solvent (execute_side d x side o s)
    execute_side-Solvent sell o s g h = execute_sell-Solvent o s g h
    execute_side-Solvent buy o s g h = execute_buy-Solvent o s h

    cancel_side-Solvent :
        (side : OrderSide) (o : Order D) (s : SpotExchange D)
        → Solvent s
        → Solvent (cancel_side d x side o s)
    cancel_side-Solvent buy o s h = cancel_buy-Solvent o s h
    cancel_side-Solvent sell o s h = base-Solvent s (untrack d x o s) (untrack-base o s) h

    check_qty-state :
        (r : Result D) (balance : D) (s : SpotExchange D) → (check_qty d x r balance s).1 ≡ s
    check_qty-state r balance s = ground arith

    submit-Solvent :
        (side : OrderSide) (o : Order D) (s : SpotExchange D)
        → Solvent s
        → Solvent (submit d x side o s).1
    unfolding submit_sell submit_buy track
    submit-Solvent sell o s h =
        base-Solvent s (submit d x sell o s).1
          (ap (λ t. t.base) (check_qty-state _ _ _)
            ∙ track_by-base d x (add_floats x) o.order_type o s)
          h
    submit-Solvent buy o s h =
        elim (Bool-cases
          (d.lt (subtract_floats x (asset d x (settlement d x s) s) (get_value d o)) d.nought)) [
            | inl b ↦ rw b h
            | inr b ↦ rw b (
                put-Solvent (settlement d x s)
                  (subtract_floats x (asset d x (settlement d x s) s) (get_value d o)) s h b)
          ]

    restore-Solvent :
        (o : Order D) (s : SpotExchange D) (r : Result (Unit {0}) × SpotExchange D)
        → Solvent s
        → Solvent r.1
        → Solvent (restore d x o s r).1
    restore-Solvent o s (ok a, t) h k = k
    restore-Solvent o s (err e, t) h k =
        put-Solvent (settlement d x s) (asset d x (settlement d x s) s) t k (h.0 (settlement d x s))

    Step-Solvent : {live : Bool} {s t : SpotExchange D} → Step live s t → Solvent s → Solvent t
    unfolding on_order_submission on_order_execution on_order_cancellation
    Step-Solvent {live = true} (submitted o s g) h = h
    Step-Solvent {live = false} (submitted o s g) h =
        restore-Solvent o s (submit d x o.order_side o s) h (submit-Solvent o.order_side o s h)
    Step-Solvent {live = true} (executed o s g) h = h
    Step-Solvent {live = false} (executed o s g) h = execute_side-Solvent o.order_side o s g h
    Step-Solvent {live = true} (canceled o s g) h = h
    Step-Solvent {live = false} (canceled o s g) h = cancel_side-Solvent o.order_side o s h

    Reach-Solvent : {live : Bool} {s t : SpotExchange D} → Reach live s t → Solvent s → Solvent t
    Reach-Solvent here h = h
    Reach-Solvent (next r q) h = Step-Solvent q (Reach-Solvent r h)

    -- From a spot exchange without a negative balance, whose fee rate is at most one, no sequence of
    -- submissions, executions and cancellations of orders, refused ones included, makes a balance
    -- negative, if each order has a price that is not negative and trades an asset other than the
    -- settlement currency.
    pub balances_never_negative :
        (live : Bool) (s t : SpotExchange D)
        → Solvent s
        → Reach live s t
        → (k : Text) → NotNegative d (asset d x k t)
    balances_never_negative live s t h r = (Reach-Solvent r h).0

-- ===== src/Exchange/Spot/Undo.antt =====
-- `SpotExchange`: a cancellation takes back what the submission of the order did.
use cipher_trader.Prelude.{◌≡◌, refl, ap, sym, ◌∙◌, Bool, true, false, Text, text_eq_iff, ok, arith}
use cipher_trader.Prelude.Dict.{Dict, value_or, insert, value_or-insert}
use cipher_trader.Double.{Double}
use cipher_trader.Helper.Decimal.{Decimals, add_floats, subtract_floats}
use cipher_trader.Helper.Symbols.{get_base_asset}
use cipher_trader.Enums.{OrderSide, OrderType, buy, sell, market, limit, stop, fok, stop_limit}
use cipher_trader.Order.{Order, get_value}
use cipher_trader.Exchange.Spot.{
  SpotExchange, asset, put_asset, settlement, stop_sum, limit_sum, size, track, track_by, untrack,
  selling_qty, submit_sell, submit_buy, submit, on_order_submission, cancel_buy, cancel_side,
  on_order_cancellation,
}
use cipher_trader.Exchange.Spot.Submission.{SameAccounts, restore-ok, check_qty-ok}

module _ {V : Type 0} where
  -- A second write that puts the old value back, computed from the first one by `f`
  rewrite_back :
      (f : V → V) (k j : Text) (v d : V) (m : Dict V)
      → f v ≡ value_or k d m
      → value_or j d m ≡ value_or j d (insert k (f (value_or k d (insert k v m))) (insert k v m))
  rewrite_back f k j v d m e =
      let w = f (value_or k d (insert k v m)) in
      let same : w ≡ value_or k d m =
        ap f (ground (arith, text_eq_iff k k, value_or-insert k k v d m)) ∙ e in
      ground (
        arith,
        same,
        text_eq_iff k j,
        value_or-insert k j w d (insert k v m),
        value_or-insert k j v d m,
      )

module _ {D : Type 0} (d : Double D) (x : Decimals D) where
  -- The decimal arithmetic takes back, without rounding, what it did to the three values that the
  -- submission of `o` can change.
  pub record IsReversible (o : Order D) (s : SpotExchange D) : Type 0 where
    pub balance :
        add_floats x
          (subtract_floats x (asset d x (settlement d x s) s) (get_value d o))
          (d.abs (get_value d o))
        ≡ asset d x (settlement d x s) s
    pub stops :
        subtract_floats x (add_floats x (stop_sum d x o.symbol s) (size d x o)) (size d x o)
        ≡ stop_sum d x o.symbol s
    pub limits :
        subtract_floats x (add_floats x (limit_sum d x o.symbol s) (size d x o)) (size d x o)
        ≡ limit_sum d x o.symbol s

  untrack-track :
      (ty : OrderType) (o : Order D) (s : SpotExchange D)
      → IsReversible o s
      → SameAccounts d x s
          (track_by d x (subtract_floats x) ty o (track_by d x (add_floats x) ty o s))
  untrack-track market o s r k = (refl, refl, refl)
  untrack-track fok o s r k = (refl, refl, refl)
  untrack-track stop_limit o s r k = (refl, refl, refl)
  untrack-track stop o s r k = (
    refl,
    rewrite_back (λ v. subtract_floats x v (size d x o)) o.symbol k
        (add_floats x (stop_sum d x o.symbol s) (size d x o)) d.nought s.stop_sell_orders_qty_sum
        r.stops,
    refl,
  )
  untrack-track limit o s r k = (
    refl,
    refl,
    rewrite_back (λ v. subtract_floats x v (size d x o)) o.symbol k
        (add_floats x (limit_sum d x o.symbol s) (size d x o)) d.nought s.limit_sell_orders_qty_sum
        r.limits,
  )

  undo_side :
      (side : OrderSide) (o : Order D) (s t : SpotExchange D)
      → submit d x side o s ≡ (ok tt, t)
      → IsReversible o s
      → SameAccounts d x s (cancel_side d x side o t)
  unfolding submit_sell submit_buy cancel_buy track untrack
  undo_side sell o s t h r =
      let (q, _, _, p) =
        check_qty-ok d x (selling_qty d x o (track d x o s))
          (asset d x (get_base_asset o.symbol) (track d x o s)) (track d x o s) t h in
      rw (sym p) (untrack-track o.order_type o s r)
  undo_side buy o s t h r =
      let rem : D = subtract_floats x (asset d x (settlement d x s) s) (get_value d o) in
      let p : t ≡ put_asset d x (settlement d x s) rem s = ground (arith, h) in
      rw p (λ k. (
        rewrite_back (λ v. add_floats x v (d.abs (get_value d o))) (settlement d x s) k rem d.nought
            s.base.assets r.balance,
        refl,
        refl,
      ))

  -- A cancellation after an accepted submission gives every balance and every sum of open sell
  -- orders back, if the decimal arithmetic does not round on these values.
  pub cancellation_undoes_submission :
      (live : Bool) (o : Order D) (s t : SpotExchange D)
      → on_order_submission d x live o s ≡ (ok tt, t)
      → IsReversible o s
      → SameAccounts d x s (on_order_cancellation d x live o t)
  unfolding on_order_submission on_order_cancellation
  cancellation_undoes_submission true o s t h r = ground (arith, h)
  cancellation_undoes_submission false o s t h r =
      undo_side o.order_side o s t (restore-ok d x o s (submit d x o.order_side o s) t h) r

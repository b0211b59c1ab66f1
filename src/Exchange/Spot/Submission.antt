-- ===== src/Exchange/Spot/Submission.antt =====
-- `SpotExchange::onOrderSubmission`: a refused order leaves no trace, an accepted one is covered.
use cipher_trader.Prelude.{
  ◌≡◌, refl, sym, Bool, true, false, Text, text_eq_iff, Result, ok, err, Error, ◌⊎◌, inl, inr,
  arith,
}
use cipher_trader.Prelude.Dict.{Dict, value_or, insert, value_or-insert}
use cipher_trader.Double.{Double}
use cipher_trader.Helper.Decimal.{Decimals, add_floats}
use cipher_trader.Helper.Symbols.{get_base_asset}
use cipher_trader.Enums.{OrderSide, OrderType, buy, sell, market, limit, stop, fok, stop_limit}
use cipher_trader.Order.{Order}
use cipher_trader.Exchange.Spot.{
  SpotExchange, asset, settlement, stop_sum, limit_sum, size, track, track_by, selling_qty,
  check_qty, submit_sell, submit_buy, submit, restore, on_order_submission,
}

module _ {V : Type 0} where
  -- Writing back what a key had undoes every write to the key.
  pub write_back :
      (k j : Text) (v d : V) (m : Dict V)
      → value_or j d (insert k (value_or k d m) (insert k v m)) ≡ value_or j d m
  write_back k j v d m = ground (
    arith,
    text_eq_iff k j,
    value_or-insert k j (value_or k d m) d (insert k v m),
    value_or-insert k j v d m,
  )

  write_same :
      (k j : Text) (d : V) (m : Dict V)
      → value_or j d (insert k (value_or k d m) m) ≡ value_or j d m
  write_same k j d m = ground (arith, text_eq_iff k j, value_or-insert k j (value_or k d m) d m)

module _ {D : Type 0} (d : Double D) (x : Decimals D) where
  -- The same balances and the same sums of open sell orders
  abbrev pub SameAccounts : SpotExchange D → SpotExchange D → Type 0
  SameAccounts s t =
      (k : Text)
      → (asset d x k s ≡ asset d x k t)
        × (stop_sum d x k s ≡ stop_sum d x k t)
        × (limit_sum d x k s ≡ limit_sum d x k t)

  check_qty-state :
      (r : Result D) (balance : D) (s t : SpotExchange D) (e : Error)
      → check_qty d x r balance s ≡ (err e, t)
      → t ≡ s
  check_qty-state r balance s t e h = ground (arith, h)

  -- What a refused submission has written: nothing, or the sum of the sell orders.
  refused :
      (side : OrderSide) (o : Order D) (s t : SpotExchange D) (e : Error)
      → submit d x side o s ≡ (err e, t)
      → (t ≡ s) ⊎ (t ≡ track d x o s)
  unfolding submit_sell submit_buy
  refused sell o s t e h = inr (
      check_qty-state (selling_qty d x o (track d x o s))
        (asset d x (get_base_asset o.symbol) (track d x o s)) (track d x o s) t e h)
  refused buy o s t e h = inl (ground (arith, h))

  restored_same :
      (o : Order D) (s : SpotExchange D) (e : Error) → SameAccounts s (restore d x o s (err e, s)).1
  restored_same o s e k = (
    sym (write_same (settlement d x s) k d.nought s.base.assets),
    sym (write_same o.symbol k d.nought s.stop_sell_orders_qty_sum),
    sym (write_same o.symbol k d.nought s.limit_sell_orders_qty_sum),
  )

  restored_by :
      (f : D → D → D) (ty : OrderType) (o : Order D) (s : SpotExchange D) (e : Error)
      → SameAccounts s (restore d x o s (err e, track_by d x f ty o s)).1
  restored_by f market o s e k = restored_same o s e k
  restored_by f fok o s e k = restored_same o s e k
  restored_by f stop_limit o s e k = restored_same o s e k
  restored_by f stop o s e k = (
    sym (write_same (settlement d x s) k d.nought s.base.assets),
    sym (
        write_back o.symbol k (f (stop_sum d x o.symbol s) (size d x o)) d.nought
          s.stop_sell_orders_qty_sum),
    sym (write_same o.symbol k d.nought s.limit_sell_orders_qty_sum),
  )
  restored_by f limit o s e k = (
    sym (write_same (settlement d x s) k d.nought s.base.assets),
    sym (write_same o.symbol k d.nought s.stop_sell_orders_qty_sum),
    sym (
        write_back o.symbol k (f (limit_sum d x o.symbol s) (size d x o)) d.nought
          s.limit_sell_orders_qty_sum),
  )

  restored_track :
      (o : Order D) (s : SpotExchange D) (e : Error)
      → SameAccounts s (restore d x o s (err e, track d x o s)).1
  unfolding track
  restored_track o s e = restored_by (add_floats x) o.order_type o s e

  restore-err :
      (o : Order D) (s : SpotExchange D) (r : Result (Unit {0}) × SpotExchange D)
      (t : SpotExchange D) (e : Error)
      → restore d x o s r ≡ (err e, t)
      → (u : SpotExchange D) × (r ≡ (err e, u)) × (t ≡ (restore d x o s (err e, u)).1)
  restore-err o s (ok a, u) t e h = ground (arith, h)
  restore-err o s (err c, u) t e h = (u, ground (arith, h), ground (arith, h))

  -- A submission that throws changes no balance and no sum of open sell orders, whatever the side
  -- and the type of the order are, in live trading and outside.
  pub refused_submission-SameAccounts :
      (live : Bool) (o : Order D) (s t : SpotExchange D) (e : Error)
      → on_order_submission d x live o s ≡ (err e, t)
      → SameAccounts s t
  unfolding on_order_submission
  refused_submission-SameAccounts true o s t e h = ground (arith, h)
  refused_submission-SameAccounts false o s t e h =
      let (u, r, q) = restore-err o s (submit d x o.order_side o s) t e h in
      elim (refused o.order_side o s u e r) [
        | inl same ↦ rw (q, same) (restored_same o s e)
        | inr same ↦ rw (q, same) (restored_track o s e)
      ]

  pub restore-ok :
      (o : Order D) (s : SpotExchange D) (r : Result (Unit {0}) × SpotExchange D)
      (t : SpotExchange D)
      → restore d x o s r ≡ (ok tt, t)
      → r ≡ (ok tt, t)
  restore-ok o s (ok a, u) t h = h
  restore-ok o s (err c, u) t h = ground (arith, h)

  pub track_by-base :
      (f : D → D → D) (ty : OrderType) (o : Order D) (s : SpotExchange D)
      → (track_by d x f ty o s).base ≡ s.base
  track_by-base f ty o s = ground arith

  pub check_qty-ok :
      (r : Result D) (balance : D) (s t : SpotExchange D)
      → check_qty d x r balance s ≡ (ok tt, t)
      → (q : D) × (r ≡ ok q) × (d.lt balance q ≡ false) × (s ≡ t)
  check_qty-ok (err e) balance s t h = ground (arith, h)
  check_qty-ok (ok q) balance s t h = (q, refl, ground (arith, h), ground (arith, h))

-- ===== src/Exchange/Futures/Locking.antt =====
-- `FuturesExchange`: what a submission does under the lock.
use cipher_trader.Prelude.{
  ◌≡◌, refl, Bool, true, false, List, ok, err, relock, ◌⊎◌, inl, inr, Bool-cases,
}
use cipher_trader.Prelude.Int.{ℤ}
use cipher_trader.Double.{Double}
use cipher_trader.Blaze.{Blaze}
use cipher_trader.Order.{Order}
use cipher_trader.Exchange.Futures.{
  State, get_available_margin, check_margin, change_available, on_order_submission,
}

module _ {D : Type 0} (d : Double D) (b : Blaze D) (of_int : ℤ → D) (sum : List D → D)
    (live : Bool) where
  -- Outside live trading a submission to a futures exchange whose lock is free has two outcomes. A
  -- reduce-only order is counted among the available assets, and nothing else changes. Any other
  -- order asks for the margin under the lock, which locks the mutex a second time: the call does not
  -- return, the lock stays locked, and nothing else changes.
  pub submission_outcomes :
      (s : State d b of_int sum live) (o : Order D)
      → live ≡ false
      → s.locked ≡ false
      → ((o.reduce_only ≡ true)
          × (on_order_submission d b of_int sum live o s
              ≡ (ok tt, change_available d b of_int sum live d.add o s)))
        ⊎ ((o.reduce_only ≡ false)
            × (on_order_submission d b of_int sum live o s
                ≡ (err relock, record s { locked = true })))
  unfolding on_order_submission check_margin get_available_margin
  submission_outcomes s o h k = elim (Bool-cases o.reduce_only) [
    | inl r ↦ inl (r, rw (h, k, r) refl)
    | inr r ↦ inr (r, rw (h, k, r) refl)
  ]

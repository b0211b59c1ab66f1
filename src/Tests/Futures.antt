-- ===== src/Tests/Futures.antt =====
-- The theorems on the futures exchange, at an exchange with one asset and a long position of it.
use cipher_trader.Prelude.{
  ◌≡◌, refl, true, false, none, some, List, [], ◌∷◌, codes, ok, err, relock, ◌⊎◌,
}
use cipher_trader.Prelude.Int.{ℤ, pos}
use cipher_trader.Blaze.{Blaze}
use cipher_trader.Double.Scaled.{Scaled, whole, scaled}
use cipher_trader.Enums.{buy, limit, queued, binance_perpetual_futures, cross}
use cipher_trader.Order.{Order}
use cipher_trader.Exchange.Futures.{
  FuturesExchange, construct_futures, change_available, on_order_submission,
}
use cipher_trader.Exchange.Futures.Locking.{submission_outcomes}
use cipher_trader.Tests.Grid.{Grid, grid_of}

abbrev table : Blaze Scaled
table = grid_of (whole (pos 0)) λ u v. scaled.eq u v

abbrev of_int : ℤ → Scaled
of_int = whole

abbrev total : List Scaled → Scaled
total [] = whole (pos 0)
total (x ∷ xs) = scaled.add x (total xs)

abbrev account : FuturesExchange Scaled (Grid Scaled)
account =
    construct_futures scaled table of_int total false binance_perpetual_futures (whole (pos 1000))
      (whole (pos 0)) cross (pos 2)

abbrev purchase : Order Scaled
purchase = record {
  id = codes "1";
  trade_id = none;
  session_id = [];
  exchange_id = none;
  symbol = codes "BTC-USDT";
  exchange_name = binance_perpetual_futures;
  order_side = buy;
  order_type = limit;
  reduce_only = false;
  qty = whole (pos 2);
  filled_qty = whole (pos 0);
  price = some (whole (pos 7));
  status = queued;
  created_at = 5;
  executed_at = none;
  canceled_at = none;
  submitted_via = none;
}

submission_outcomes_example :
    ((false ≡ true)
      × (on_order_submission scaled table of_int total false purchase account
          ≡ (ok tt, change_available scaled table of_int total false scaled.add purchase account)))
    ⊎ ((false ≡ false)
        × (on_order_submission scaled table of_int total false purchase account
            ≡ (err relock, record account { locked = true })))
unfolding construct_futures
submission_outcomes_example =
    submission_outcomes scaled table of_int total false account purchase refl refl

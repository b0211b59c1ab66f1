-- ===== src/Tests/Spot.antt =====
-- The theorems on the spot exchange, at a wallet of two assets.
use cipher_trader.Prelude.{
  ℕ, ◌≡◌, refl, false, none, some, [], ◌∷◌, codes, Result, ok, err, insufficient_balance, arith,
}
use cipher_trader.Prelude.Dict.{insert, lookup, value_or}
use cipher_trader.Prelude.Int.{ℤ, pos, negsuc, ◌+ℤ◌, ◌-ℤ◌, ◌*ℤ◌, abs}
use cipher_trader.Double.{NotNegative}
use cipher_trader.Double.Scaled.{Scaled, whole, scaled, scaled-IsIeee}
use cipher_trader.Helper.Decimal.{add_floats, subtract_floats, to_decimal}
use cipher_trader.Helper.Symbols.{get_base_asset}
use cipher_trader.Enums.{OrderSide, buy, sell, limit, active, binance_spot, spot}
use cipher_trader.Order.{Order, get_value}
use cipher_trader.Exchange.Spot.{
  SpotExchange, asset, selling_qty, on_order_submission, on_order_execution, on_order_cancellation,
  submit_sell, submit_buy, track,
}
use cipher_trader.Exchange.Spot.Submission.{SameAccounts, refused_submission-SameAccounts}
use cipher_trader.Exchange.Spot.Balances.{
  Solvent, IsSound, submitted, executed, here, next, balances_never_negative,
}
use cipher_trader.Exchange.Spot.Undo.{IsReversible, cancellation_undoes_submission}
use cipher_trader.Tests.Money.{decimals, decimals-IsDecimal}

abbrev wallet : SpotExchange Scaled
wallet = record {
  base = record {
    name = binance_spot;
    starting_balance = whole (pos 1000);
    fee_rate = whole (pos 0);
    exchange_type = spot;
    settlement_currency = codes "USDT";
    assets = (codes "BTC", whole (pos 5)) ∷ (codes "USDT", whole (pos 1000)) ∷ [];
    starting_assets = [];
  };
  started_balance = whole (pos 0);
  stop_sell_orders_qty_sum = [];
  limit_sell_orders_qty_sum = [];
}

abbrev an_order : OrderSide → ℤ → ℕ → Order Scaled
an_order side qty price = record {
  id = codes "1";
  trade_id = none;
  session_id = [];
  exchange_id = none;
  symbol = codes "BTC-USDT";
  exchange_name = binance_spot;
  order_side = side;
  order_type = limit;
  reduce_only = false;
  qty = whole qty;
  filled_qty = whole (pos 0);
  price = some (whole (pos price));
  status = active;
  created_at = 0;
  executed_at = none;
  canceled_at = none;
  submitted_via = none;
}

abbrev sale : Order Scaled
sale = an_order sell (negsuc 2) 10

abbrev purchase : Order Scaled
purchase = an_order buy (pos 2) 100

abbrev large_sale : Order Scaled
large_sale = an_order sell (negsuc 8) 10

abbrev submission : Order Scaled → Result (Unit {0}) × SpotExchange Scaled
submission o = on_order_submission scaled decimals false o wallet

wallet-Solvent : Solvent scaled decimals wallet
unfolding scaled value_or lookup ◌-ℤ◌
wallet-Solvent = (λ k. ground arith, refl)

sale-IsSound : IsSound scaled decimals sale wallet
unfolding scaled get_base_asset
sale-IsSound = (refl, ground arith)

after_sale-IsSound : IsSound scaled decimals sale (submission sale).1
unfolding scaled get_base_asset on_order_submission decimals
after_sale-IsSound = (refl, ground arith)

balances_never_negative_example : NotNegative scaled (
    asset scaled decimals
      (codes "USDT")
      (on_order_execution scaled decimals false sale (submission sale).1))
balances_never_negative_example =
    balances_never_negative scaled decimals scaled-IsIeee decimals-IsDecimal false wallet
      (on_order_execution scaled decimals false sale (submission sale).1) wallet-Solvent
      (next (next here (submitted sale wallet sale-IsSound))
        (executed sale (submission sale).1 after_sale-IsSound))
      (codes "USDT")

refused_large_sale : submission large_sale ≡ (err insufficient_balance, (submission large_sale).1)
unfolding scaled decimals on_order_submission submit_sell track selling_qty value_or lookup insert
    get_base_asset add_floats to_decimal ◌+ℤ◌ ◌-ℤ◌ abs
refused_large_sale = refl

refused_submission-SameAccounts_example :
    SameAccounts scaled decimals wallet (submission large_sale).1
refused_submission-SameAccounts_example =
    refused_submission-SameAccounts scaled decimals false large_sale wallet
      (submission large_sale).1 insufficient_balance refused_large_sale

accepted_purchase : submission purchase ≡ (ok tt, (submission purchase).1)
unfolding scaled decimals on_order_submission submit_buy value_or lookup insert get_value
    get_base_asset subtract_floats to_decimal ◌+ℤ◌ ◌-ℤ◌ ◌*ℤ◌ abs
accepted_purchase = refl

purchase-IsReversible : IsReversible scaled decimals purchase wallet
unfolding scaled decimals value_or lookup get_value add_floats subtract_floats to_decimal ◌+ℤ◌ ◌-ℤ◌
    ◌*ℤ◌ abs
purchase-IsReversible = record { balance = refl; stops = refl; limits = refl }

cancellation_undoes_submission_example :
    SameAccounts scaled decimals wallet
      (on_order_cancellation scaled decimals false purchase (submission purchase).1)
cancellation_undoes_submission_example =
    cancellation_undoes_submission scaled decimals false purchase wallet (submission purchase).1
      accepted_purchase purchase-IsReversible

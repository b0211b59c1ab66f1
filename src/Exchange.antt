-- ===== src/Exchange.antt =====
-- include/Exchange.hpp and src/Exchange.cpp: the base class `Exchange`. The maps that only the
-- futures exchange uses (reduced amounts, available assets, open orders) and `vars_` are left out.
pub mod Spot
pub mod Sandbox
pub mod Futures
use cipher_trader.Prelude.{Option, none, some, List, [], ◌∷◌, Text, codes}
use cipher_trader.Prelude.Dict.{Dict, insert, value_or}
use cipher_trader.Enums.{
  ExchangeName, ExchangeType, sandbox, bybit_usdc_perpetual, bybit_usdc_perpetual_testnet,
}

pub record Exchange (D : Type 0) : Type 0 where
  pub name : ExchangeName
  pub starting_balance : D
  pub fee_rate : D
  pub exchange_type : ExchangeType
  pub settlement_currency : Text
  pub assets : Dict D
  pub starting_assets : Dict D

-- The settlement currency in `EXCHANGES_DATA`; the sandbox is not listed there.
unfoldable pub listed_settlement_currency : ExchangeName → Option Text
listed_settlement_currency sandbox = none
listed_settlement_currency bybit_usdc_perpetual = some (codes "USDC")
listed_settlement_currency bybit_usdc_perpetual_testnet = some (codes "USDC")
listed_settlement_currency _ = some (codes "USDT")

module _ {D : Type 0} where
  -- The constructor credits the default currency before it looks up the settlement currency.
  unfoldable pub construct : ExchangeName → D → D → ExchangeType → Exchange D
  construct name starting_balance fee_rate exchange_type = record {
    name = name;
    starting_balance = starting_balance;
    fee_rate = fee_rate;
    exchange_type = exchange_type;
    settlement_currency = elim (listed_settlement_currency name) [
      | none ↦ codes "USDT"
      | some currency ↦ currency
    ];
    assets = insert (codes "USDT") starting_balance [];
    starting_assets = insert (codes "USDT") starting_balance [];
  }

  -- `nought` is 0.0.
  unfoldable pub get_asset : D → Text → Exchange D → D
  get_asset nought asset e = value_or asset nought e.assets

  unfoldable pub set_asset : Text → D → Exchange D → Exchange D
  set_asset asset balance e = record e { assets = insert asset balance e.assets }

-- ===== src/Enums.antt =====
-- include/Enum.hpp and src/Enum.cpp: the enumerations of the trading core, and their texts. The
-- `default` branches of the printers are for values outside the enumeration, and are left out.
pub mod RoundTrip
use text.Mathlib.Text.{◌==◌ as str_eq}
use cipher_trader.Prelude.{
  ℕ, ◌-◌, Bool, ◌&&◌, Option, none, some, List, [], ◌∷◌, String, Text, codes, text_eq, map, leb,
  if◌then◌else◌, Result, ok, err, Error, invalid_argument, or_fail,
}

pub data OrderSide : Type 0 where
  buy sell : OrderSide

pub data PositionType : Type 0 where
  long short close : PositionType

pub data OrderStatus : Type 0 where
  active canceled executed partially_filled queued liquidated rejected : OrderStatus

pub data OrderType : Type 0 where
  market limit stop fok stop_limit : OrderType

pub data ExchangeName : Type 0 where
  sandbox coinbase_spot bitfinex_spot binance_spot binance_us_spot : ExchangeName
  binance_perpetual_futures binance_perpetual_futures_testnet : ExchangeName
  bybit_usdt_perpetual bybit_usdc_perpetual : ExchangeName
  bybit_usdt_perpetual_testnet bybit_usdc_perpetual_testnet : ExchangeName
  bybit_spot bybit_spot_testnet ftx_perpetual_futures ftx_spot ftx_us_spot : ExchangeName
  bitget_spot bitget_usdt_perpetual bitget_usdt_perpetual_testnet : ExchangeName
  dydx_perpetual dydx_perpetual_testnet : ExchangeName
  apex_pro_perpetual_testnet apex_pro_perpetual : ExchangeName
  apex_omni_perpetual_testnet apex_omni_perpetual : ExchangeName
  gate_usdt_perpetual gate_spot : ExchangeName

pub data ExchangeType : Type 0 where
  spot futures : ExchangeType

pub data LeverageMode : Type 0 where
  cross isolated : LeverageMode

unfoldable pub order_side_to_string : OrderSide → String
order_side_to_string buy = "buy"
order_side_to_string sell = "sell"

unfoldable pub position_type_to_string : PositionType → String
position_type_to_string long = "long"
position_type_to_string short = "short"
position_type_to_string close = "close"

unfoldable pub order_status_to_string : OrderStatus → String
order_status_to_string active = "active"
order_status_to_string canceled = "canceled"
order_status_to_string executed = "executed"
order_status_to_string partially_filled = "partially_filled"
order_status_to_string queued = "queued"
order_status_to_string liquidated = "liquidated"
order_status_to_string rejected = "rejected"

unfoldable pub order_type_to_string : OrderType → String
order_type_to_string market = "MARKET"
order_type_to_string limit = "LIMIT"
order_type_to_string stop = "STOP"
order_type_to_string fok = "FOK"
order_type_to_string stop_limit = "STOP LIMIT"

unfoldable pub exchange_name_to_string : ExchangeName → String
exchange_name_to_string sandbox = "Sandbox"
exchange_name_to_string coinbase_spot = "Coinbase Spot"
exchange_name_to_string bitfinex_spot = "Bitfinex Spot"
exchange_name_to_string binance_spot = "Binance Spot"
exchange_name_to_string binance_us_spot = "Binance US Spot"
exchange_name_to_string binance_perpetual_futures = "Binance Perpetual Futures"
exchange_name_to_string binance_perpetual_futures_testnet = "Binance Perpetual Futures Testnet"
exchange_name_to_string bybit_usdt_perpetual = "Bybit USDT Perpetual"
exchange_name_to_string bybit_usdc_perpetual = "Bybit USDC Perpetual"
exchange_name_to_string bybit_usdt_perpetual_testnet = "Bybit USDT Perpetual Testnet"
exchange_name_to_string bybit_usdc_perpetual_testnet = "Bybit USDC Perpetual Testnet"
exchange_name_to_string bybit_spot = "Bybit Spot"
exchange_name_to_string bybit_spot_testnet = "Bybit Spot Testnet"
exchange_name_to_string ftx_perpetual_futures = "FTX Perpetual Futures"
exchange_name_to_string ftx_spot = "FTX Spot"
exchange_name_to_string ftx_us_spot = "FTX US Spot"
exchange_name_to_string bitget_spot = "Bitget Spot"
exchange_name_to_string bitget_usdt_perpetual = "Bitget USDT Perpetual"
exchange_name_to_string bitget_usdt_perpetual_testnet = "Bitget USDT Perpetual Testnet"
exchange_name_to_string dydx_perpetual = "Dydx Perpetual"
exchange_name_to_string dydx_perpetual_testnet = "Dydx Perpetual Testnet"
exchange_name_to_string apex_pro_perpetual_testnet = "Apex Pro Perpetual Testnet"
exchange_name_to_string apex_pro_perpetual = "Apex Pro Perpetual"
exchange_name_to_string apex_omni_perpetual_testnet = "Apex Omni Perpetual Testnet"
exchange_name_to_string apex_omni_perpetual = "Apex Omni Perpetual"
exchange_name_to_string gate_usdt_perpetual = "Gate USDT Perpetual"
exchange_name_to_string gate_spot = "Gate Spot"

pub to_order_side : String → Result OrderSide
to_order_side s =
    if str_eq s "buy" then ok buy else if str_eq s "sell" then ok sell else err invalid_argument

pub to_position_type : String → Result PositionType
to_position_type s =
    if str_eq s "short"
    then ok short
    else if str_eq s "long"
    then ok long
    else if str_eq s "close"
    then ok close
    else err invalid_argument

pub to_order_status : String → Result OrderStatus
to_order_status s =
    if str_eq s "active"
    then ok active
    else if str_eq s "canceled"
    then ok canceled
    else if str_eq s "executed"
    then ok executed
    else if str_eq s "partially_filled"
    then ok partially_filled
    else if str_eq s "queued"
    then ok queued
    else if str_eq s "liquidated"
    then ok liquidated
    else if str_eq s "rejected"
    then ok rejected
    else err invalid_argument

pub to_order_type : String → Result OrderType
to_order_type s =
    if str_eq s "MARKET"
    then ok market
    else if str_eq s "LIMIT"
    then ok limit
    else if str_eq s "STOP"
    then ok stop
    else if str_eq s "FOK"
    then ok fok
    else if str_eq s "STOP LIMIT"
    then ok stop_limit
    else err invalid_argument

-- `find` of a static `std::unordered_map` from texts.
abbrev pub find {ℓ} : {E : Type ℓ} → String → List (String × E) → Option E
find s [] = none
find s ((k, e) ∷ m) = if str_eq s k then some e else find s m

abbrev exchange_name_map : List (String × ExchangeName)
exchange_name_map =
    ("Sandbox", sandbox)
    ∷ ("Coinbase Spot", coinbase_spot)
    ∷ ("Bitfinex Spot", bitfinex_spot)
    ∷ ("Binance Spot", binance_spot)
    ∷ ("Binance US Spot", binance_us_spot)
    ∷ ("Binance Perpetual Futures", binance_perpetual_futures)
    ∷ ("Binance Perpetual Futures Testnet", binance_perpetual_futures_testnet)
    ∷ ("Bybit USDT Perpetual", bybit_usdt_perpetual)
    ∷ ("Bybit USDC Perpetual", bybit_usdc_perpetual)
    ∷ ("Bybit USDT Perpetual Testnet", bybit_usdt_perpetual_testnet)
    ∷ ("Bybit USDC Perpetual Testnet", bybit_usdc_perpetual_testnet)
    ∷ ("Bybit Spot", bybit_spot)
    ∷ ("Bybit Spot Testnet", bybit_spot_testnet)
    ∷ ("FTX Perpetual Futures", ftx_perpetual_futures)
    ∷ ("FTX Spot", ftx_spot)
    ∷ ("FTX US Spot", ftx_us_spot)
    ∷ ("Bitget Spot", bitget_spot)
    ∷ ("Bitget USDT Perpetual", bitget_usdt_perpetual)
    ∷ ("Bitget USDT Perpetual Testnet", bitget_usdt_perpetual_testnet)
    ∷ ("Dydx Perpetual", dydx_perpetual)
    ∷ ("Dydx Perpetual Testnet", dydx_perpetual_testnet)
    ∷ ("Apex Pro Perpetual Testnet", apex_pro_perpetual_testnet)
    ∷ ("Apex Pro Perpetual", apex_pro_perpetual)
    ∷ ("Apex Omni Perpetual Testnet", apex_omni_perpetual_testnet)
    ∷ ("Apex Omni Perpetual", apex_omni_perpetual)
    ∷ ("Gate USDT Perpetual", gate_usdt_perpetual)
    ∷ ("Gate Spot", gate_spot)
    ∷ []

pub to_exchange_name : String → Result ExchangeName
to_exchange_name s = or_fail (find s exchange_name_map) invalid_argument

-- `toupper` of the C locale
abbrev pub to_upper : ℕ → ℕ
to_upper c = if leb b'a' c && leb c b'z' then c - 32 else c

pub to_exchange_type : Text → Result ExchangeType
to_exchange_type s =
    let upper_str = map to_upper s in
    if text_eq upper_str (codes "SPOT")
    then ok spot
    else if text_eq upper_str (codes "FUTURES")
    then ok futures
    else err invalid_argument

pub to_leverage_mode : Text → Result LeverageMode
to_leverage_mode s =
    let upper_str = map to_upper s in
    if text_eq upper_str (codes "CROSS")
    then ok cross
    else if text_eq upper_str (codes "ISOLATED")
    then ok isolated
    else err invalid_argument

unfoldable pub exchange_type_to_string : ExchangeType → String
exchange_type_to_string spot = "SPOT"
exchange_type_to_string futures = "FUTURES"

unfoldable pub leverage_mode_to_string : LeverageMode → String
leverage_mode_to_string cross = "CROSS"
leverage_mode_to_string isolated = "ISOLATED"

-- ===== src/Exchange/Futures.antt =====
-- include/Exchange.hpp and src/Exchange.cpp: `FuturesExchange`. The mutex is part of the state: to lock
-- it twice is undefined behaviour, here the outcome `relock` of a call that does not return and keeps
-- the lock. `helper::isLiveTrading()` and `getAppCurrency()` are arguments, and so are the conversion of
-- `int`, and `blaze::sum`. The open orders of an asset are rows of a quantity and a price. `assets_` is
-- walked in the order of its keys.
pub mod Locking
use cipher_trader.Prelude.{
  ℕ, ltb, Bool, true, false, not, Option, none, some, List, [], ◌∷◌, map, if◌then◌else◌, Text,
  text_eq, Result, ok, err, Error, runtime_error, insufficient_margin, out_of_range, bad_access,
  relock, M, ◌>>◌, ◌>>=◌, and_then, pure, throw, modify,
}
use cipher_trader.Prelude.Int.{ℤ, pos}
use cipher_trader.Prelude.Dict.{Dict, insert, lookup, value_or}
use cipher_trader.Double.{Double}
use cipher_trader.Blaze.{Blaze}
use cipher_trader.DynamicArray
use cipher_trader.DynamicArray.{DynamicArray, append, delete_row, find}
use cipher_trader.Helper.Symbols.{get_base_asset}
use cipher_trader.Enums.{ExchangeName, OrderSide, LeverageMode, buy, sell, futures}
use cipher_trader.Order.{Order}
use cipher_trader.Exchange.{Exchange, construct, get_asset}

pub record FuturesExchange (D Mat : Type 0) : Type 0 where
  pub base : Exchange D
  pub available_assets : Dict D
  pub buy_orders : Dict (DynamicArray Mat)
  pub sell_orders : Dict (DynamicArray Mat)
  pub leverage_mode : LeverageMode
  pub leverage : ℤ
  pub available_margin : D
  pub wallet_balance : D
  pub started_balance : D
  pub locked : Bool

-- The first two numbers of a row of open orders, multiplied
abbrev pub product {ℓ} : {D : Type ℓ} → (D → D → D) → D → List D → D
product mul d (qty ∷ price ∷ _) = mul qty price
product mul d _ = d

abbrev never_returns {ℓ} : {A : Type ℓ} → Result A → Bool
never_returns (ok a) = false
never_returns (err relock) = true
never_returns (err _) = false

module _ {D : Type 0} (d : Double D) (b : Blaze D) (of_int : ℤ → D) (sum : List D → D)
    (live : Bool) where
  abbrev pub State : Type 0
  State = FuturesExchange D b.Matrix

  -- The constructor. Nothing fills the maps of open orders.
  unfoldable pub construct_futures : ExchangeName → D → D → LeverageMode → ℤ → State
  construct_futures name starting_balance fee_rate mode leverage = record {
    base = construct name starting_balance fee_rate futures;
    available_assets = [];
    buy_orders = [];
    sell_orders = [];
    leverage_mode = mode;
    leverage = leverage;
    available_margin = d.nought;
    wallet_balance = d.nought;
    started_balance = d.nought;
    locked = false;
  }

  -- `std::lock_guard` over the whole call: released also by an exception, but not by a call that
  -- waits for its own lock
  abbrev released : {A : Type 0} → Result A × State → Result A × State
  released (r, s) = (r, record s { locked = never_returns r })

  abbrev pub guarded : {A : Type 0} → M State A → M State A
  guarded m s = if s.locked then (err relock, s) else released (m (record s { locked = true }))

  abbrev reading : {A : Type 0} → (State → A) → M State A
  reading f s = (ok (f s), s)

  unfoldable pub get_started_balance : Text → M State D
  get_started_balance app_currency = guarded (
      reading λ s.
        if live then s.started_balance else value_or app_currency d.nought s.base.starting_assets)

  unfoldable pub get_wallet_balance : M State D
  get_wallet_balance = guarded (
      reading λ s.
        if live then s.wallet_balance else get_asset d.nought s.base.settlement_currency s.base)

  -- The sum of quantity times price over the open orders of an asset
  abbrev order_rows : DynamicArray b.Matrix → Result D
  order_rows a =
      and_then (DynamicArray.rows b (pos 0) (pos a.count) a)
        λ lines. ok (sum (map (product d.mul d.nought) lines))

  abbrev summed_orders : Option (DynamicArray b.Matrix) → Result D
  summed_orders none = ok d.nought
  summed_orders (some a) = if ltb 0 a.count then order_rows a else ok d.nought

  abbrev larger : D → D → D
  larger u v = if d.lt u v then v else u

  abbrev spent_on : Text → State → Result D
  spent_on asset s = and_then (summed_orders (lookup asset s.buy_orders)) λ buys.
      and_then (summed_orders (lookup asset s.sell_orders)) λ sells.
        ok (
          larger (d.div (d.abs buys) (of_int s.leverage)) (d.div (d.abs sells) (of_int s.leverage)))

  -- The loop over the assets; the position that the code makes for each is closed.
  pub spent : Dict D → State → D → Result D
  spent [] s total = ok total
  spent ((asset, _) ∷ rest) s total =
      let others = and_then (spent_on asset s) λ v. spent rest s (d.add total v) in
      if text_eq asset s.base.settlement_currency then spent rest s total else others

  abbrev margin : State → Result D
  margin s =
      if live
      then ok s.available_margin
      else and_then (spent s.base.assets s d.nought)
          λ total. ok (d.sub (get_asset d.nought s.base.settlement_currency s.base) total)

  unfoldable pub get_available_margin : M State D
  unfolding spent
  get_available_margin = guarded λ s. (margin s, s)

  -- `assets_[k]`, read and written
  abbrev pub asset : Text → State → D
  asset k s = value_or k d.nought s.base.assets

  abbrev pub put_asset : Text → D → State → State
  put_asset k v s = record s { base = record s.base { assets = insert k v s.base.assets } }

  abbrev pub settlement : State → Text
  settlement s = s.base.settlement_currency

  abbrev pub unless_live : M State (Unit {0}) → M State (Unit {0})
  unless_live m = if live then pure tt else m

  unfoldable pub add_realized_pnl : D → M State (Unit {0})
  add_realized_pnl pnl =
      guarded
        (unless_live (modify λ s. put_asset (settlement s) (d.add (asset (settlement s) s) pnl) s))

  unfoldable pub charge_fee : D → M State (Unit {0})
  charge_fee amount = guarded (
      unless_live (
        modify λ s.
          put_asset (settlement s)
            (d.sub (asset (settlement s) s) (d.mul (d.abs amount) s.base.fee_rate)) s))

  unfoldable pub increase_asset_temp_reduced_amount : Text → D → M State (Unit {0})
  increase_asset_temp_reduced_amount name amount = throw runtime_error

  abbrev price_or_zero : Order D → D
  price_or_zero o = elim o.price [ none ↦ d.nought | some p ↦ p ]

  -- The order does not cost more than the margin, which is asked for under the lock.
  unfoldable pub check_margin : Order D → M State (Unit {0})
  unfolding get_available_margin
  check_margin o s =
      let size = d.div (d.abs (d.mul o.qty (price_or_zero o))) (of_int s.leverage) in
      (get_available_margin >>= λ free.
      if d.lt free size then throw insufficient_margin else pure tt)
        s

  abbrev pub change_available : (D → D → D) → Order D → State → State
  change_available f o s =
      let k = get_base_asset o.symbol in
      record s {
        available_assets =
            insert k (f (value_or k d.nought s.available_assets) o.qty) s.available_assets;
      }

  abbrev side_orders : OrderSide → State → Dict (DynamicArray b.Matrix)
  side_orders buy s = s.buy_orders
  side_orders sell s = s.sell_orders

  abbrev put_side_orders : OrderSide → Dict (DynamicArray b.Matrix) → State → State
  put_side_orders buy m s = record s { buy_orders = m }
  put_side_orders sell m s = record s { sell_orders = m }

  -- A call on the shared array of the side and the base asset, `.at(base_asset)`
  abbrev stored :
      Order D → State → Result (Unit {0}) × DynamicArray b.Matrix → Result (Unit {0}) × State
  stored o s (r, a) = (
    r,
    put_side_orders o.order_side (insert (get_base_asset o.symbol) a (side_orders o.order_side s))
        s,
  )

  abbrev on_orders : Order D → M (DynamicArray b.Matrix) (Unit {0}) → M State (Unit {0})
  on_orders o m s = elim (lookup (get_base_asset o.symbol) (side_orders o.order_side s)) [
    | none ↦ (err out_of_range, s)
    | some a ↦ stored o s (m a)
  ]

  abbrev pub order_row : Order D → List D
  order_row o = o.qty ∷ price_or_zero o ∷ []

  unfoldable pub on_order_submission : Order D → M State (Unit {0})
  unfolding check_margin
  on_order_submission o = guarded (
      unless_live (
        (if o.reduce_only then pure tt else check_margin o)
        >> modify (change_available d.add o)
        >> (if o.reduce_only then pure tt else on_orders o (append b (order_row o)))))

  abbrev delete_found : Result (Option ℕ) → M (DynamicArray b.Matrix) (Unit {0})
  delete_found (err e) a = (err e, a)
  delete_found (ok none) a = (ok tt, a)
  delete_found (ok (some i)) a = delete_row b (pos i) a

  -- `find(row, 1)` and `deleteRow`: axis 1 searches the columns.
  abbrev pub drop_order : Order D → M State (Unit {0})
  drop_order o =
      if o.reduce_only then pure tt else on_orders o λ a. delete_found (find b (order_row o) 1 a) a

  unfoldable pub on_order_execution : Order D → M State (Unit {0})
  on_order_execution o = guarded (unless_live (drop_order o))

  unfoldable pub on_order_cancellation : Order D → M State (Unit {0})
  on_order_cancellation o =
      guarded (unless_live (modify (change_available d.sub o) >> drop_order o))

  -- The margin and the balance are what the stream says.
  abbrev streamed : D → D → State → State
  streamed margin balance s = record s {
    available_margin = margin;
    wallet_balance = balance;
    started_balance = if d.eq s.started_balance d.nought then balance else s.started_balance;
  }

  unfoldable pub on_update_from_stream : D → D → M State (Unit {0})
  on_update_from_stream margin balance =
      guarded (if live then modify (streamed margin balance) else throw runtime_error)

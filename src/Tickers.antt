-- ===== src/Tickers.antt =====
-- src/Ticker.cpp: `TickersState`, the last tickers of each exchange and symbol. The clock and the
-- conversion of `int64_t` to `double` are arguments; a route is given by its exchange and its symbol.
pub mod Adding
use cipher_trader.Prelude.{
  ℕ, ◌+◌, ◌-◌, Bool, ◌||◌, Option, none, some, List, [], ◌∷◌, ltb, ◌==◌, if◌then◌else◌, get_elem?,
  Text, Result, ok, err, out_of_range, bad_access, invalid_argument, and_then, or_fail, M,
}
use cipher_trader.Prelude.Int.{ℤ, pos, negsuc}
use cipher_trader.Prelude.Dict.{Dict, insert, lookup, at, assign_at}
use cipher_trader.Double.{Double}
use cipher_trader.Blaze.{Blaze}
use cipher_trader.DynamicArray.{DynamicArray, construct, append, row, rows, negate}
use cipher_trader.Helper.Symbols.{make_key}
use cipher_trader.Enums.{ExchangeName}

module _ {D : Type 0} (d : Double D) (b : Blaze D) (of_int : ℤ → D) where
  abbrev pub Storage : Type 0
  Storage = Dict (DynamicArray b.Matrix)

  abbrev pub key : ExchangeName → Text → Text
  key name symbol = make_key name symbol none

  -- 60 rows of 5 numbers, dropping at 120
  abbrev new_array : b.Matrix → DynamicArray b.Matrix
  new_array empty = construct b empty 60 5 (some 120)

  abbrev stored : Result Storage → Storage → Result (Unit {0}) × Storage
  stored (ok t) s = (ok tt, t)
  stored (err e) s = (err e, s)

  -- `storage_.at(key) = …`, which needs the key
  pub init : b.Matrix → List (ExchangeName × Text) → M Storage (Unit {0})
  init empty [] s = (ok tt, s)
  init empty ((name, symbol) ∷ routes) s = elim (assign_at (key name symbol) (new_array empty) s) [
    | err e ↦ (err e, s)
    | ok t ↦ init empty routes t
  ]

  -- `>=` of doubles
  abbrev pub at_least : D → D → Bool
  at_least u v = d.lt v u || d.eq u v

  -- The time since the last row, in milliseconds
  abbrev pub age : ℤ → DynamicArray b.Matrix → Result D
  age now a =
      and_then (row b (negsuc 0) a)
        λ last. and_then (or_fail (get_elem? last 0) bad_access) λ t. ok (d.sub (of_int now) t)

  abbrev pub is_due : ℤ → DynamicArray b.Matrix → Result Bool
  is_due now a =
      if a.count == 0
      then ok Bool.true
      else and_then (age now a) λ t. ok (at_least t (of_int (pos 1000)))

  abbrev put :
      Text → Storage → Result (Unit {0}) × DynamicArray b.Matrix → Result (Unit {0}) × Storage
  put k s (r, a) = (r, insert k a s)

  abbrev pub append_if :
      Text → List D → Storage → DynamicArray b.Matrix → Result Bool → Result (Unit {0}) × Storage
  append_if k ticker s a (err e) = (err e, s)
  append_if k ticker s a (ok due) = if due then put k s (append b ticker a) else (ok tt, s)

  unfoldable pub add_ticker : ℤ → List D → ExchangeName → Text → M Storage (Unit {0})
  add_ticker now ticker name symbol s = elim (lookup (key name symbol) s) [
    | none ↦ (err out_of_range, s)
    | some a ↦ append_if (key name symbol) ticker s a (is_due now a)
  ]

  unfoldable pub get_tickers : ExchangeName → Text → Storage → Result (List (List D))
  get_tickers name symbol s = and_then (at (key name symbol) s) λ a. rows b (pos 0) (pos a.count) a

  unfoldable pub get_current_ticker : ExchangeName → Text → Storage → Result (List D)
  get_current_ticker name symbol s = and_then (at (key name symbol) s) (row b (negsuc 0))

  -- `-1 - std::abs(n)`
  abbrev pub past : ℤ → ℤ
  past (pos n) = negsuc n
  past (negsuc n) = negsuc (n + 1)

  abbrev too_far : ℤ → Bool
  too_far (pos n) = ltb 120 n
  too_far (negsuc n) = Bool.false

  unfoldable pub get_past_ticker : ExchangeName → Text → ℤ → Storage → Result (List D)
  get_past_ticker name symbol n s =
      if too_far n then err invalid_argument else and_then (at (key name symbol) s) (row b (past n))

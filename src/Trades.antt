-- ===== src/Trades.antt =====
-- src/Trade.cpp: `TradesState`, which sums the trades of the market up to seconds. `blaze::sum`, the
-- conversion of integers and the comparison of `filter` are arguments; a route is given by its exchange
-- and its symbol.
use cipher_trader.Prelude.{
  ◌+◌, Bool, true, false, ◌||◌, none, some, List, [], ◌∷◌, map, length, ltb, if◌then◌else◌,
  get_elem?, get_or, Text, Result, ok, err, out_of_range, bad_access, runtime_error,
  invalid_argument, and_then, or_fail, M,
}
use cipher_trader.Prelude.Int.{ℤ, pos, negsuc}
use cipher_trader.Prelude.Dict.{Dict, insert, lookup, at, assign_at}
use cipher_trader.Double.{Double}
use cipher_trader.Blaze.{Blaze}
use cipher_trader.DynamicArray
use cipher_trader.DynamicArray.{DynamicArray, construct, append, row, rows, flush, apply_function}
use cipher_trader.Helper.Symbols.{make_key}
use cipher_trader.Enums.{ExchangeName}

pub record TradesState (Mat : Type 0) : Type 0 where
  pub storage : Dict (DynamicArray Mat)
  pub temp_storage : Dict (DynamicArray Mat)

module _ {D : Type 0} (d : Double D) (b : Blaze D) (of_int : ℤ → D) (sum : List D → D)
    (near : D → D → Bool) where
  abbrev pub State : Type 0
  State = TradesState b.Matrix

  abbrev pub Array : Type 0
  Array = DynamicArray b.Matrix

  abbrev pub key : ExchangeName → Text → Text
  key name symbol = make_key name symbol none

  abbrev assigned : State → Result (Dict Array) → Result (Unit {0}) × State
  assigned s (err e) = (err e, s)
  assigned s (ok m) = (ok tt, record s { storage = m })

  abbrev assigned_temp : Result (Unit {0}) × State → Result (Dict Array) → Result (Unit {0}) × State
  assigned_temp (err u, s) r = (err u, s)
  assigned_temp (ok u, s) (err e) = (err e, s)
  assigned_temp (ok u, s) (ok m) = (ok tt, record s { temp_storage = m })

  -- One route of `init`: 60 rows of 6 columns that drop at 120, and 100 rows of 4 columns
  abbrev init_route : b.Matrix → Text → M State (Unit {0})
  init_route empty k s =
      assigned_temp (assigned s (assign_at k (construct b empty 60 6 (some 120)) s.storage))
        (assign_at k (construct b empty 100 4 none) s.temp_storage)

  abbrev next_routes : M State (Unit {0}) → Result (Unit {0}) × State → Result (Unit {0}) × State
  next_routes rest (err e, s) = (err e, s)
  next_routes rest (ok u, s) = rest s

  pub init : b.Matrix → List (ExchangeName × Text) → M State (Unit {0})
  init empty [] s = (ok tt, s)
  init empty ((name, symbol) ∷ routes) s =
      next_routes (init empty routes) (init_route empty (key name symbol) s)

  abbrev first_number : List D → Result D
  first_number line = or_fail (get_elem? line 0) bad_access

  -- The time of the first trade of the array
  abbrev pub start : Array → Result D
  start a = and_then (row b (pos 0) a) first_number

  -- `>=` of doubles
  abbrev at_least : D → D → Bool
  at_least u v = d.lt v u || d.eq u v

  abbrev pub is_due : List D → Array → Result Bool
  is_due trade a =
      if ltb 0 a.count
      then and_then (first_number trade)
          (λ t. and_then (start a) λ t₀. ok (at_least (d.sub t t₀) (of_int (pos 1000))))
      else ok false

  abbrev products : List D → List D → List D
  products (x ∷ xs) (y ∷ ys) = d.mul x y ∷ products xs ys
  products _ _ = []

  -- The function that `applyFunction` is given, on the whole matrix
  abbrev average_of : b.Matrix → Result D
  average_of m = and_then (b.get_column m 1) λ prices. and_then (b.get_column m 2) λ quantities.
      if d.eq (sum quantities) d.nought
      then err runtime_error
      else ok (d.div (sum (products prices quantities)) (sum quantities))

  abbrev quantities_of : List (List D) → List D
  quantities_of lines = map (λ r. get_or r 2 d.nought) lines

  -- The row that sums the trades up; the side of a trade is 1 for a purchase, 0 for a sale.
  unfoldable pub generated : Array → Result (List D)
  generated a = and_then (start a) λ timestamp.
      and_then (DynamicArray.filter b near 3 d.one a) λ buys.
        and_then (DynamicArray.filter b near 3 d.nought a) λ sells.
          and_then (apply_function b average_of a) λ average. ok (
            timestamp
            ∷ average
            ∷ sum (quantities_of buys)
            ∷ sum (quantities_of sells)
            ∷ of_int (pos (length buys))
            ∷ of_int (pos (length sells))
            ∷ [])

  abbrev put : Text → State → Result (Unit {0}) × Array → Result (Unit {0}) × State
  put k s (r, a) = (r, record s { storage = insert k a s.storage })

  abbrev put_temp : Text → State → Result (Unit {0}) × Array → Result (Unit {0}) × State
  put_temp k s (r, a) = (r, record s { temp_storage = insert k a s.temp_storage })

  abbrev pub store : Text → List D → M State (Unit {0})
  store k line s = elim (lookup k s.storage) [
    | none ↦ (err out_of_range, s)
    | some a ↦ put k s (append b line a)
  ]

  -- The sum of the trades is stored, then the trades are flushed, then the new one is added.
  abbrev add_to : Text → List D → Array → M State (Unit {0})
  add_to k trade a s = put_temp k s (append b trade a)

  abbrev flushed : Text → List D → Array → Result (Unit {0}) × State → Result (Unit {0}) × State
  flushed k trade a (err e, s) = (err e, s)
  flushed k trade a (ok u, s) = add_to k trade (flush b a) s

  abbrev pub aggregated : Text → List D → Array → Result (List D) → M State (Unit {0})
  aggregated k trade a (err e) s = (err e, s)
  aggregated k trade a (ok line) s = flushed k trade a (store k line s)

  abbrev pub add_if : Text → List D → Array → Result Bool → M State (Unit {0})
  add_if k trade a (err e) s = (err e, s)
  add_if k trade a (ok true) s = aggregated k trade a (generated a) s
  add_if k trade a (ok false) s = add_to k trade a s

  unfoldable pub add_trade : List D → ExchangeName → Text → M State (Unit {0})
  unfolding generated
  add_trade trade name symbol s = elim (lookup (key name symbol) s.temp_storage) [
    | none ↦ (err out_of_range, s)
    | some a ↦ add_if (key name symbol) trade a (is_due trade a) s
  ]

  unfoldable pub get_trades : ExchangeName → Text → State → Result (List (List D))
  get_trades name symbol s =
      and_then (at (key name symbol) s.storage) λ a. rows b (pos 0) (pos a.count) a

  unfoldable pub get_current_trade : ExchangeName → Text → State → Result (List D)
  get_current_trade name symbol s = and_then (at (key name symbol) s.storage) (row b (negsuc 0))

  -- `-1 - std::abs(n)`
  abbrev past : ℤ → ℤ
  past (pos n) = negsuc n
  past (negsuc n) = negsuc (n + 1)

  abbrev too_far : ℤ → Bool
  too_far (pos n) = ltb 120 n
  too_far (negsuc n) = false

  unfoldable pub get_past_trade : ExchangeName → Text → ℤ → State → Result (List D)
  get_past_trade name symbol n s =
      if too_far n
      then err invalid_argument
      else and_then (at (key name symbol) s.storage) (row b (past n))

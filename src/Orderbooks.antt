-- ===== src/Orderbooks.antt =====
-- include/Orderbook.hpp, src/Orderbook.cpp and include/LimitOrderbook.hpp: the order books of the market.
-- A level is a price and a quantity. A `LimitOrderbook` holds `C_` = 2 arrays of `R_` = 50 numbers, and to
-- write outside of them is undefined behaviour, here the error `bad_access`. The functions of <cmath> are
-- the record `Rounding`; the clock is an argument.
pub mod Levels
use cipher_trader.Prelude.{
  ℕ, zero, suc, ◌+◌, ◌-◌, ◌==◌, ltb, leb, min, Bool, true, false, ◌||◌, ◌&&◌, not, Option, none,
  some, List, [], ◌∷◌, ◌++◌, length, get_elem?, set, replicate, if◌then◌else◌, Text, Result, ok,
  err, invalid_argument, bad_access, out_of_range, and_then, or_fail, M,
}
use cipher_trader.Prelude.Int.{ℤ, pos, negsuc, ◌-ℤ◌, ltb_ℤ}
use cipher_trader.Prelude.Dict.{Dict, insert, lookup, at, assign_at}
use cipher_trader.Double.{Double}
use cipher_trader.Blaze.{Blaze}
use cipher_trader.DynamicArray.{DynamicArray, append, construct, row}
use cipher_trader.Helper.Symbols.{make_key}
use cipher_trader.Enums.{ExchangeName}

-- `std::ceil`, `std::round`, `std::log10` and `std::pow(10, x)`, and the literal that is a power of ten
pub record Rounding (D : Type 0) : Type 0 where
  pub ceil : D → D
  pub round : D → D
  pub log10 : D → D
  pub pow10 : D → D
  pub literal : ℤ → D

abbrev pub Level : Type 0 → Type 0
Level D = D × D

-- The arrays of a `LimitOrderbook`
abbrev pub Book : Type 0 → Type 0
Book D = List (List D)

pub record TempOrderbookData (D : Type 0) : Type 0 where
  pub last_updated_timestamp : ℤ
  pub asks : List (Level D)
  pub bids : List (Level D)

pub record OrderbooksState (D Mat : Type 0) : Type 0 where
  pub storage : Dict (DynamicArray Mat)
  pub temp_storage : Dict (TempOrderbookData D)

module _ {D : Type 0} (d : Double D) (m : Rounding D) (nan : D) where
  -- The rounding to the precision of a unit below 1
  abbrev rounded : D → D → D
  rounded unit trimmed =
      let scale = m.pow10 (d.abs (m.log10 unit)) in
      if d.lt (m.log10 unit) d.nought then d.div (m.round (d.mul trimmed scale)) scale else trimmed

  -- `trim(price, ascending, unit)`
  unfoldable pub trim_price : Bool → D → D → Result D
  trim_price ascending unit price =
      let up = d.mul (m.ceil (d.div price unit)) unit in
      let high = rounded unit up in
      let low = rounded unit (d.sub up unit) in
      if d.lt unit d.nought || d.eq unit d.nought
      then err invalid_argument
      else if ascending
      then ok (if d.eq high (d.add price unit) then price else high)
      else ok (if d.eq low (d.sub price unit) then price else low)

  -- The unit of a book, by its first price
  abbrev pub unit_of : D → D
  unit_of price =
      if d.lt price (m.literal (negsuc 0))
      then m.literal (negsuc 4)
      else if d.lt price (m.literal (pos 0))
      then m.literal (negsuc 3)
      else if d.lt price (m.literal (pos 1))
      then m.literal (negsuc 2)
      else if d.lt price (m.literal (pos 2))
      then m.literal (negsuc 1)
      else if d.lt price (m.literal (pos 3))
      then m.literal (negsuc 0)
      else if d.lt price (m.literal (pos 4))
      then m.literal (pos 0)
      else m.literal (pos 1)

  -- A level lies beyond the trimmed price of the levels before it.
  abbrev pub beyond : Bool → D → D → Bool
  beyond ascending price trimmed =
      (ascending && d.lt trimmed price) || (not ascending && d.lt price trimmed)

  -- The loop over the levels, with the trimmed price and the quantity under way, and the levels made
  unfoldable pub walk :
      ℕ → Bool → D → List (Level D) → D → D → List (Level D) → Result (List (Level D))
  unfolding trim_price
  walk limit ascending unit [] trimmed qty made = ok made
  walk limit ascending unit ((p, q) ∷ levels) trimmed qty made =
      if length made == limit
      then ok made
      else if beyond ascending p trimmed
      then and_then (trim_price ascending unit p) (λ next.
        walk limit ascending unit levels next (d.add q q) (made ++ ((trimmed, qty) ∷ [])))
      else walk limit ascending unit levels trimmed (d.add qty q) made

  -- `trim(arr, ascending, limit_len)`
  unfoldable pub trim : ℕ → Bool → List (Level D) → Result (List (Level D))
  unfolding trim_price walk
  trim limit ascending [] = ok []
  trim limit ascending ((p, q) ∷ levels) =
      and_then (trim_price ascending (unit_of p) p)
        λ trimmed. walk limit ascending (unit_of p) ((p, q) ∷ levels) trimmed d.nought []

  -- `result[i][0] = …` and `result[i][1] = …`
  abbrev write_level : ℕ → Level D → Book D → Result (Book D)
  write_level i (p, q) book =
      and_then (or_fail (get_elem? book i) bad_access)
        λ line. ok (set book i (set (set line 0 p) 1 q))

  pub write_levels : ℕ → ℕ → List (Level D) → Book D → Result (Book D)
  write_levels zero i levels book = ok book
  write_levels (suc n) i [] book = ok book
  write_levels (suc n) i (level ∷ levels) book =
      and_then (write_level i level book) λ next. write_levels n (i + 1) levels next

  abbrev pub blank : Book D
  blank = replicate 2 (replicate 50 nan)

  unfoldable pub fix_len : List (Level D) → ℕ → Result (Book D)
  unfolding write_levels
  fix_len arr target_len = write_levels (min (length arr) target_len) 0 arr blank

  -- The asks and the bids, with a limit of 50 levels
  unfoldable pub format_orderbook : TempOrderbookData D → Result (List (Book D))
  unfolding trim fix_len
  format_orderbook t = and_then (trim 50 true t.asks) λ asks.
      and_then (trim 50 false t.bids) λ bids. and_then (fix_len asks 50) λ formatted_asks.
        and_then (fix_len bids 50) λ formatted_bids. ok (formatted_asks ∷ formatted_bids ∷ [])

  module _ (b : Blaze (Book D)) where
    abbrev pub State : Type 0
    State = OrderbooksState D b.Matrix

    abbrev pub key : ExchangeName → Text → Text
    key name symbol = make_key name symbol none

    abbrev assigned : State → Result (Dict (DynamicArray b.Matrix)) → Result (Unit {0}) × State
    assigned s (err e) = (err e, s)
    assigned s (ok a) = (ok tt, record s { storage = a })

    -- One route of `init`: an empty book, and 60 rows of 2 books that drop at 60
    abbrev init_route : b.Matrix → Text → M State (Unit {0})
    init_route empty k s =
        elim (assign_at k (record { last_updated_timestamp = pos 0; asks = []; bids = [] })
          s.temp_storage) [
            | err e ↦ (err e, s)
            | ok t ↦
                assigned (record s { temp_storage = t })
                  (assign_at k (construct b empty 60 2 (some 60)) s.storage)
          ]

    abbrev next_routes : M State (Unit {0}) → Result (Unit {0}) × State → Result (Unit {0}) × State
    next_routes rest (err e, s) = (err e, s)
    next_routes rest (ok u, s) = rest s

    pub init : b.Matrix → List (ExchangeName × Text) → M State (Unit {0})
    init empty [] s = (ok tt, s)
    init empty ((name, symbol) ∷ routes) s =
        next_routes (init empty routes) (init_route empty (key name symbol) s)

    abbrev put :
        Text → State → Result (Unit {0}) × DynamicArray b.Matrix → Result (Unit {0}) × State
    put k s (r, a) = (r, record s { storage = insert k a s.storage })

    abbrev pub store : Text → Result (List (Book D)) → M State (Unit {0})
    store k (err e) s = (err e, s)
    store k (ok books) s = elim (lookup k s.storage) [
      | none ↦ (err out_of_range, s)
      | some a ↦ put k s (append b books a)
    ]

    -- The first time, or at least a second after the last time
    abbrev pub is_due : ℤ → ℤ → Bool
    is_due now last =
        (not (ltb_ℤ last (pos 0)) && not (ltb_ℤ (pos 0) last))
        || not (ltb_ℤ (now -ℤ last) (pos 1000))

    abbrev with_temp : Text → TempOrderbookData D → State → State
    with_temp k t s = record s { temp_storage = insert k t s.temp_storage }

    abbrev pub given : List (Level D) → List (Level D) → TempOrderbookData D → TempOrderbookData D
    given asks bids t = record t { asks = asks; bids = bids }

    unfoldable pub add_orderbook :
        ℤ → ExchangeName → Text → List (Level D) → List (Level D) → M State (Unit {0})
    unfolding format_orderbook
    add_orderbook now name symbol asks bids s = elim (lookup (key name symbol) s.temp_storage) [
      | none ↦ (err out_of_range, s)
      | some t ↦
          let timed = record (given asks bids t) { last_updated_timestamp = now } in
          if is_due now t.last_updated_timestamp
          then store (key name symbol) (format_orderbook timed)
              (with_temp (key name symbol) timed s)
          else (ok tt, with_temp (key name symbol) (given asks bids t) s)
    ]

    unfoldable pub get_current_orderbook : ExchangeName → Text → State → Result (List (Book D))
    get_current_orderbook name symbol s =
        and_then (at (key name symbol) s.storage) (row b (negsuc 0))

    -- Element `i` of a pair of books
    abbrev side : ℕ → ExchangeName → Text → State → Result (Book D)
    side i name symbol s =
        and_then (get_current_orderbook name symbol s)
          λ books. or_fail (get_elem? books i) bad_access

    unfoldable pub get_current_asks : ExchangeName → Text → State → Result (Book D)
    get_current_asks = side 0

    unfoldable pub get_current_bids : ExchangeName → Text → State → Result (Book D)
    get_current_bids = side 1

    -- `book[i][0]`
    abbrev head_of : ℕ → Book D → Result D
    head_of i book =
        and_then (or_fail (get_elem? book i) bad_access)
          λ line. or_fail (get_elem? line 0) bad_access

    abbrev best : Book D → Result (D × D)
    best book = and_then (head_of 0 book) λ price. and_then (head_of 1 book) λ qty. ok (price, qty)

    unfoldable pub get_best_ask : ExchangeName → Text → State → Result (D × D)
    get_best_ask name symbol s = and_then (get_current_asks name symbol s) best

    unfoldable pub get_best_bid : ExchangeName → Text → State → Result (D × D)
    get_best_bid name symbol s = and_then (get_current_bids name symbol s) best

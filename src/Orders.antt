-- ===== src/Orders.antt =====
-- include/Order.hpp and src/Order.cpp: `OrdersState`, the book of all orders. Orders are shared: the
-- lists hold references into a heap, so that a change of an order is seen through every list. A
-- reference is an index of the heap; it comes from `make_shared` and is never null.
-- Configuration, clock and positions are arguments.
pub mod Execution
pub mod Filing
pub mod Inclusion
pub mod Live
pub mod Steps
pub mod Views
use cipher_trader.Prelude.{
  ℕ, suc, ◌+◌, Bool, true, false, ◌&&◌, not, Option, none, some, List, [], ◌∷◌, ◌++◌, reverse,
  if◌then◌else◌, length, get_elem?, set, keep_if, count_if, find_if, String, Text, codes, text_eq,
  Result, ok, err, and_then,
}
use cipher_trader.Prelude.Dict.{Dict, lookup, insert, value_or}
use cipher_trader.Helper.Symbols.{make_key}
use cipher_trader.Helper.Sides.{position_type_to_order_side}
use cipher_trader.Enums.{
  ExchangeName, OrderSide, PositionType, buy, sell, long, short, close, exchange_name_to_string,
  to_exchange_name,
}
use cipher_trader.Order.{Order, is_active, is_canceled, is_executed, execute}

pub record OrdersState (D : Type 0) : Type 0 where
  pub heap : List (Order D)
  pub storage : Dict (List ℕ)
  pub active_storage : Dict (List ℕ)
  pub to_execute : List ℕ

abbrev pub same_side : OrderSide → OrderSide → Bool
same_side buy buy = true
same_side sell sell = true
same_side _ _ = false

-- Names are compared by their texts, which are all different.
abbrev pub same_exchange : ExchangeName → ExchangeName → Bool
same_exchange a b = text_eq (codes (exchange_name_to_string a)) (codes (exchange_name_to_string b))

abbrev starts_with : Text → Text → Bool
starts_with [] s = true
starts_with (a ∷ p) [] = false
starts_with (a ∷ p) (b ∷ s) = text_eq (a ∷ []) (b ∷ []) && starts_with p s

-- `s.find(p) != std::string::npos`
abbrev pub contains : Text → Text → Bool
contains p [] = starts_with p []
contains p (b ∷ s) = if starts_with p (b ∷ s) then true else contains p s

-- The lists of `storage_[key]`, where a missing key counts as the empty list
abbrev pub at_key : Text → Dict (List ℕ) → List ℕ
at_key key m = value_or key [] m

-- Every list of a map is cleared.
abbrev pub clear_all : Dict (List ℕ) → Dict (List ℕ)
clear_all [] = []
clear_all ((k, _) ∷ m) = (k, []) ∷ clear_all m

-- `m[key].clear()` for the keys of another map
abbrev pub clear_keys : Dict (List ℕ) → Dict (List ℕ) → Dict (List ℕ)
clear_keys [] m = m
clear_keys ((k, _) ∷ keys) m = clear_keys keys (insert k [] m)

-- The references of all lists, in the order of the keys
abbrev pub all_refs : Dict (List ℕ) → List ℕ
all_refs [] = []
all_refs ((_, rs) ∷ m) = rs ++ all_refs m

abbrev add_symbols : ExchangeName → List Text → Dict (List ℕ) → Dict (List ℕ)
add_symbols name [] m = m
add_symbols name (symbol ∷ symbols) m =
    add_symbols name symbols (insert (make_key name symbol none) [] m)

pub add_exchanges : List String → List Text → Dict (List ℕ) → Result (Dict (List ℕ))
add_exchanges [] symbols m = ok m
add_exchanges (name ∷ names) symbols m =
    and_then (to_exchange_name name) λ n. add_exchanges names symbols (add_symbols n symbols m)

module _ {D : Type 0} where
  -- The constructor, for the configured exchanges and symbols
  unfoldable pub initial : List String → List Text → Result (OrdersState D)
  unfolding add_exchanges
  initial names symbols =
      and_then (add_exchanges names symbols [])
        λ m. ok (record { heap = []; storage = m; active_storage = m; to_execute = [] })

  -- A test of the order that a reference leads to
  abbrev pub test : (Order D → Bool) → List (Order D) → ℕ → Bool
  test p heap r = elim (get_elem? heap r) [ none ↦ false | some o ↦ p o ]

  abbrev pub key_of : Order D → Text
  key_of o = make_key o.exchange_name o.symbol none

  -- `std::make_shared<Order>(…)`
  unfoldable pub allocate : Order D → OrdersState D → ℕ × OrdersState D
  allocate o s = (length s.heap, record s { heap = s.heap ++ (o ∷ []) })

  unfoldable pub reset : OrdersState D → OrdersState D
  reset s = record s {
    storage = clear_all s.storage;
    active_storage = clear_keys s.storage s.active_storage;
  }

  unfoldable pub reset_trade_orders : ExchangeName → Text → OrdersState D → OrdersState D
  reset_trade_orders name symbol s =
      let key = make_key name symbol none in
      record s {
        storage = insert key [] s.storage;
        active_storage = insert key [] s.active_storage;
      }

  abbrev pub add_at : Text → ℕ → OrdersState D → OrdersState D
  add_at key r s = record s {
    storage = insert key (at_key key s.storage ++ (r ∷ [])) s.storage;
    active_storage = insert key (at_key key s.active_storage ++ (r ∷ [])) s.active_storage;
  }

  -- Without an order there is no call.
  unfoldable pub add_order : ℕ → OrdersState D → OrdersState D
  add_order r s = elim (get_elem? s.heap r) [ none ↦ s | some o ↦ add_at (key_of o) r s ]

  unfoldable pub add_order_to_execute : ℕ → OrdersState D → OrdersState D
  add_order_to_execute r s = record s { to_execute = s.to_execute ++ (r ∷ []) }

  -- `std::remove_if` of the orders with the same identifier
  abbrev pub without_id : Text → List (Order D) → List ℕ → List ℕ
  without_id id heap = keep_if λ r. not (test (λ o. text_eq o.id id) heap r)

  abbrev pub remove_at_key : Text → Text → OrdersState D → OrdersState D
  remove_at_key key id s = record s {
    storage = insert key (without_id id s.heap (at_key key s.storage)) s.storage;
    active_storage =
        insert key (without_id id s.heap (at_key key s.active_storage)) s.active_storage;
  }

  unfoldable pub remove_order : ℕ → OrdersState D → OrdersState D
  remove_order r s = elim (get_elem? s.heap r) [
    | none ↦ s
    | some o ↦ remove_at_key (key_of o) o.id s
  ]

  -- `f(*r)`, for a change `f` of an order
  abbrev pub update : ℕ → (Order D → Order D) → List (Order D) → List (Order D)
  update r f heap = elim (get_elem? heap r) [ none ↦ heap | some o ↦ set heap r (f o) ]

  -- The loop over the orders; `clock i` is the time that the `i`-th call reads.
  pub execute_all : (ℕ → ℕ) → ℕ → List ℕ → List (Order D) → List (Order D)
  execute_all clock i [] heap = heap
  execute_all clock i (r ∷ rs) heap =
      execute_all clock (suc i) rs (update r (execute (clock i)) heap)

  unfoldable pub execute_pending_market_orders : (ℕ → ℕ) → OrdersState D → OrdersState D
  unfolding execute_all
  execute_pending_market_orders clock s = elim s.to_execute [
    | [] ↦ s
    | r ∷ rs ↦ record s { heap = execute_all clock 0 (r ∷ rs) s.heap; to_execute = [] }
  ]

  unfoldable pub get_orders : ExchangeName → Text → OrdersState D → List ℕ
  get_orders name symbol s = at_key (make_key name symbol none) s.storage

  unfoldable pub get_active_orders : ExchangeName → Text → OrdersState D → List ℕ
  get_active_orders name symbol s = at_key (make_key name symbol none) s.active_storage

  -- The overload without a symbol
  unfoldable pub get_orders_of : ExchangeName → OrdersState D → List ℕ
  get_orders_of name s =
      keep_if (test (λ o. same_exchange o.exchange_name name) s.heap) (all_refs s.storage)

  unfoldable pub count_all_active_orders : OrdersState D → ℕ
  unfolding is_active
  count_all_active_orders s = count_if (test is_active s.heap) (all_refs s.active_storage)

  unfoldable pub count_active_orders : ExchangeName → Text → OrdersState D → ℕ
  unfolding get_active_orders is_active
  count_active_orders name symbol s =
      count_if (test is_active s.heap) (get_active_orders name symbol s)

  unfoldable pub count_orders : ExchangeName → Text → OrdersState D → ℕ
  unfolding get_orders
  count_orders name symbol s = length (get_orders name symbol s)

  abbrev has_exchange_id : Text → Order D → Bool
  has_exchange_id id o = elim o.exchange_id [ none ↦ false | some i ↦ text_eq i id ]

  -- No answer stands for the empty order that the code makes.
  unfoldable pub get_order_by_id : ExchangeName → Text → Text → Bool → OrdersState D → Option ℕ
  unfolding get_orders
  get_order_by_id name symbol id use_exchange_id s =
      let orders = get_orders name symbol s in
      if use_exchange_id then find_if (test (has_exchange_id id) s.heap) orders else elim id [
        | [] ↦ none
        | c ∷ cs ↦ find_if (test (λ o. contains (c ∷ cs) o.id) s.heap) (reverse orders)
      ]

  abbrev pub enters : OrderSide → Order D → Bool
  enters side o = same_side o.order_side side && not (is_canceled o)

  abbrev pub exits : OrderSide → Order D → Bool
  exits side o = not (same_side o.order_side side) && not (is_canceled o)

  -- A position is given by the answers of `isClose()` and of `getPositionType()`.
  unfoldable pub get_entry_orders :
      ExchangeName → Text → Option (Bool × PositionType) → OrdersState D → Result (List ℕ)
  unfolding get_orders get_active_orders
  get_entry_orders name symbol position s = elim position [
    | none ↦ ok []
    | some (is_close, p) ↦
        if is_close
        then ok (get_orders name symbol s)
        else and_then (position_type_to_order_side p)
            λ side. ok (keep_if (test (enters side) s.heap) (get_active_orders name symbol s))
  ]

  abbrev exit_orders : List ℕ → Option (Bool × PositionType) → OrdersState D → Result (List ℕ)
  exit_orders [] position s = ok []
  exit_orders (r ∷ rs) none s = ok []
  exit_orders (r ∷ rs) (some (is_close, p)) s =
      if is_close
      then ok []
      else and_then (position_type_to_order_side p)
          λ side. ok (keep_if (test (exits side) s.heap) (r ∷ rs))

  unfoldable pub get_exit_orders :
      ExchangeName → Text → Option (Bool × PositionType) → OrdersState D → Result (List ℕ)
  unfolding get_orders
  get_exit_orders name symbol position s = exit_orders (get_orders name symbol s) position s

  unfoldable pub get_active_exit_orders :
      ExchangeName → Text → Option (Bool × PositionType) → OrdersState D → Result (List ℕ)
  unfolding get_active_orders
  get_active_exit_orders name symbol position s =
      exit_orders (get_active_orders name symbol s) position s

  abbrev pub unfinished : Order D → Bool
  unfinished o = not (is_canceled o) && not (is_executed o)

  unfoldable pub update_active_orders : ExchangeName → Text → OrdersState D → OrdersState D
  unfolding get_active_orders
  update_active_orders name symbol s =
      let result = keep_if (test unfinished s.heap) (get_active_orders name symbol s) in
      record s { active_storage = insert (make_key name symbol none) result s.active_storage }

  -- Only `storage_` is cleared.
  unfoldable pub clear_orders : ExchangeName → Text → OrdersState D → OrdersState D
  clear_orders name symbol s = record s {
    storage = insert (make_key name symbol none) [] s.storage;
  }

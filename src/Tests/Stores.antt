-- ===== src/Tests/Stores.antt =====
-- The theorems on the stores of tickers and trades, at stores of one symbol.
use cipher_trader.Prelude.{
  ℕ, ◌≡◌, refl, false, none, some, List, [], ◌∷◌, ◌++◌, Text, codes, ok, arith,
}
use cipher_trader.Prelude.Dict.{lookup}
use cipher_trader.Prelude.Int.{ℤ, pos, negsuc}
use cipher_trader.Blaze.{Blaze, IsBlaze}
use cipher_trader.DynamicArray.{DynamicArray, construct}
use cipher_trader.DynamicArray.View.{view}
use cipher_trader.Double.Scaled.{Scaled, whole, scaled}
use cipher_trader.Helper.Symbols.{make_key}
use cipher_trader.Enums.{sell, limit, executed, sandbox, exchange_name_to_string}
use cipher_trader.Order.{Order, is_partially_filled}
use cipher_trader.Tickers.{Storage}
use cipher_trader.ClosedTrades.{Trade, construct_trade}
use cipher_trader.ClosedTrades.Recording.{State, key, add_executed_order}
use cipher_trader.ClosedTrades.Counting.{of_side, Pairs, full_order_counts_twice}
use cipher_trader.Tests.Grid.{Grid, grid_of, grid_of-IsBlaze}
use cipher_trader.Tests.Positions.{casts}

abbrev pub table : Blaze Scaled
table = grid_of (whole (pos 0)) λ u v. scaled.eq u v

unfoldable pub table-IsBlaze : IsBlaze table
unfolding grid_of-IsBlaze
table-IsBlaze = grid_of-IsBlaze (whole (pos 0)) λ u v. scaled.eq u v

abbrev pub of_int : ℤ → Scaled
of_int = whole

abbrev symbol : Text
symbol = codes "BTC-USDT"

abbrev ticker : ℕ → List Scaled
ticker t = whole (pos t) ∷ whole (pos 7) ∷ whole (pos 8) ∷ whole (pos 1) ∷ whole (pos 2) ∷ []

-- One ticker, in a matrix of two rows
abbrev tickers : DynamicArray (Grid Scaled)
tickers = record {
  count = 1;
  contents = record { wide = 5; lines = ticker 3000 ∷ ticker 0 ∷ [] };
  bucket_size = 2;
  width = 5;
  drop_at = some 120;
}

abbrev store : Storage scaled table of_int
store = (codes "Sandbox-BTC-USDT", tickers) ∷ []

abbrev nan : Scaled
nan = none

abbrev empty : Grid Scaled
empty = record { wide = 0; lines = [] }

abbrev trade : Trade scaled scaled casts table nan
trade = construct_trade scaled scaled casts table nan empty (codes "1")

abbrev trades : State scaled scaled casts table nan empty
trades = record { trades = []; temp_trades = (codes "Sandbox-BTC-USDT", trade) ∷ [] }

abbrev sale : Order Scaled
sale = record {
  id = codes "1";
  trade_id = none;
  session_id = [];
  exchange_id = none;
  symbol = symbol;
  exchange_name = sandbox;
  order_side = sell;
  order_type = limit;
  reduce_only = false;
  qty = whole (negsuc 1);
  filled_qty = whole (pos 0);
  price = some (whole (pos 7));
  status = executed;
  created_at = 5;
  executed_at = some 6;
  canceled_at = none;
  submitted_via = none;
}

trades-lookup :
    lookup (key scaled scaled casts table nan empty sandbox symbol) trades.temp_trades ≡ some trade
unfolding lookup make_key exchange_name_to_string
trades-lookup = refl

trade-Pairs :
    Pairs scaled scaled casts table table-IsBlaze nan empty
      (of_side scaled scaled casts table table-IsBlaze nan empty sell trade)
unfolding table-IsBlaze grid_of-IsBlaze construct_trade construct
trade-Pairs = record {
  inv = record { fits = omega arith; wide = refl; bucket = omega arith };
  two = refl;
  room = omega arith;
  all = refl;
}

sale-full : is_partially_filled sale ≡ false
unfolding is_partially_filled
sale-full = refl

full_order_counts_twice_example :
    (s : State scaled scaled casts table nan empty) × (t : Trade scaled scaled casts table nan)
    × (add_executed_order scaled scaled casts table nan empty (codes "2") (codes "3") sale trades
        ≡ (ok tt, s))
    × (lookup (key scaled scaled casts table nan empty sandbox symbol) s.temp_trades ≡ some t)
    × (view table table-IsBlaze (of_side scaled scaled casts table table-IsBlaze nan empty sell t)
        ≡ (view table table-IsBlaze
              (of_side scaled scaled casts table table-IsBlaze nan empty sell trade)
            ++ (whole (negsuc 1) ∷ whole (pos 7) ∷ []) ∷ [])
          ++ (scaled.abs (whole (negsuc 1)) ∷ whole (pos 7) ∷ []) ∷ [])
full_order_counts_twice_example =
    full_order_counts_twice scaled scaled casts table table-IsBlaze nan empty (codes "2")
      (codes "3") sale trades trade trades-lookup trade-Pairs sale-full

-- ===== src/Tests/Helpers.antt =====
-- The theorems on the helper functions, at concrete lists and symbols.
use cipher_trader.Prelude.{
  ℕ, ◌≡◌, ◌≢◌, refl, Bool, true, false, none, some, List, [], ◌∷◌, get_elem?, ltb, ◌==◌, codes, ok,
  arith, ◌⊎◌,
}
use cipher_trader.Prelude.Int.{pos}
use cipher_trader.Double.Scaled.{Scaled, whole, scaled}
use cipher_trader.Helper.Search.{Ordering, IsTotal, Sorted, binary_search, binary_search_correct}
use cipher_trader.Helper.Dashes.{
  dashless_symbol, dashy_symbol, configured, split_quote, ends_with, dashless-dashy,
}
use cipher_trader.Helper.Fill.{LastValid, NoneUpTo, fill_line, filled_entries}
use cipher_trader.Helper.Levels.{Fits, find_orderbook_insertion_index, insertion_index-Fits}
use cipher_trader.Helper.Symbols.{get_quote_asset, get_base_asset, assets_of_pair}

abbrev numbers : Ordering ℕ
numbers = record { lt = ltb; eq = ◌==◌ }

numbers-IsTotal : IsTotal numbers
numbers-IsTotal = record {
  eq_sound = λ x y h. ground (arith, h);
  eq_refl = λ x. ground arith;
  lt_irrefl = λ x. ground arith;
  lt_trans = λ x y z h k. ground (arith, h, k);
  lt_total = λ x y h k. ground (arith, h, k);
}

abbrev sorted_list : List ℕ
sorted_list = 2 ∷ 5 ∷ 9 ∷ []

sorted_list-Sorted : Sorted numbers sorted_list
sorted_list-Sorted i j x y l g h = ground (arith, l, g, h)

binary_search_correct_example :
    ((i : ℕ) × (binary_search numbers sorted_list 9 ≡ some (ok (some i)))
      × (get_elem? sorted_list i ≡ some 9))
    ⊎ ((binary_search numbers sorted_list 9 ≡ some (ok none))
        × ((k : ℕ) → get_elem? sorted_list k ≢ some 9))
binary_search_correct_example =
    binary_search_correct numbers numbers-IsTotal sorted_list 9 sorted_list-Sorted

assets_of_pair_example :
    (get_base_asset (codes "ETH-BTC") ≡ codes "ETH")
    × (get_quote_asset (codes "ETH-BTC") ≡ ok (codes "BTC"))
    × (get_base_asset (codes "ETH/BTC") ≡ codes "ETH")
    × (get_quote_asset (codes "ETH/BTC") ≡ ok (codes "BTC"))
assets_of_pair_example = assets_of_pair (codes "ETH") (codes "BTC") refl refl refl

abbrev prices : List Scaled
prices = whole (pos 2) ∷ whole (pos 5) ∷ whole (pos 9) ∷ []

-- Whole numbers differ by less than the unit only if they are equal.
insertion_index-Fits_example :
    (found : Bool) × (i : ℕ) × (find_orderbook_insertion_index scaled
        (whole (pos 1))
        prices
        (whole (pos 7))
        true
      ≡ some (found, i))
    × Fits scaled (whole (pos 1)) prices (whole (pos 7)) true found i
insertion_index-Fits_example =
    insertion_index-Fits scaled (whole (pos 1)) prices (whole (pos 7)) true

abbrev missing : Scaled → Bool
missing none = true
missing (some x) = false

abbrev gaps : List Scaled
gaps = none ∷ whole (pos 3) ∷ none ∷ []

filled_entries_example :
    ((j : ℕ) × LastValid missing gaps 2 (whole (pos 3)) j)
    ⊎ ((get_elem? gaps 2 ≡ some (whole (pos 3))) × NoneUpTo missing gaps 2)
unfolding fill_line
filled_entries_example = filled_entries missing gaps (whole (pos 0)) 2 (whole (pos 3)) refl

usual_quote : dashy_symbol [] (codes "BTCUSDT") ≡ codes "BTC-USDT"
unfolding dashy_symbol configured split_quote ends_with
usual_quote = refl

-- The case of SUSDT is not reached, since USDT is asked for before.
susdt_not_split_off : dashy_symbol [] (codes "ETHXSUSDT") ≡ codes "ETHXS-USDT"
unfolding dashy_symbol configured split_quote ends_with
susdt_not_split_off = refl

known_symbol :
    dashy_symbol (codes "ETH-BTC" ∷ codes "XRPB-TC" ∷ []) (codes "XRPBTC") ≡ codes "XRPB-TC"
unfolding dashy_symbol configured dashless_symbol
known_symbol = refl

dashless-dashy_example :
    dashless_symbol (dashy_symbol (codes "ETH-BTC" ∷ []) (codes "BTCUSDT"))
    ≡ dashless_symbol (codes "BTCUSDT")
dashless-dashy_example = dashless-dashy (codes "ETH-BTC" ∷ []) (codes "BTCUSDT")

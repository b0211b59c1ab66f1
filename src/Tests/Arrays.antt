-- ===== src/Tests/Arrays.antt =====
-- The theorems on the array, at an array of two rows of two numbers.
use cipher_trader.Prelude.{
  ℕ, ◌≡◌, refl, none, some, List, [], ◌∷◌, ◌++◌, length, ok, err, out_of_range, or_fail, arith, ◌⊎◌,
}
use cipher_trader.Prelude.Int.{pos, negsuc}
use cipher_trader.Prelude.Splices.{without}
use cipher_trader.DynamicArray.{
  DynamicArray, append, delete_row, fit, resolve, row, get_last_item, get_past_item, rows,
  slice_start, slice_stop,
}
use cipher_trader.DynamicArray.View.{view, Inv}
use cipher_trader.DynamicArray.Append.{kept, view-append}
use cipher_trader.DynamicArray.Delete.{view-delete_row}
use cipher_trader.DynamicArray.Read.{at_index, before_last, slice, reads_agree}
use cipher_trader.Tests.Grid.{Grid, grid, grid-IsBlaze}

abbrev two_rows : DynamicArray (Grid ℕ)
two_rows = record {
  count = 2;
  contents = record { wide = 2; lines = (1 ∷ 2 ∷ []) ∷ (3 ∷ 4 ∷ []) ∷ [] };
  bucket_size = 2;
  width = 2;
  drop_at = some 3;
}

two_rows-Inv : Inv grid grid-IsBlaze two_rows
unfolding grid-IsBlaze
two_rows-Inv = record { fits = omega arith; wide = refl; bucket = omega arith }

-- The third row makes the array drop the older half of three rows.
view-append_example :
    (a : DynamicArray (Grid ℕ)) × (append grid (5 ∷ 6 ∷ []) two_rows ≡ (ok tt, a))
    × (view grid grid-IsBlaze a
        ≡ kept (some 3) (view grid grid-IsBlaze two_rows ++ (fit grid 2 (5 ∷ 6 ∷ []) ∷ [])))
    × Inv grid grid-IsBlaze a
    × (a.width ≡ 2)
    × (a.bucket_size ≡ 2)
    × (a.drop_at ≡ some 3)
view-append_example =
    view-append grid grid-IsBlaze two_rows (5 ∷ 6 ∷ []) two_rows-Inv (omega arith)
      (λ e. ground (arith, e))

view-delete_row_example :
    ((i : ℕ) × (a : DynamicArray (Grid ℕ)) × (resolve 2 (negsuc 0) ≡ some i)
      × (delete_row grid (negsuc 0) two_rows ≡ (ok tt, a))
      × (view grid grid-IsBlaze a ≡ without i (view grid grid-IsBlaze two_rows))
      × Inv grid grid-IsBlaze a
      × (a.width ≡ 2)
      × (a.bucket_size ≡ 2)
      × (a.drop_at ≡ some 3))
    ⊎ ((resolve 2 (negsuc 0) ≡ none)
        × (delete_row grid (negsuc 0) two_rows ≡ (err out_of_range, two_rows)))
view-delete_row_example = view-delete_row grid grid-IsBlaze two_rows (negsuc 0) two_rows-Inv

abbrev seen : List (List ℕ)
seen = view grid grid-IsBlaze two_rows

reads_agree_example :
    (row grid (negsuc 1) two_rows
      ≡ or_fail (at_index grid grid-IsBlaze seen (resolve (length seen) (negsuc 1))) out_of_range)
    × (get_last_item grid two_rows
        ≡ or_fail
            (at_index grid grid-IsBlaze seen (before_last grid grid-IsBlaze (length seen) 0))
            out_of_range)
    × (get_past_item grid 1 two_rows
        ≡ or_fail
            (at_index grid grid-IsBlaze seen (before_last grid grid-IsBlaze (length seen) 1))
            out_of_range)
    × (rows grid (pos 1) (pos 0) two_rows
        ≡ slice grid grid-IsBlaze
            (slice_start (length seen) (pos 1))
            (slice_stop (length seen) (pos 0))
            seen)
reads_agree_example =
    reads_agree grid grid-IsBlaze two_rows (negsuc 1) (pos 1) (pos 0) 1 two_rows-Inv

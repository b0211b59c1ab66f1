-- ===== src/DynamicArray.antt =====
-- include/DynamicArray.hpp and src/DynamicArray.cpp: `DynamicBlazeArray`, a matrix that grows by
-- rows and can drop its oldest rows. `count` stands for `index_ + 1`; the code's `int` indices and
-- sizes are taken to be in range. The matrix library is a parameter.
pub mod View
pub mod Delete
pub mod Append
pub mod Read
pub mod Multiple
pub mod Rolling
pub mod Assign
pub mod Flush
use cipher_trader.Prelude.{
  ℕ, zero, suc, ◌+◌, ◌-◌, ◌*◌, ◌/◌, ◌%◌, ◌^◌, min, max, Bool, true, false, ◌&&◌, Option, none, some,
  List, [], ◌∷◌, ◌++◌, ltb, leb, ◌==◌, if◌then◌else◌, length, get_elem?, take, replicate, Result,
  ok, err, Error, out_of_range, invalid_argument, runtime_error, division_by_zero, M, ◌>>◌,
  and_then,
}
use cipher_trader.Prelude.Int.{ℤ, pos, negsuc}
use cipher_trader.Blaze.{Blaze}

pub record DynamicArray (Mat : Type 0) : Type 0 where
  pub count : ℕ
  pub contents : Mat
  pub bucket_size : ℕ
  pub width : ℕ
  pub drop_at : Option ℕ

-- `i < 0` counts from the end; the answer is an index below `count`, or there is none.
abbrev pub resolve : ℕ → ℤ → Option ℕ
resolve count (pos i) = if ltb i count then some i else none
resolve count (negsuc k) = if leb (suc k) count then some (count - suc k) else none

-- `-static_cast<int>(n)`
abbrev pub negate : ℕ → ℤ
negate zero = pos 0
negate (suc k) = negsuc k

-- The bounds of a slice, with negative indices counted from the end and both clamped
abbrev pub slice_start : ℕ → ℤ → ℕ
slice_start count (pos i) = i
slice_start count (negsuc k) = count - suc k

abbrev pub slice_stop : ℕ → ℤ → ℕ
slice_stop count (pos zero) = count
slice_stop count (pos (suc i)) = min (suc i) count
slice_stop count (negsuc k) = count - suc k

module _ {T : Type 0} (b : Blaze T) where
  open b use {
    Matrix, nought, same, matrix, reset, row_count, columns, get_row, get_column, set_row,
    copy_rows, copy_block, submatrix,
  }

  abbrev pub zero_row : ℕ → List T
  zero_row n = replicate n nought

  -- `DynamicBlazeArray(shape, drop_at)`, on a default matrix
  unfoldable pub construct : Matrix → ℕ → ℕ → Option ℕ → DynamicArray Matrix
  construct empty rows cols drop_at = record {
    count = 0;
    contents = reset (b.resize empty rows cols);
    bucket_size = rows;
    width = cols;
    drop_at = drop_at;
  }

  unfoldable pub size : DynamicArray Matrix → ℕ
  size a = a.count

  abbrev store : DynamicArray Matrix → Result Matrix → Result (Unit {0}) × DynamicArray Matrix
  store a (ok m) = (ok tt, record a { contents = m })
  store a (err e) = (err e, a)

  pub resize : ℕ → M (DynamicArray Matrix) (Unit {0})
  resize new_rows a =
      let new_data = reset (matrix new_rows a.width) in
      if ltb 0 a.count
      then store a (copy_rows new_data 0 a.contents 0 a.count)
      else (ok tt, record a { contents = new_data })

  pub shrink_to_fit : ℕ → M (DynamicArray Matrix) (Unit {0})
  shrink_to_fit new_size a =
      if ltb new_size a.count
      then (err invalid_argument, a)
      else if ltb new_size (row_count a.contents)
      then store a (copy_rows (matrix new_size a.width) 0 a.contents 0 a.count)
      else (ok tt, a)

  -- `for (i = from; i < from + n && i < rows; ++i) row(data_, i) = T{}`
  pub clear_rows : ℕ → ℕ → ℕ → Matrix → Result Matrix
  clear_rows zero i width m = ok m
  clear_rows (suc n) i width m =
      let rest = and_then (set_row m i (zero_row width)) (clear_rows n (i + 1) width) in
      if ltb i (row_count m) then rest else ok m

  -- `shiftMatrix(-abs_n)` for a positive `abs_n`
  pub shift_left : ℕ → M (DynamicArray Matrix) (Unit {0})
  unfolding clear_rows
  shift_left abs_n a =
      let shorter = record a { count = a.count - abs_n } in
      if leb a.count abs_n
      then (ok tt, record a { count = 0; contents = reset a.contents })
      else store shorter (
          and_then (copy_rows a.contents 0 a.contents abs_n shorter.count)
            (clear_rows abs_n shorter.count a.width))

  pub shift_matrix : ℤ → M (DynamicArray Matrix) (Unit {0})
  unfolding shift_left
  shift_matrix (pos zero) a = (ok tt, a)
  shift_matrix (pos (suc n)) a = (err runtime_error, a)
  shift_matrix (negsuc k) a = shift_left (suc k) a

  -- The periodic drop at the end of `append` and `appendMultiple`
  pub drop_old : Option ℕ → M (DynamicArray Matrix) (Unit {0})
  unfolding shift_matrix
  drop_old none a = (ok tt, a)
  drop_old (some d) a =
      if d == 0
      then (err division_by_zero, a)
      else if a.count % d == 0
      then shift_matrix (negate (d / 2)) a
      else (ok tt, a)

  -- The growth by half, `std::max({1, bucket_size_, size_t(rows * 1.5)})`
  pub grow : M (DynamicArray Matrix) (Unit {0})
  unfolding resize
  grow a =
      if leb (row_count a.contents) a.count
      then resize (max 1 (max a.bucket_size (row_count a.contents * 3 / 2))) a
      else (ok tt, a)

  -- The item cut to the width, or filled up with zeros
  abbrev pub fit : ℕ → List T → List T
  fit width item = take width item ++ replicate (width - length item) nought

  -- `++index_` and the assignment to the new last row
  pub push : List T → M (DynamicArray Matrix) (Unit {0})
  push item a =
      store (record a { count = a.count + 1 }) (set_row a.contents a.count (fit a.width item))

  unfoldable pub append : List T → M (DynamicArray Matrix) (Unit {0})
  unfolding grow push drop_old
  append item a = (grow >> push item >> drop_old a.drop_at) a

  -- The growth of `appendMultiple`, before the rows are copied
  pub grow_for : ℕ → M (DynamicArray Matrix) (Unit {0})
  unfolding resize
  grow_for num_items a =
      let rows = row_count a.contents in
      if ltb (a.count + num_items) (rows + 1)
      then (ok tt, a)
      else resize (max (a.count + num_items) (rows * 3 / 2)) a

  pub push_rows : Matrix → M (DynamicArray Matrix) (Unit {0})
  push_rows items a =
      let n = row_count items in
      let copied =
        copy_block a.contents a.count items n (min (columns items) (columns a.contents)) in
      elim copied [
        | err e ↦ (err e, a)
        | ok m ↦ (ok tt, record a { contents = m; count = a.count + n })
      ]

  unfoldable pub append_multiple : Matrix → M (DynamicArray Matrix) (Unit {0})
  unfolding grow_for push_rows drop_old
  append_multiple items a =
      if row_count items == 0
      then (ok tt, a)
      else (grow_for (row_count items) >> push_rows items >> drop_old a.drop_at) a

  unfoldable pub flush : DynamicArray Matrix → DynamicArray Matrix
  flush a = record a {
    count = 0;
    contents = reset (
        if ltb (2 * a.bucket_size) (row_count a.contents)
        then b.resize a.contents a.bucket_size a.width
        else a.contents);
  }

  -- The move up of the rows behind `idx`, and the clearing of the last row
  pub close_gap : ℕ → DynamicArray Matrix → Result Matrix
  close_gap idx a =
      and_then
        (if ltb (suc idx) a.count
          then copy_rows a.contents idx a.contents (idx + 1) (a.count - 1 - idx)
          else ok a.contents)
        (λ m. set_row m (a.count - 1) (zero_row (columns m)))

  -- The shrinking at the end of `deleteRow`
  pub shrink : M (DynamicArray Matrix) (Unit {0})
  shrink a =
      let rows = row_count a.contents in
      let new_size = max a.bucket_size (rows / 2) in
      if ltb a.bucket_size rows && ltb a.count (rows / 4)
      then (if ltb new_size rows then shrink_to_fit new_size a else (ok tt, a))
      else (ok tt, a)

  abbrev removed : DynamicArray Matrix → Result Matrix → Result (Unit {0}) × DynamicArray Matrix
  removed a (ok m) = (ok tt, record a { contents = m; count = a.count - 1 })
  removed a (err e) = (err e, a)

  pub remove_at : ℕ → M (DynamicArray Matrix) (Unit {0})
  remove_at i a = removed a (close_gap i a)

  unfoldable pub delete_row : ℤ → M (DynamicArray Matrix) (Unit {0})
  delete_row idx a = if a.count == 0 then (err out_of_range, a) else elim (resolve a.count idx) [
    | none ↦ (err out_of_range, a)
    | some i ↦ (remove_at i >> shrink) a
  ]

  -- `operator[]` and `row`
  unfoldable pub row : ℤ → DynamicArray Matrix → Result (List T)
  row i a =
      if a.count == 0
      then err out_of_range
      else elim (resolve a.count i) [ none ↦ err out_of_range | some k ↦ get_row a.contents k ]

  -- `row(i) = v`
  unfoldable pub assign_row : ℤ → List T → M (DynamicArray Matrix) (Unit {0})
  assign_row i v a = if a.count == 0 then (err out_of_range, a) else elim (resolve a.count i) [
    | none ↦ (err out_of_range, a)
    | some k ↦ store a (set_row a.contents k v)
  ]

  unfoldable pub get_last_item : DynamicArray Matrix → Result (List T)
  get_last_item a = if a.count == 0 then err out_of_range else get_row a.contents (a.count - 1)

  unfoldable pub get_past_item : ℕ → DynamicArray Matrix → Result (List T)
  get_past_item past a =
      if a.count == 0
      then err out_of_range
      else if leb a.count past
      then err out_of_range
      else get_row a.contents (a.count - 1 - past)

  -- `operator()` and `rows`
  unfoldable pub rows : ℤ → ℤ → DynamicArray Matrix → Result (List (List T))
  rows start stop a =
      let from = slice_start a.count start in
      let to = slice_stop a.count stop in
      if a.count == 0
      then err out_of_range
      else if leb to from
      then err out_of_range
      else submatrix a.contents from (to - from)

  -- Vectors are equal if they have the same size and equal elements.
  abbrev pub same_vector : List T → List T → Bool
  same_vector [] [] = true
  same_vector (x ∷ xs) (y ∷ ys) = same x y && same_vector xs ys
  same_vector _ _ = false

  -- The loop of `find`, over the rows (axis 0) or the columns (axis 1)
  abbrev line : Bool → Matrix → ℕ → Result (List T)
  line true m i = get_row m i
  line false m i = get_column m i

  pub find_from : ℕ → ℕ → List T → Bool → Matrix → Result (Option ℕ)
  find_from zero i item by_row m = ok none
  find_from (suc n) i item by_row m =
      let rest = find_from n (i + 1) item by_row m in
      and_then (line by_row m i) (λ v. if same_vector v item then ok (some i) else rest)

  -- `i <= static_cast<size_t>(index_)` makes 2^64 rounds on an empty array, where `index_` is -1.
  unfoldable pub find : List T → ℕ → DynamicArray Matrix → Result (Option ℕ)
  unfolding find_from
  find item axis a =
      if ltb 1 axis
      then err invalid_argument
      else find_from (if a.count == 0 then 2 ^ 64 else a.count) 0 item (axis == 0) a.contents

  -- The loop of `filter`, with `near` for the comparison of two elements; a row that is too short has
  -- no such element.
  abbrev element_is : (T → T → Bool) → ℕ → T → List T → Bool
  element_is near column value line = elim (get_elem? line column) [
    | none ↦ false
    | some v ↦ near v value
  ]

  pub filter_from : ℕ → ℕ → (List T → Bool) → Matrix → Result (List (List T))
  filter_from zero i p m = ok []
  filter_from (suc n) i p m =
      and_then (get_row m i) λ line.
        and_then (filter_from n (i + 1) p m) λ rest. ok (if p line then line ∷ rest else rest)

  -- The content of the matrix that `filter` returns
  unfoldable pub filter : (T → T → Bool) → ℕ → T → DynamicArray Matrix → Result (List (List T))
  unfolding filter_from
  filter near column value a =
      if a.count == 0
      then ok []
      else if leb a.width column
      then err out_of_range
      else filter_from a.count 0 (element_is near column value) a.contents

  -- `sum`, with `blaze::sum` of a column; it sums the rows behind the last one too.
  unfoldable pub sum : (List T → T) → ℕ → DynamicArray Matrix → Result T
  sum blaze_sum column a =
      if leb a.width column
      then err out_of_range
      else and_then (get_column a.contents column) λ v. ok (blaze_sum v)

  -- `applyFunction`, on the whole matrix
  unfoldable pub apply_function {κ} : {A : Type κ} → (Matrix → A) → DynamicArray Matrix → A
  apply_function f a = f a.contents

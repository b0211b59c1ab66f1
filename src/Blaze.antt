-- ===== src/Blaze.antt =====
-- The matrix library Blaze, which is not part of the repository: the operations that
-- src/DynamicArray.cpp calls, and what their documentation promises. A row or a column is given as
-- the list of its elements.
use cipher_trader.Prelude.{
  ℕ, ◌+◌, ◌≤◌, ◌<◌, ◌≡◌, Bool, List, ◌++◌, Result, ok, err, invalid_argument, some, length,
  get_elem?, set, take, drop, replicate,
}

pub record Blaze (T : Type 0) : Type 1 where
  pub Matrix : Type 0
  -- `T{}`, and `operator==` of elements
  pub nought : T
  pub same : T → T → Bool
  -- `TM(rows, columns)`, whose elements are not initialised
  pub matrix : ℕ → ℕ → Matrix
  -- `m.resize(rows, columns, false)`, which keeps no elements
  pub resize : Matrix → ℕ → ℕ → Matrix
  pub reset : Matrix → Matrix
  pub row_count : Matrix → ℕ
  pub columns : Matrix → ℕ
  -- `row(m, i)` and `column(m, i)`, read
  pub get_row : Matrix → ℕ → Result (List T)
  pub get_column : Matrix → ℕ → Result (List T)
  -- `row(m, i) = v`
  pub set_row : Matrix → ℕ → List T → Result Matrix
  -- `submatrix(dst, i, 0, n, w) = submatrix(src, j, 0, n, w)` over the whole width
  pub copy_rows : Matrix → ℕ → Matrix → ℕ → ℕ → Result Matrix
  -- `submatrix(dst, i, 0, n, w) = submatrix(src, 0, 0, n, w)`
  pub copy_block : Matrix → ℕ → Matrix → ℕ → ℕ → Result Matrix
  -- `submatrix(m, i, 0, n, w)` over the whole width, read
  pub submatrix : Matrix → ℕ → ℕ → Result (List (List T))

module _ {T : Type 0} (b : Blaze T) where
  open b use {
    Matrix, nought, matrix, resize, reset, row_count, columns, get_row, get_column, set_row,
    copy_rows, copy_block, submatrix,
  }

  -- `rows m` is the content of `m`, row by row.
  pub record IsBlaze : Type 0 where
    pub rows : Matrix → List (List T)
    pub row_count-eq : (m : Matrix) → row_count m ≡ length (rows m)
    pub matrix-shape : (r c : ℕ) → (length (rows (matrix r c)) ≡ r) × (columns (matrix r c) ≡ c)
    pub resize-shape :
        (m : Matrix) (r c : ℕ) → (length (rows (resize m r c)) ≡ r) × (columns (resize m r c) ≡ c)
    pub rows-reset :
        (m : Matrix) → rows (reset m) ≡ replicate (length (rows m)) (replicate (columns m) nought)
    pub columns-reset : (m : Matrix) → columns (reset m) ≡ columns m
    pub get_row-ok :
        (m : Matrix) (i : ℕ) (v : List T) → get_elem? (rows m) i ≡ some v → get_row m i ≡ ok v
    pub get_row-err :
        (m : Matrix) (i : ℕ) → length (rows m) ≤ i → get_row m i ≡ err invalid_argument
    pub get_column-ok :
        (m : Matrix) (i : ℕ)
        → i < columns m
        → (v : List T) × (get_column m i ≡ ok v) × (length v ≡ length (rows m))
    pub get_column-err :
        (m : Matrix) (i : ℕ) → columns m ≤ i → get_column m i ≡ err invalid_argument
    pub set_row-ok :
        (m : Matrix) (i : ℕ) (v : List T)
        → i < length (rows m)
        → length v ≡ columns m
        → (m' : Matrix) × (set_row m i v ≡ ok m')
          × (rows m' ≡ set (rows m) i v)
          × (columns m' ≡ columns m)
    pub set_row-err :
        (m : Matrix) (i : ℕ) (v : List T)
        → length (rows m) ≤ i
        → set_row m i v ≡ err invalid_argument
    pub copy_rows-ok :
        (dst : Matrix) (i : ℕ) (src : Matrix) (j n : ℕ)
        → i + n ≤ length (rows dst)
        → j + n ≤ length (rows src)
        → columns dst ≡ columns src
        → (m' : Matrix) × (copy_rows dst i src j n ≡ ok m')
          × (rows m' ≡ take i (rows dst) ++ (take n (drop j (rows src)) ++ drop (i + n) (rows dst)))
          × (columns m' ≡ columns dst)
    pub copy_block-ok :
        (dst : Matrix) (i : ℕ) (src : Matrix) (n : ℕ)
        → i + n ≤ length (rows dst)
        → n ≤ length (rows src)
        → columns dst ≡ columns src
        → (m' : Matrix) × (copy_block dst i src n (columns dst) ≡ ok m')
          × (rows m' ≡ take i (rows dst) ++ (take n (rows src) ++ drop (i + n) (rows dst)))
          × (columns m' ≡ columns dst)
    pub submatrix-ok :
        (m : Matrix) (i n : ℕ)
        → i + n ≤ length (rows m)
        → submatrix m i n ≡ ok (take n (drop i (rows m)))

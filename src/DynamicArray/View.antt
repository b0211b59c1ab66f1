-- ===== src/DynamicArray/View.antt =====
-- The array as the list of its rows, oldest first, and what growing, shifting and assigning rows do
-- to that list.
use native.Mathlib.Numerals.{add-one}
use cipher_trader.Prelude.{
  ℕ, zero, suc, ◌+◌, ◌-◌, ◌*◌, ◌/◌, ◌≤◌, ◌<◌, max, ◌≡◌, refl, sym, ap, ◌∙◌, false, inl, inr,
  Bool-cases, List, [], ◌∷◌, ◌++◌, ltb, leb, arith, length, take, drop, replicate, length-append,
  length-take, length-drop, length-replicate, length-set, ok,
}
use cipher_trader.Prelude.Slices.{
  length-copy, drop_all, take-front, take-set_last, take-set_ge, take-drop,
}
use cipher_trader.Blaze.{Blaze, IsBlaze}
use cipher_trader.DynamicArray.{
  DynamicArray, resize, grow, push, fit, clear_rows, shift_left, zero_row, shrink_to_fit,
  shrink_to_fit,
}

module _ {T : Type 0} (b : Blaze T) (laws : IsBlaze b) where
  open b use {Matrix, nought, reset, matrix, columns, row_count, copy_rows, set_row}
  open laws use {
    rows, row_count-eq, matrix-shape, rows-reset, columns-reset, set_row-ok, copy_rows-ok,
  }

  abbrev pub view : DynamicArray Matrix → List (List T)
  view a = take a.count (rows a.contents)

  pub record Inv (a : DynamicArray Matrix) : Type 0 where
    pub fits : a.count ≤ length (rows a.contents)
    pub wide : columns a.contents ≡ a.width
    pub bucket : a.bucket_size ≤ length (rows a.contents)

  pub length-fit : (w : ℕ) (item : List T) → length (fit b w item) ≡ w
  length-fit w item = omega (
    arith,
    length-append (take w item) (replicate (w - length item) nought),
    length-take w item,
    length-replicate (w - length item) nought,
  )

  length-reset : (m : Matrix) → length (rows (reset m)) ≡ length (rows m)
  length-reset m = ap length (rows-reset m) ∙ length-replicate (length (rows m)) _

  pub resize_lem :
      (a : DynamicArray Matrix) (n : ℕ)
      → Inv a
      → a.count ≤ n
      → (m : Matrix) × (resize b n a ≡ (ok tt, record a { contents = m }))
        × (take a.count (rows m) ≡ view a)
        × (length (rows m) ≡ n)
        × (columns m ≡ a.width)
  unfolding resize
  resize_lem a n v h =
      let new = reset (matrix n a.width) in
      let len : length (rows new) ≡ n =
        length-reset (matrix n a.width) ∙ (matrix-shape n a.width).0 in
      let col : columns new ≡ a.width =
        columns-reset (matrix n a.width) ∙ (matrix-shape n a.width).1 in
      elim (Bool-cases (ltb 0 a.count)) [
        | inl some_rows ↦
            let (m, e, r, c) =
              copy_rows-ok new 0 a.contents 0 a.count (omega arith) (omega (arith, v.fits))
                (col ∙ sym v.wide) in
            (
              m,
              rw (some_rows, e),
              rw r (take-front a.count (rows a.contents) _ v.fits),
              omega (
                arith,
                ap length r,
                length-append (take a.count (rows a.contents)) (drop (0 + a.count) (rows new)),
                length-take a.count (rows a.contents),
                length-drop (0 + a.count) (rows new),
                v.fits,
              ),
              c ∙ col,
            )
        | inr no_rows ↦
            let none_left : a.count ≡ 0 = ground arith in
            (new, rw no_rows, rw none_left refl, len, col)
      ]

  -- Growing keeps the rows and makes room for one more, if the bucket size is at least 2.
  pub grow_lem :
      (a : DynamicArray Matrix)
      → Inv a
      → 2 ≤ a.bucket_size
      → (m : Matrix) × (grow b a ≡ (ok tt, record a { contents = m }))
        × (take a.count (rows m) ≡ view a)
        × (a.count < length (rows m))
        × (a.bucket_size ≤ length (rows m))
        × (columns m ≡ a.width)
  unfolding grow
  grow_lem a v two =
      let n = max 1 (max a.bucket_size (row_count a.contents * 3 / 2)) in
      let same_count = row_count-eq a.contents in
      elim (Bool-cases (leb (row_count a.contents) a.count)) [
        | inl full ↦
            let (m, e, t, l, c) = resize_lem a n v (ground (arith, v.fits, v.bucket)) in
            (m, rw (full, e), t, ground (arith, v.fits, v.bucket), omega arith, c)
        | inr room ↦ (a.contents, rw room, refl, ground arith, v.bucket, v.wide)
      ]

  -- Pushing an item appends it to the view.
  pub push_lem :
      (a : DynamicArray Matrix) (item : List T)
      → columns a.contents ≡ a.width
      → a.count < length (rows a.contents)
      → (m : Matrix) × (push b item a ≡ (ok tt, record a { count = a.count + 1; contents = m }))
        × (take (a.count + 1) (rows m) ≡ view a ++ fit b a.width item ∷ [])
        × (length (rows m) ≡ length (rows a.contents))
        × (columns m ≡ a.width)
  unfolding push
  push_lem a item wide room =
      let new = fit b a.width item in
      let (m, e, r, c) =
        set_row-ok a.contents a.count new room (length-fit a.width item ∙ sym wide) in
      (
        m,
        rw e,
        rw (r, add-one) (take-set_last a.count (rows a.contents) new room),
        ap length r ∙ length-set (rows a.contents) a.count new,
        c ∙ wide,
      )

  clear_rows_lem :
      (n i w k : ℕ) (m : Matrix)
      → k ≤ i
      → w ≡ columns m
      → (m' : Matrix) × (clear_rows b n i w m ≡ ok m')
        × (take k (rows m') ≡ take k (rows m))
        × (length (rows m') ≡ length (rows m))
        × (columns m' ≡ columns m)
  unfolding clear_rows
  clear_rows_lem zero i w k m h e = (m, refl, refl, refl, refl)
  clear_rows_lem (suc n) i w k m h e = elim (Bool-cases (ltb i (row_count m))) [
    | inl inside ↦
        let (m₁, e₁, r₁, c₁) =
          set_row-ok m i (zero_row b w) (ground (arith, row_count-eq m))
            (length-replicate w nought ∙ e) in
        let (m₂, e₂, t₂, l₂, c₂) = clear_rows_lem n (i + 1) w k m₁ (omega arith) (e ∙ sym c₁) in
        (
          m₂,
          rw (inside, e₁) e₂,
          t₂ ∙ ap (take k) r₁ ∙ take-set_ge k i (rows m) (zero_row b w) h,
          l₂ ∙ ap length r₁ ∙ length-set (rows m) i (zero_row b w),
          c₂ ∙ c₁,
        )
    | inr past ↦ (m, rw past, refl, refl, refl)
  ]

  -- Shifting left by `n` drops the `n` oldest rows of the view, or all if there are no more.
  pub shift_left_lem :
      (a : DynamicArray Matrix) (n : ℕ)
      → Inv a
      → (m : Matrix) × (shift_left b n a ≡ (ok tt, record a { count = a.count - n; contents = m }))
        × (take (a.count - n) (rows m) ≡ drop n (view a))
        × (length (rows m) ≡ length (rows a.contents))
        × (columns m ≡ a.width)
  unfolding shift_left
  shift_left_lem a n v = elim (Bool-cases (leb a.count n)) [
    | inl all ↦
        let gone : a.count - n ≡ 0 = ground arith in
        (
          reset a.contents,
          rw (all, gone),
          rw gone
              (sym (drop_all n (view a) (ground (arith, length-take a.count (rows a.contents))))),
          length-reset a.contents,
          columns-reset a.contents ∙ v.wide,
        )
    | inr some_left ↦
        let left = a.count - n in
        let (m₁, e₁, r₁, c₁) =
          copy_rows-ok a.contents 0 a.contents n left (omega (arith, v.fits))
            (ground (arith, v.fits)) refl in
        let (m₂, e₂, t₂, l₂, c₂) =
          clear_rows_lem n left a.width left m₁ (omega arith) (sym v.wide ∙ sym c₁) in
        (
          m₂,
          rw (some_left, e₁, e₂),
          t₂
              ∙ ap (take left) r₁
              ∙ take-front left (drop n (rows a.contents)) _
                  (ground (arith, length-drop n (rows a.contents), v.fits))
              ∙ take-drop n left a.count (rows a.contents) (ground arith),
          l₂
              ∙ ap length r₁
              ∙ length-copy left n (rows a.contents) (rows a.contents) (ground (arith, v.fits))
                  (ground (arith, v.fits)),
          c₂ ∙ c₁ ∙ v.wide,
        )
  ]

  -- Shrinking to a size that holds all the rows keeps them.
  pub shrink_to_fit_lem :
      (a : DynamicArray Matrix) (n : ℕ)
      → Inv a
      → a.count ≤ n
      → a.bucket_size ≤ n
      → (m : Matrix) × (shrink_to_fit b n a ≡ (ok tt, record a { contents = m }))
        × (take a.count (rows m) ≡ view a)
        × Inv (record a { contents = m })
  unfolding shrink_to_fit
  shrink_to_fit_lem a n v h k =
      let new = matrix n a.width in
      let len : length (rows new) ≡ n = (matrix-shape n a.width).0 in
      let col : columns new ≡ a.width = (matrix-shape n a.width).1 in
      let enough : ltb n a.count ≡ false = ground arith in
      elim (Bool-cases (ltb n (row_count a.contents))) [
        | inl smaller ↦
            let (m, e, r, c) =
              copy_rows-ok new 0 a.contents 0 a.count (omega arith) (omega (arith, v.fits))
                (col ∙ sym v.wide) in
            let size : length (rows m) ≡ n =
              ap length r
              ∙ length-copy a.count 0 (rows a.contents) (rows new) (omega (arith, v.fits))
                  (omega arith)
              ∙ len in
            (
              m,
              rw (enough, smaller, e),
              rw r (take-front a.count (rows a.contents) _ v.fits),
              record { fits = omega arith; wide = c ∙ col; bucket = omega arith },
            )
        | inr large ↦ (a.contents, rw (enough, large), refl, v)
      ]

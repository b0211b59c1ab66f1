-- ===== src/DynamicArray/Multiple.antt =====
-- `appendMultiple` of src/DynamicArray.cpp as one operation on the list of rows.
use cipher_trader.Prelude.{
  ℕ, zero, suc, ◌+◌, ◌-◌, ◌/◌, ◌*◌, ◌≤◌, min, max, ◌≡◌, ◌≢◌, refl, ap, sym, ◌∙◌, inl, inr,
  Bool-cases, some, List, [], ◌∷◌, ◌++◌, ◌==◌, ltb, if◌then◌else◌, arith, length, take, drop,
  length-take, length-append, length-drop, ok,
}
use cipher_trader.Prelude.Slices.{take_all}
use cipher_trader.Blaze.{Blaze, IsBlaze}
use cipher_trader.DynamicArray.{DynamicArray, append_multiple, grow_for, push_rows}
use cipher_trader.DynamicArray.View.{view, Inv, resize_lem}
use cipher_trader.DynamicArray.Append.{kept, drop_old_lem}

module _ {A : Type 0} where
  take-two :
      (k n : ℕ) (xs ys zs : List A)
      → length xs ≡ k
      → length ys ≡ n
      → take (k + n) (xs ++ (ys ++ zs)) ≡ xs ++ ys
  take-two zero n [] ys zs h i = rw (sym i) (take_front ys zs)
    where
      take_front : (ys zs : List A) → take (0 + length ys) (ys ++ zs) ≡ ys
      take_front [] zs = refl
      take_front (y ∷ ys) zs = ground (arith, take_front ys zs)
  take-two (suc k) n [] ys zs h i = ground (arith, h)
  take-two zero n (x ∷ xs) ys zs h i = ground (arith, h)
  take-two (suc k) n (x ∷ xs) ys zs h i =
      let shift : suc k + n ≡ suc (k + n) = omega arith in
      rw shift (ap (λ ws. x ∷ ws) (take-two k n xs ys zs (omega (arith, h)) i))

module _ {T : Type 0} (b : Blaze T) (laws : IsBlaze b) where
  open b use {Matrix, columns, row_count}
  open laws use {rows, row_count-eq, copy_block-ok}

  grow_for_lem :
      (a : DynamicArray Matrix) (n : ℕ)
      → Inv b laws a
      → (m : Matrix) × (grow_for b n a ≡ (ok tt, record a { contents = m }))
        × (take a.count (rows m) ≡ view b laws a)
        × (a.count + n ≤ length (rows m))
        × (a.bucket_size ≤ length (rows m))
        × (columns m ≡ a.width)
  unfolding grow_for
  grow_for_lem a n v =
      let size = max (a.count + n) (row_count a.contents * 3 / 2) in
      let same_count = row_count-eq a.contents in
      elim (Bool-cases (ltb (a.count + n) (row_count a.contents + 1))) [
        | inl room ↦ (a.contents, rw room, refl, ground arith, v.bucket, v.wide)
        | inr full ↦
            let (m, e, t, l, c) = resize_lem b laws a size v (omega arith) in
            (m, rw full e, t, omega arith, ground (arith, v.fits, v.bucket), c)
      ]

  push_rows_lem :
      (a : DynamicArray Matrix) (items : Matrix)
      → columns a.contents ≡ a.width
      → columns items ≡ a.width
      → a.count + row_count items ≤ length (rows a.contents)
      → (m : Matrix) × (push_rows b items a
          ≡ (ok tt, record a { count = a.count + row_count items; contents = m }))
        × (take (a.count + row_count items) (rows m) ≡ view b laws a ++ rows items)
        × (length (rows m) ≡ length (rows a.contents))
        × (columns m ≡ a.width)
  unfolding push_rows
  push_rows_lem a items wide same room =
      let n = row_count items in
      let size : n ≡ length (rows items) = row_count-eq items in
      let w : min (columns items) (columns a.contents) ≡ columns a.contents = omega arith in
      let (m, e, r, c) =
        copy_block-ok a.contents a.count items n room (omega arith) (wide ∙ sym same) in
      let whole : take n (rows items) ≡ rows items = take_all n (rows items) (omega arith) in
      let front : length (take a.count (rows a.contents)) ≡ a.count =
        omega (arith, length-take a.count (rows a.contents)) in
      (
        m,
        rw (w, e, push_rows) refl,
        ap (take (a.count + n)) r
            ∙ take-two a.count n (take a.count (rows a.contents)) (take n (rows items))
                (drop (a.count + n) (rows a.contents)) front
                (omega (arith, length-take n (rows items)))
            ∙ ap (λ ws. view b laws a ++ ws) whole,
        omega (
          arith,
          ap length r,
          length-append (take a.count (rows a.contents))
              (take n (rows items) ++ drop (a.count + n) (rows a.contents)),
          length-append (take n (rows items)) (drop (a.count + n) (rows a.contents)),
          length-take n (rows items),
          length-drop (a.count + n) (rows a.contents),
          front,
        ),
        c ∙ wide,
      )

  -- `appendMultiple` succeeds on a well-formed array, if the matrix that is appended has the width of
  -- the array and rows are not dropped at 0, and does so whatever its bucket size is. Without rows to
  -- append nothing changes. Otherwise its rows become the old ones followed by the new ones, less the
  -- older half (of `drop_at`) if their number is a multiple of `drop_at`. The array stays well-formed.
  pub view-append_multiple :
      (a : DynamicArray Matrix) (items : Matrix)
      → Inv b laws a
      → columns items ≡ a.width
      → a.drop_at ≢ some 0
      → (a' : DynamicArray Matrix) × (append_multiple b items a ≡ (ok tt, a'))
        × (view b laws a' ≡ (
            if row_count items == 0
            then view b laws a
            else kept a.drop_at (view b laws a ++ rows items)))
        × Inv b laws a'
  unfolding append_multiple
  view-append_multiple a items v same nz = elim (Bool-cases (row_count items == 0)) [
    | inl nothing ↦ (a, rw nothing refl, rw nothing refl, v)
    | inr something ↦
        let (m₁, e₁, t₁, l₁, k₁, c₁) = grow_for_lem a (row_count items) v in
        let a₁ = record a { contents = m₁ } in
        let (m₂, e₂, t₂, l₂, c₂) = push_rows_lem a₁ items c₁ same l₁ in
        let a₂ = record a { count = a.count + row_count items; contents = m₂ } in
        let v₂ : Inv b laws a₂ = record { fits = omega arith; wide = c₂; bucket = omega arith } in
        let (n, m₃, e₃, t₃, l₃, c₃) = drop_old_lem b laws a.drop_at a₂ v₂ nz in
        (
          record a { count = a.count + row_count items - n; contents = m₃ },
          rw (something, e₁, e₂) e₃,
          rw something (t₃ ∙ ap (kept a.drop_at) (t₂ ∙ ap (λ w. w ++ rows items) t₁)),
          record { fits = omega arith; wide = c₃; bucket = omega arith },
        )
  ]

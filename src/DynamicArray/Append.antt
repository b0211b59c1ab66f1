-- ===== src/DynamicArray/Append.antt =====
-- `append` of src/DynamicArray.cpp: growing, writing the new row, and the periodic drop of the oldest
-- rows, as one operation on the list of rows.
use cipher_trader.Prelude.{
  ℕ, zero, suc, ◌+◌, ◌-◌, ◌/◌, ◌%◌, ◌≤◌, ◌≡◌, ◌≢◌, refl, ap, ◌∙◌, false, inl, inr, Bool-cases,
  Option, none, some, List, [], ◌∷◌, ◌++◌, ◌==◌, if◌then◌else◌, arith, length, take, drop,
  length-take, ok,
}
use cipher_trader.Blaze.{Blaze, IsBlaze}
use cipher_trader.DynamicArray.{DynamicArray, fit, drop_old, shift_matrix, append, negate}
use cipher_trader.DynamicArray.View.{view, Inv, grow_lem, push_lem, shift_left_lem}

-- What the periodic drop leaves of the rows
abbrev pub kept {ℓ} : {A : Type ℓ} → Option ℕ → List A → List A
kept none v = v
kept (some d) v = if length v % d == 0 then drop (d / 2) v else v

module _ {T : Type 0} (b : Blaze T) (laws : IsBlaze b) where
  open b use {Matrix, columns}
  open laws use {rows}

  shift_matrix_lem :
      (a : DynamicArray Matrix) (n : ℕ)
      → Inv b laws a
      → (m : Matrix) × (shift_matrix b (negate n) a
          ≡ (ok tt, record a { count = a.count - n; contents = m }))
        × (take (a.count - n) (rows m) ≡ drop n (view b laws a))
        × (length (rows m) ≡ length (rows a.contents))
        × (columns m ≡ a.width)
  unfolding shift_matrix
  shift_matrix_lem a zero v =
      let whole : a.count - 0 ≡ a.count = omega arith in
      (a.contents, rw whole, rw whole, refl, v.wide)
  shift_matrix_lem a (suc n) v = shift_left_lem b laws a (suc n) v

  pub length-view : (a : DynamicArray Matrix) → Inv b laws a → length (view b laws a) ≡ a.count
  length-view a v = omega (arith, length-take a.count (rows a.contents), v.fits)

  pub drop_old_lem :
      (o : Option ℕ) (a : DynamicArray Matrix)
      → Inv b laws a
      → o ≢ some 0
      → (n : ℕ) × (m : Matrix) × (drop_old b o a
          ≡ (ok tt, record a { count = a.count - n; contents = m }))
        × (take (a.count - n) (rows m) ≡ kept o (view b laws a))
        × (length (rows m) ≡ length (rows a.contents))
        × (columns m ≡ a.width)
  unfolding drop_old
  drop_old_lem none a v nz =
      let whole : a.count - 0 ≡ a.count = omega arith in
      (0, a.contents, rw whole, rw whole, refl, v.wide)
  drop_old_lem (some d) a v nz =
      let positive : (d == 0) ≡ false = ground arith in
      let (m, e, t, l, c) = shift_matrix_lem a (d / 2) v in
      let whole : a.count - 0 ≡ a.count = omega arith in
      elim (Bool-cases (a.count % d == 0)) [
        | inl due ↦ (d / 2, m, rw (positive, due) e, rw (length-view a v, due) t, l, c)
        | inr idle ↦ (
          0,
          a.contents,
          rw (positive, idle, whole),
          rw (length-view a v, idle, whole),
          refl,
          v.wide,
        )
      ]

  -- If the bucket size is at least 2 and rows are not dropped at 0, `append` succeeds on a well-formed
  -- array: its rows become the old ones, oldest first, followed by the item cut or zero-filled to the
  -- width, less the older half (of `drop_at`) whenever their number is a multiple of `drop_at`. The
  -- array stays well-formed, and its width, bucket size and `drop_at` do not change.
  pub view-append :
      (a : DynamicArray Matrix) (item : List T)
      → Inv b laws a
      → 2 ≤ a.bucket_size
      → a.drop_at ≢ some 0
      → (a' : DynamicArray Matrix) × (append b item a ≡ (ok tt, a'))
        × (view b laws a' ≡ kept a.drop_at (view b laws a ++ fit b a.width item ∷ []))
        × Inv b laws a'
        × (a'.width ≡ a.width)
        × (a'.bucket_size ≡ a.bucket_size)
        × (a'.drop_at ≡ a.drop_at)
  unfolding append
  view-append a item v two nz =
      let (m₁, e₁, t₁, l₁, k₁, c₁) = grow_lem b laws a v two in
      let a₁ = record a { contents = m₁ } in
      let (m₂, e₂, t₂, l₂, c₂) = push_lem b laws a₁ item c₁ l₁ in
      let a₂ = record a { count = a.count + 1; contents = m₂ } in
      let v₂ : Inv b laws a₂ = record { fits = omega arith; wide = c₂; bucket = omega arith } in
      let (n, m₃, e₃, t₃, l₃, c₃) = drop_old_lem a.drop_at a₂ v₂ nz in
      (
        record a { count = a.count + 1 - n; contents = m₃ },
        rw (e₁, e₂) e₃,
        t₃ ∙ ap (kept a.drop_at) (t₂ ∙ ap (λ w. w ++ fit b a.width item ∷ []) t₁),
        record { fits = omega arith; wide = c₃; bucket = omega arith },
        refl,
        refl,
        refl,
      )

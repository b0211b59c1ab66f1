-- ===== src/DynamicArray/Delete.antt =====
-- `deleteRow` of src/DynamicArray.cpp: the rows behind the deleted one move up, the last one is
-- cleared, and the matrix may shrink.
use cipher_trader.Prelude.{
  Option-cases, ◌⊎◌, inl, inr, ℕ, suc, ◌+◌, ◌-◌, ◌/◌, ◌<◌, max, ◌≡◌, refl, sym, ap, ◌∙◌, false,
  ◌&&◌, inl, inr, Bool-cases, Option-cases, none, some, ltb, ◌==◌, arith, length, take,
  length-replicate, length-set, ok, err, out_of_range,
}
use cipher_trader.Prelude.Int.{ℤ, pos, negsuc}
use cipher_trader.Prelude.Splices.{without, take-move_up, length-move_up, without_last}
use cipher_trader.Prelude.Slices.{take-set_ge}
use cipher_trader.Blaze.{Blaze, IsBlaze}
use cipher_trader.DynamicArray.{
  DynamicArray, resolve, delete_row, remove_at, close_gap, shrink, zero_row,
}
use cipher_trader.DynamicArray.View.{view, Inv, shrink_to_fit_lem}

pub resolve-lt : (n : ℕ) (idx : ℤ) (i : ℕ) → resolve n idx ≡ some i → i < n
resolve-lt n (pos k) i e = ground arith
resolve-lt n (negsuc k) i e = ground arith

module _ {T : Type 0} (b : Blaze T) (laws : IsBlaze b) where
  open b use {Matrix, columns, row_count, nought}
  open laws use {rows, row_count-eq, copy_rows-ok, set_row-ok}

  shrink_lem :
      (a : DynamicArray Matrix)
      → Inv b laws a
      → (m : Matrix) × (shrink b a ≡ (ok tt, record a { contents = m }))
        × (take a.count (rows m) ≡ view b laws a)
        × Inv b laws (record a { contents = m })
  unfolding shrink
  shrink_lem a v =
      let rows_now = row_count a.contents in
      let n = max a.bucket_size (rows_now / 2) in
      let same = row_count-eq a.contents in
      elim (Bool-cases (ltb a.bucket_size rows_now && ltb a.count (rows_now / 4))) [
        | inl sparse ↦
            let (m, e, t, w) = shrink_to_fit_lem b laws a n v (ground arith) (omega arith) in
            elim (Bool-cases (ltb n rows_now)) [
              | inl smaller ↦ (m, rw (sparse, smaller) e, t, w)
              | inr same_size ↦ (a.contents, rw (sparse, same_size), refl, v)
            ]
        | inr dense ↦ (a.contents, rw dense, refl, v)
      ]

  -- The rows that `close_gap` leaves before the last one is cleared
  gap_closed :
      (a : DynamicArray Matrix) (i : ℕ)
      → Inv b laws a
      → i < a.count
      → (m : Matrix) × (close_gap b i a ≡ ok m)
        × (take (a.count - 1) (rows m) ≡ without i (view b laws a))
        × (length (rows m) ≡ length (rows a.contents))
        × (columns m ≡ a.width)
  unfolding close_gap
  gap_closed a i v h =
      let all = rows a.contents in
      let moved = a.count - 1 - i in
      elim (Bool-cases (ltb (suc i) a.count)) [
        | inl inner ↦
            let (m₁, e₁, r₁, c₁) =
              copy_rows-ok a.contents i a.contents (i + 1) moved (omega (arith, v.fits))
                (ground (arith, v.fits)) refl in
            let size : length (rows m₁) ≡ length all =
              ap length r₁ ∙ length-move_up i moved all (ground (arith, v.fits)) in
            let (m₂, e₂, r₂, c₂) =
              set_row-ok m₁ (a.count - 1) (zero_row b (columns m₁)) (omega (arith, v.fits))
                (length-replicate _ nought) in
            (
              m₂,
              rw (inner, e₁) e₂,
              ap (take (a.count - 1)) r₂
                  ∙ take-set_ge (a.count - 1) (a.count - 1) (rows m₁) _ (omega arith)
                  ∙ ap (take (a.count - 1)) r₁
                  ∙ take-move_up i a.count all _ h v.fits,
              ap length r₂ ∙ length-set (rows m₁) (a.count - 1) _ ∙ size,
              c₂ ∙ c₁ ∙ v.wide,
            )
        | inr last ↦
            let (m, e, r, c) =
              set_row-ok a.contents (a.count - 1) (zero_row b (columns a.contents))
                (omega (arith, v.fits)) (length-replicate _ nought) in
            let at_end : i ≡ a.count - 1 = ground arith in
            (
              m,
              rw last e,
              ap (take (a.count - 1)) r
                  ∙ take-set_ge (a.count - 1) (a.count - 1) all _ (omega arith)
                  ∙ without_last a.count all v.fits (omega arith)
                  ∙ ap (λ j. without j (view b laws a)) (sym at_end),
              ap length r ∙ length-set all (a.count - 1) _,
              c ∙ v.wide,
            )
      ]

  remove_at_ok :
      (a : DynamicArray Matrix) (i : ℕ) (m : Matrix)
      → close_gap b i a ≡ ok m
      → remove_at b i a ≡ (ok tt, record a { contents = m; count = a.count - 1 })
  unfolding remove_at
  remove_at_ok a i m g = rw g

  -- `deleteRow(idx)` on a well-formed array: either the index names a row `i` (a negative one counts
  -- from the end), and the call succeeds and takes row `i` out, where the array stays well-formed, of
  -- the same width, bucket size and `drop_at`; or it names no row, and the call throws
  -- `out_of_range` and changes nothing.
  pub view-delete_row :
      (a : DynamicArray Matrix) (idx : ℤ)
      → Inv b laws a
      → ((i : ℕ) × (a' : DynamicArray Matrix) × (resolve a.count idx ≡ some i)
          × (delete_row b idx a ≡ (ok tt, a'))
          × (view b laws a' ≡ without i (view b laws a))
          × Inv b laws a'
          × (a'.width ≡ a.width)
          × (a'.bucket_size ≡ a.bucket_size)
          × (a'.drop_at ≡ a.drop_at))
        ⊎ ((resolve a.count idx ≡ none) × (delete_row b idx a ≡ (err out_of_range, a)))
  unfolding delete_row
  view-delete_row a idx v = elim (Option-cases (resolve a.count idx)) [
    | inl e ↦ inr (e, ground (arith, e))
    | inr (i, e) ↦
        let below = resolve-lt a.count idx i e in
        let (m, g, t, l, c) = gap_closed a i v below in
        let a₁ = record a { contents = m; count = a.count - 1 } in
        let v₁ : Inv b laws a₁ = record {
          fits = omega (arith, v.fits);
          wide = c;
          bucket = omega (arith, v.bucket);
        } in
        let (m', s, t', v') = shrink_lem a₁ v₁ in
        let nonempty : (a.count == 0) ≡ false = ground arith in
        inl (
          i,
          record a₁ { contents = m' },
          e,
          rw (nonempty, e, remove_at_ok a i m g) s,
          t' ∙ t,
          v',
          refl,
          refl,
          refl,
        )
  ]

-- ===== src/DynamicArray/Flush.antt =====
-- `flush` empties the array and keeps it well-formed.
use cipher_trader.Prelude.{
  ◌*◌, ◌≡◌, refl, ap, ◌∙◌, inl, inr, Bool-cases, [], ltb, arith, length, length-replicate,
}
use cipher_trader.Blaze.{Blaze, IsBlaze}
use cipher_trader.DynamicArray.{DynamicArray, flush}
use cipher_trader.DynamicArray.View.{view, Inv}

module _ {T : Type 0} (b : Blaze T) (laws : IsBlaze b) where
  open b use {Matrix, columns, reset, row_count}
  open laws use {rows, row_count-eq, rows-reset, columns-reset, resize-shape}

  shape-reset :
      (m : Matrix) → (length (rows (reset m)) ≡ length (rows m)) × (columns (reset m) ≡ columns m)
  shape-reset m = (ap length (rows-reset m) ∙ length-replicate (length (rows m)) _, columns-reset m)

  pub flush_lem :
      (a : DynamicArray Matrix)
      → Inv b laws a
      → Inv b laws (flush b a) × (view b laws (flush b a) ≡ [])
  unfolding flush
  flush_lem a v = elim (Bool-cases (ltb (2 * a.bucket_size) (row_count a.contents))) [
    | inl large ↦
        let (r, c) = resize-shape a.contents a.bucket_size a.width in
        let (l, w) = shape-reset (b.resize a.contents a.bucket_size a.width) in
        (rw large (record { fits = omega arith; wide = w ∙ c; bucket = omega (arith, l, r) }), refl)
    | inr small ↦
        let (l, w) = shape-reset a.contents in
        (
          rw small (record {
            fits = omega arith;
            wide = w ∙ v.wide;
            bucket = omega (arith, l, v.bucket);
          }),
          refl,
        )
  ]

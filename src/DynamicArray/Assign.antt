-- ===== src/DynamicArray/Assign.antt =====
-- Writing a row in place, on the list of the rows.
use cipher_trader.Prelude.{
  ℕ, zero, suc, ◌<◌, ◌≡◌, refl, sym, ap, ◌∙◌, false, inl, inr, ◌⊎◌, none, some, Option-cases,
  Bool-cases, List, [], ◌∷◌, ◌==◌, arith, length, take, set, length-set, ok, err, out_of_range,
}
use cipher_trader.Prelude.Int.{ℤ}
use cipher_trader.Blaze.{Blaze, IsBlaze}
use cipher_trader.DynamicArray.{DynamicArray, resolve, assign_row}
use cipher_trader.DynamicArray.View.{view, Inv}
use cipher_trader.DynamicArray.Delete.{resolve-lt}

module _ {A : Type 0} where
  take-set : (n k : ℕ) (xs : List A) (v : A) → k < n → take n (set xs k v) ≡ set (take n xs) k v
  take-set zero k xs v h = ground (arith, h)
  take-set (suc n) k [] v h = refl
  take-set (suc n) zero (x ∷ xs) v h = refl
  take-set (suc n) (suc k) (x ∷ xs) v h = ap (λ ys. x ∷ ys) (take-set n k xs v (omega (arith, h)))

module _ {T : Type 0} (b : Blaze T) (laws : IsBlaze b) where
  open b use {Matrix}
  open laws use {rows, set_row-ok}

  -- Writing a row of the width of the array replaces the row at the index that is meant, and keeps the
  -- array well-formed; an index outside changes nothing.
  pub assign_row_lem :
      (a : DynamicArray Matrix) (i : ℤ) (v : List T)
      → Inv b laws a
      → length v ≡ a.width
      → ((k : ℕ) × (m : Matrix) × (resolve a.count i ≡ some k)
          × (assign_row b i v a ≡ (ok tt, record a { contents = m }))
          × (view b laws (record a { contents = m }) ≡ set (view b laws a) k v)
          × Inv b laws (record a { contents = m }))
        ⊎ ((resolve a.count i ≡ none) × (assign_row b i v a ≡ (err out_of_range, a)))
  unfolding assign_row
  assign_row_lem a i v f w = elim (Option-cases (resolve a.count i)) [
    | inl e ↦
        inr (e, elim (Bool-cases (a.count == 0)) [ inl z ↦ rw z refl | inr z ↦ rw (z, e) refl ])
    | inr (k, e) ↦
        let below = resolve-lt a.count i k e in
        let some_rows : (a.count == 0) ≡ false = ground (arith, below) in
        let (m, g, r, c) =
          set_row-ok a.contents k v (omega (arith, below, f.fits)) (w ∙ sym f.wide) in
        let size : length (rows m) ≡ length (rows a.contents) =
          ap length r ∙ length-set (rows a.contents) k v in
        inl (
          k,
          m,
          e,
          rw (some_rows, e, g) refl,
          ap (take a.count) r ∙ take-set a.count k (rows a.contents) v below,
          record {
            fits = omega (arith, size, f.fits);
            wide = c ∙ f.wide;
            bucket = omega (arith, size, f.bucket);
          },
        )
  ]

-- ===== src/Helper/Fill.antt =====
-- src/Helper.cpp: `forwardFill` along the rows. A column of a matrix is the list of its values. Along the columns the
-- source reads and writes `result(j, i)`, with the bounds of i and j exchanged, which is not modelled.
use cipher_trader.Prelude.{
  ℕ, zero, suc, ◌≤◌, ◌<◌, ◌≡◌, refl, sym, ap, ◌∙◌, ◌⊎◌, inl, inr, Bool, true, false, not, some,
  List, [], ◌∷◌, map, get_elem?, if◌then◌else◌, arith, Bool-cases,
}

module _ {D : Type 0} (is_nan : D → Bool) where
  -- The inner loop, with the last valid value, if there was one.
  unfoldable pub fill_line : Bool → D → List D → List D
  fill_line has_valid_value last_valid_value [] = []
  fill_line has_valid_value last_valid_value (x ∷ xs) =
      if not (is_nan x)
      then x ∷ fill_line true x xs
      else if has_valid_value
      then last_valid_value ∷ fill_line true last_valid_value xs
      else x ∷ fill_line false last_valid_value xs

  -- `forwardFill(matrix, 0)`, for a matrix given by its columns; `nought` is `T()`.
  unfoldable pub forward_fill : D → List (List D) → List (List D)
  forward_fill nought columns = map (fill_line false nought) columns

  -- No valid value stands after index `j`, up to index `i`.
  abbrev pub NoneAfter : List D → ℕ → ℕ → Type 0
  NoneAfter xs j i = (k : ℕ) (z : D) → j < k → k ≤ i → get_elem? xs k ≡ some z → is_nan z ≡ true

  -- The last valid value up to index `i` is `y`, at index `j`.
  abbrev pub LastValid : List D → ℕ → D → ℕ → Type 0
  LastValid xs i y j = (get_elem? xs j ≡ some y) × (is_nan y ≡ false) × (j ≤ i) × NoneAfter xs j i

  same_value : (x y : D) (b : Bool) → some x ≡ some y → is_nan x ≡ b → is_nan y ≡ b
  same_value x y b e h = ground (arith, e, h)

  abbrev pub NoneUpTo : List D → ℕ → Type 0
  NoneUpTo xs i = (k : ℕ) (z : D) → k ≤ i → get_elem? xs k ≡ some z → is_nan z ≡ true

  fill_line-valid :
      (xs : List D) (x last : D) (has : Bool)
      → is_nan x ≡ false
      → fill_line has last (x ∷ xs) ≡ x ∷ fill_line true x xs
  unfolding fill_line
  fill_line-valid xs x last has h = rw h refl

  fill_line-gap :
      (xs : List D) (x last : D)
      → is_nan x ≡ true
      → fill_line true last (x ∷ xs) ≡ last ∷ fill_line true last xs
  unfolding fill_line
  fill_line-gap xs x last h = rw h refl

  fill_line-none :
      (xs : List D) (x last : D)
      → is_nan x ≡ true
      → fill_line false last (x ∷ xs) ≡ x ∷ fill_line false last xs
  unfolding fill_line
  fill_line-none xs x last h = rw h refl

  NoneAfter-front :
      (xs : List D) (w : D) (i j : ℕ) → NoneAfter xs j i → NoneAfter (w ∷ xs) (suc j) (suc i)
  NoneAfter-front xs w i j gap zero z l m e = absurd (omega (arith, l))
  NoneAfter-front xs w i j gap (suc k) z l m e = gap k z (omega (arith, l)) (omega (arith, m)) e

  -- The index of an entry after one more was put behind the first.
  abbrev moved : ℕ → ℕ
  moved zero = 0
  moved (suc j) = suc (suc j)

  moved-lt : (j k : ℕ) → moved j < suc (suc k) → j < suc k
  moved-lt zero k l = omega arith
  moved-lt (suc j) k l = omega (arith, l)

  NoneAfter-gap :
      (xs : List D) (last x : D) (i j : ℕ)
      → is_nan x ≡ true
      → NoneAfter (last ∷ xs) j i
      → NoneAfter (last ∷ x ∷ xs) (moved j) (suc i)
  NoneAfter-gap xs last x i j h gap zero z l m e = absurd (omega (arith, l))
  NoneAfter-gap xs last x i j h gap (suc zero) z l m e = same_value x z true e h
  NoneAfter-gap xs last x i j h gap (suc (suc k)) z l m e =
      gap (suc k) z (moved-lt j k l) (omega (arith, m)) e

  LastValid-front :
      (xs : List D) (w : D) (i : ℕ) (y : D) (j : ℕ)
      → LastValid xs i y j
      → LastValid (w ∷ xs) (suc i) y (suc j)
  LastValid-front xs w i y j (at, v, l, gap) =
      (at, v, omega (arith, l), NoneAfter-front xs w i j gap)

  LastValid-gap :
      (xs : List D) (last x : D) (i : ℕ) (y : D) (j : ℕ)
      → is_nan x ≡ true
      → LastValid (last ∷ xs) i y j
      → (k : ℕ) × LastValid (last ∷ x ∷ xs) (suc i) y k
  LastValid-gap xs last x i y zero h (at, v, l, gap) =
      (0, (at, v, omega arith, NoneAfter-gap xs last x i 0 h gap))
  LastValid-gap xs last x i y (suc j) h (at, v, l, gap) =
      (suc (suc j), (at, v, omega (arith, l), NoneAfter-gap xs last x i (suc j) h gap))

  NoneAfter-start : (xs : List D) (i : ℕ) (j : ℕ) → i ≤ j → NoneAfter xs j i
  NoneAfter-start xs i j l k z m n e = absurd (omega (arith, l, m, n))

  fill_line-LastValid :
      (xs : List D) (last : D) (i : ℕ) (y : D)
      → is_nan last ≡ false
      → get_elem? (fill_line true last xs) i ≡ some y
      → (j : ℕ) × LastValid (last ∷ xs) (suc i) y j
  unfolding fill_line
  fill_line-LastValid [] last i y v e = absurd (ground (arith, e))
  fill_line-LastValid (x ∷ xs) last zero y v e = elim (Bool-cases (is_nan x)) [
    | inl h ↦
        let here = sym (ap (λ l. get_elem? l 0) (fill_line-gap xs x last h)) ∙ e in
        (
          0,
          (
            here,
            same_value last y false here v,
            omega arith,
            NoneAfter-gap xs last x 0 0 h (NoneAfter-start (last ∷ xs) 0 0 (omega arith)),
          ),
        )
    | inr h ↦
        let here = sym (ap (λ l. get_elem? l 0) (fill_line-valid xs x last true h)) ∙ e in
        (
          1,
          (
            here,
            same_value x y false here h,
            omega arith,
            NoneAfter-start (last ∷ x ∷ xs) 1 1 (omega arith),
          ),
        )
  ]
  fill_line-LastValid (x ∷ xs) last (suc i) y v e = elim (Bool-cases (is_nan x)) [
    | inl h ↦
        let here = sym (ap (λ l. get_elem? l (suc i)) (fill_line-gap xs x last h)) ∙ e in
        let (j, last_one) = fill_line-LastValid xs last i y v here in
        LastValid-gap xs last x (suc i) y j h last_one
    | inr h ↦
        let here = sym (ap (λ l. get_elem? l (suc i)) (fill_line-valid xs x last true h)) ∙ e in
        let (j, last_one) = fill_line-LastValid xs x i y h here in
        (suc j, LastValid-front (x ∷ xs) last (suc i) y j last_one)
  ]

  NoneUpTo-start : (xs : List D) (x : D) → is_nan x ≡ true → NoneUpTo (x ∷ xs) 0
  NoneUpTo-start xs x h zero z l e = same_value x z true e h
  NoneUpTo-start xs x h (suc k) z l e = absurd (omega (arith, l))

  NoneUpTo-front :
      (xs : List D) (x : D) (i : ℕ) → is_nan x ≡ true → NoneUpTo xs i → NoneUpTo (x ∷ xs) (suc i)
  NoneUpTo-front xs x i h gap zero z l e = same_value x z true e h
  NoneUpTo-front xs x i h gap (suc k) z l e = gap k z (omega (arith, l)) e

  -- Each entry of a filled column is the last valid value of the column up to that entry, or, where there is none, the
  -- entry itself.
  pub filled_entries :
      (xs : List D) (nought : D) (i : ℕ) (y : D)
      → get_elem? (fill_line false nought xs) i ≡ some y
      → ((j : ℕ) × LastValid xs i y j) ⊎ ((get_elem? xs i ≡ some y) × NoneUpTo xs i)
  unfolding fill_line
  filled_entries [] nought i y e = absurd (ground (arith, e))
  filled_entries (x ∷ xs) nought zero y e = elim (Bool-cases (is_nan x)) [
    | inl h ↦
        let here = sym (ap (λ l. get_elem? l 0) (fill_line-none xs x nought h)) ∙ e in
        inr (here, NoneUpTo-start xs x h)
    | inr h ↦
        let here = sym (ap (λ l. get_elem? l 0) (fill_line-valid xs x nought false h)) ∙ e in
        inl (
          0,
          (
            here,
            same_value x y false here h,
            omega arith,
            NoneAfter-start (x ∷ xs) 0 0 (omega arith),
          ),
        )
  ]
  filled_entries (x ∷ xs) nought (suc i) y e = elim (Bool-cases (is_nan x)) [
    | inl h ↦
        let here = sym (ap (λ l. get_elem? l (suc i)) (fill_line-none xs x nought h)) ∙ e in
        elim (filled_entries xs nought i y here) [
          | inl (j, found) ↦ inl (suc j, LastValid-front xs x i y j found)
          | inr (at, gap) ↦ inr (at, NoneUpTo-front xs x i h gap)
        ]
    | inr h ↦
        let here = sym (ap (λ l. get_elem? l (suc i)) (fill_line-valid xs x nought false h)) ∙ e in
        inl (fill_line-LastValid xs x i y h here)
  ]

-- ===== src/Tests/Grid.antt =====
-- A matrix library that meets what the proofs ask of one: matrices as lists of rows.
use cipher_trader.Prelude.{
  ℕ, Bool, ◌+◌, ◌≤◌, ◌≡◌, refl, ◌&&◌, none, List, [], ◌∷◌, ◌++◌, map, ltb, leb, ◌==◌, if◌then◌else◌,
  length, get_elem?, get_or, set, take, drop, replicate, Option-cases, inl, inr, length-replicate,
  or_fail, ok, err, invalid_argument, arith,
}
use cipher_trader.Prelude.Slices.{get_elem?-lt}
use cipher_trader.Blaze.{Blaze, IsBlaze}

pub record Grid (T : Type 0) : Type 0 where
  pub wide : ℕ
  pub lines : List (List T)

module _ {T : Type 0} (nought : T) (same : T → T → Bool) where
  abbrev pub zeros : ℕ → ℕ → Grid T
  zeros r c = record { wide = c; lines = replicate r (replicate c nought) }

  abbrev pub grid_of : Blaze T
  grid_of = record {
    Matrix = Grid T;
    nought = nought;
    same = same;
    matrix = zeros;
    resize = λ m r c. zeros r c;
    reset = λ m. zeros (length m.lines) m.wide;
    row_count = λ m. length m.lines;
    columns = λ m. m.wide;
    get_row = λ m i. or_fail (get_elem? m.lines i) invalid_argument;
    get_column = λ m i.
        if ltb i m.wide then ok (map (λ r. get_or r i nought) m.lines) else err invalid_argument;
    set_row = λ m i v.
        if ltb i (length m.lines) && length v == m.wide
        then ok (record m { lines = set m.lines i v })
        else err invalid_argument;
    copy_rows = λ m i s j n.
        if leb (i + n) (length m.lines) && leb (j + n) (length s.lines) && m.wide == s.wide
        then ok (record m {
          lines = take i m.lines ++ (take n (drop j s.lines) ++ drop (i + n) m.lines);
        })
        else err invalid_argument;
    copy_block = λ m i s n w.
        if leb (i + n) (length m.lines) && leb n (length s.lines) && m.wide == w && s.wide == w
        then ok (record m { lines = take i m.lines ++ (take n s.lines ++ drop (i + n) m.lines) })
        else err invalid_argument;
    submatrix = λ m i n.
        if leb (i + n) (length m.lines) then ok (take n (drop i m.lines)) else err invalid_argument;
  }

  pub length-map : (f : List T → T) (xs : List (List T)) → length (map f xs) ≡ length xs
  length-map f [] = refl
  length-map f (x ∷ xs) = omega (arith, length-map f xs)

  pub missing : (i : ℕ) (xs : List (List T)) → length xs ≤ i → get_elem? xs i ≡ none
  missing i xs h = elim (Option-cases (get_elem? xs i)) [
    | inl e ↦ e
    | inr (v, e) ↦ absurd (omega (arith, h, get_elem?-lt i xs v e))
  ]

  unfoldable pub grid_of-IsBlaze : IsBlaze grid_of
  grid_of-IsBlaze = record {
    rows = λ m. m.lines;
    row_count-eq = λ m. refl;
    matrix-shape = λ r c. (length-replicate r (replicate c nought), refl);
    resize-shape = λ m r c. (length-replicate r (replicate c nought), refl);
    rows-reset = λ m. refl;
    columns-reset = λ m. refl;
    get_row-ok = λ m i v h. ground (arith, h);
    get_row-err = λ m i h. ground (arith, missing i m.lines h);
    get_column-ok = λ m i h. (
      map (λ r. get_or r i nought) m.lines,
      ground (arith, h),
      length-map (λ r. get_or r i nought) m.lines,
    );
    get_column-err = λ m i h. ground (arith, h);
    set_row-ok =
        λ m i v h w. (record m { lines = set m.lines i v }, ground (arith, h, w), refl, refl);
    set_row-err = λ m i v h. ground (arith, h);
    copy_rows-ok = λ m i s j n h k w. (
      record m { lines = take i m.lines ++ (take n (drop j s.lines) ++ drop (i + n) m.lines) },
      ground (arith, h, k, w),
      refl,
      refl,
    );
    copy_block-ok = λ m i s n h k w. (
      record m { lines = take i m.lines ++ (take n s.lines ++ drop (i + n) m.lines) },
      ground (arith, h, k, w),
      refl,
      refl,
    );
    submatrix-ok = λ m i n h. ground (arith, h);
  }

abbrev pub grid : Blaze ℕ
grid = grid_of 0 ◌==◌

unfoldable pub grid-IsBlaze : IsBlaze grid
unfolding grid_of-IsBlaze
grid-IsBlaze = grid_of-IsBlaze 0 ◌==◌

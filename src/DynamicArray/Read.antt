-- ===== src/DynamicArray/Read.antt =====
-- The reads of the array, on the list of its rows.
use cipher_trader.Prelude.{
  ℕ, ◌+◌, ◌-◌, ◌≤◌, ◌<◌, ◌≡◌, refl, sym, ap, ◌∙◌, inl, inr, Option, none, some, Option-cases,
  Bool-cases, List, leb, if◌then◌else◌, arith, length, take, drop, get_elem?, length-take, Result,
  ok, err, out_of_range, or_fail,
}
use cipher_trader.Prelude.Int.{ℤ}
use cipher_trader.Prelude.Slices.{get_elem?-some, get_elem?-take, take-drop, take-take}
use cipher_trader.Blaze.{Blaze, IsBlaze}
use cipher_trader.DynamicArray.{
  DynamicArray, resolve, slice_start, slice_stop, row, get_last_item, get_past_item,
  rows as read_rows,
}
use cipher_trader.DynamicArray.View.{view, Inv}
use cipher_trader.DynamicArray.Delete.{resolve-lt}

module _ {T : Type 0} (b : Blaze T) (laws : IsBlaze b) where
  open b use {Matrix, get_row}
  open laws use {rows, get_row-ok, submatrix-ok}

  length-view : (a : DynamicArray Matrix) → Inv b laws a → length (view b laws a) ≡ a.count
  length-view a v = omega (arith, length-take a.count (rows a.contents), v.fits)

  -- A used row, read from the matrix
  used_row :
      (a : DynamicArray Matrix) (i : ℕ)
      → Inv b laws a
      → i < a.count
      → get_row a.contents i ≡ or_fail (get_elem? (view b laws a) i) out_of_range
  used_row a i v l =
      let (r, e) = get_elem?-some i (rows a.contents) (omega (arith, l, v.fits)) in
      get_row-ok a.contents i r e
      ∙ sym (ap (λ o. or_fail o out_of_range) (get_elem?-take a.count i (rows a.contents) l ∙ e))

  -- The optional element, of an optional index
  abbrev pub at_index : List (List T) → Option ℕ → Option (List T)
  at_index xs none = none
  at_index xs (some i) = get_elem? xs i

  -- The index of the row before the last one by `past`
  abbrev pub before_last : ℕ → ℕ → Option ℕ
  before_last count past = if leb count past then none else some (count - 1 - past)

  pub row_lem :
      (a : DynamicArray Matrix) (idx : ℤ)
      → Inv b laws a
      → row b idx a
        ≡ or_fail (at_index (view b laws a) (resolve (length (view b laws a)) idx)) out_of_range
  unfolding row
  row_lem a idx v = rw (length-view a v) (elim (Option-cases (resolve a.count idx)) [
    | inl e ↦ ground (arith, e)
    | inr (i, e) ↦
        let below = resolve-lt a.count idx i e in ground (arith, e, below, used_row a i v below)
  ])

  past_lem :
      (a : DynamicArray Matrix) (past : ℕ)
      → Inv b laws a
      → get_past_item b past a
        ≡ or_fail
            (at_index (view b laws a) (before_last (length (view b laws a)) past))
            out_of_range
  unfolding get_past_item
  past_lem a past v = rw (length-view a v) (elim (Bool-cases (leb a.count past)) [
    | inl e ↦ ground (arith, e)
    | inr e ↦ ground (arith, e, used_row a (a.count - 1 - past) v (ground (arith, e)))
  ])

  last_lem :
      (a : DynamicArray Matrix)
      → Inv b laws a
      → get_last_item b a
        ≡ or_fail (at_index (view b laws a) (before_last (length (view b laws a)) 0)) out_of_range
  unfolding get_last_item
  last_lem a v = rw (length-view a v) (elim (Bool-cases (leb a.count 0)) [
    | inl e ↦ ground (arith, e)
    | inr e ↦ ground (arith, e, used_row a (a.count - 1) v (ground (arith, e)))
  ])

  -- The slice of a list, where an empty slice is refused
  abbrev pub slice : ℕ → ℕ → List (List T) → Result (List (List T))
  slice from to xs = if leb to from then err out_of_range else ok (take (to - from) (drop from xs))

  slice_of_front :
      (k n m : ℕ) (xs : List (List T))
      → k + n ≤ m
      → take n (drop k xs) ≡ take n (drop k (take m xs))
  slice_of_front k n m xs h =
      take-drop k n (k + n) xs refl
      ∙ ap (drop k) (sym (take-take (k + n) m xs h))
      ∙ sym (take-drop k n (k + n) (take m xs) refl)

  slice_stop-le : (count : ℕ) (stop : ℤ) → slice_stop count stop ≤ count
  slice_stop-le count stop = ground arith

  rows_lem :
      (a : DynamicArray Matrix) (start stop : ℤ)
      → Inv b laws a
      → read_rows b start stop a
        ≡ slice
            (slice_start (length (view b laws a)) start)
            (slice_stop (length (view b laws a)) stop)
            (view b laws a)
  unfolding read_rows
  rows_lem a start stop v =
      let from = slice_start a.count start in
      let to = slice_stop a.count stop in
      let bound = slice_stop-le a.count stop in
      rw (length-view a v) (elim (Bool-cases (leb to from)) [
        | inl e ↦ ground (arith, e)
        | inr e ↦
            let inside : from + (to - from) ≤ a.count = ground (arith, e, bound) in
            let read = submatrix-ok a.contents from (to - from) (omega (arith, inside, v.fits)) in
            let same = slice_of_front from (to - from) a.count (rows a.contents) inside in
            ground (arith, e, inside, read, same)
      ])

  -- Every read of a well-formed array is the read of the list of its rows, oldest first: `row` and
  -- `operator[]` at an index that counts from the end if it is negative, the last row, the row a
  -- number of rows before the last one, and the slice between two such indices that are clamped. A
  -- read that names no row, and a slice without rows, throw `out_of_range`.
  pub reads_agree :
      (a : DynamicArray Matrix) (idx start stop : ℤ) (past : ℕ)
      → Inv b laws a
      → (row b idx a
          ≡ or_fail (at_index (view b laws a) (resolve (length (view b laws a)) idx)) out_of_range)
        × (get_last_item b a
            ≡ or_fail
                (at_index (view b laws a) (before_last (length (view b laws a)) 0))
                out_of_range)
        × (get_past_item b past a
            ≡ or_fail
                (at_index (view b laws a) (before_last (length (view b laws a)) past))
                out_of_range)
        × (read_rows b start stop a
            ≡ slice
                (slice_start (length (view b laws a)) start)
                (slice_stop (length (view b laws a)) stop)
                (view b laws a))
  reads_agree a idx start stop past v =
      (row_lem a idx v, last_lem a v, past_lem a past v, rows_lem a start stop v)

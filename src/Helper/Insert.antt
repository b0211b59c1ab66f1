-- ===== src/Helper/Insert.antt =====
-- src/Helper.cpp: `insertList`. The index `static_cast<size_t>(-1)` appends.
use cipher_trader.Prelude.{
  ℕ, zero, suc, ◌-◌, ◌^◌, ◌≤◌, ◌<◌, ◌≡◌, ◌≢◌, refl, List, [], ◌∷◌, ◌++◌, some, get_elem?, ltb, ◌==◌,
  if◌then◌else◌, take, drop, length, length-append, length-take, length-drop, dec_le, ℕ_discrete,
  ◌⊎◌, inl, inr, Result, ok, err, out_of_range, arith,
}

-- Where an element stands after an insertion
abbrev pub shifted : ℕ → ℕ → ℕ
shifted index i = if ltb i index then i else suc i

module _ {T : Type 0} where
  unfoldable pub insert_list : ℕ → T → List T → Result (List T)
  insert_list index item arr =
      if index == 2 ^ 64 - 1
      then ok (arr ++ (item ∷ []))
      else if ltb (length arr) index
      then err out_of_range
      else ok (take index arr ++ (item ∷ drop index arr))

  at_item :
      (i : ℕ) (item : T) (arr : List T)
      → i ≤ length arr
      → get_elem? (take i arr ++ (item ∷ drop i arr)) i ≡ some item
  at_item zero item arr h = refl
  at_item (suc i) item [] h = absurd (omega (arith, h))
  at_item (suc i) item (x ∷ arr) h = at_item i item arr (omega (arith, h))

  at_others :
      (i k : ℕ) (item : T) (arr : List T)
      → i ≤ length arr
      → get_elem? (take i arr ++ (item ∷ drop i arr)) (shifted i k) ≡ get_elem? arr k
  at_others zero k item arr h = ground arith
  at_others (suc i) k item [] h = absurd (omega (arith, h))
  at_others (suc i) zero item (x ∷ arr) h = ground arith
  at_others (suc i) (suc k) item (x ∷ arr) h =
      ground (arith, at_others i k item arr (omega (arith, h)))

  -- `insertList` on a list shorter than 2^64 - 1 does one of three things. At an index up to the
  -- length the item stands at that index in the answer, the elements from there on move up by one,
  -- and none is lost. At the index 2^64 - 1 the item stands behind the list. Every other index is
  -- refused.
  pub insert_list-places :
      (index : ℕ) (item : T) (arr : List T)
      → length arr < 2 ^ 64 - 1
      → ((ys : List T) × (index ≤ length arr)
          × (insert_list index item arr ≡ ok ys)
          × (length ys ≡ suc (length arr))
          × (get_elem? ys index ≡ some item)
          × ((k : ℕ) → get_elem? ys (shifted index k) ≡ get_elem? arr k))
        ⊎ ((index ≡ 2 ^ 64 - 1) × (insert_list index item arr ≡ ok (arr ++ (item ∷ []))))
        ⊎ ((length arr < index)
            × (index ≢ 2 ^ 64 - 1)
            × (insert_list index item arr ≡ err out_of_range))
  unfolding insert_list
  insert_list-places index item arr small = elim (dec_le index (length arr)) [
    | yes h ↦ inl (
      take index arr ++ (item ∷ drop index arr),
      h,
      ground (arith, small, h),
      omega (
        arith,
        h,
        length-append (take index arr) (item ∷ drop index arr),
        length-take index arr,
        length-drop index arr,
      ),
      at_item index item arr h,
      λ k. at_others index k item arr h,
    )
    | no n ↦ elim (ℕ_discrete index (2 ^ 64 - 1)) [
      | yes e ↦ inr (inl (e, ground (arith, e)))
      | no m ↦ inr (inr (omega (arith, n), m, ground (arith, n, m)))
    ]
  ]

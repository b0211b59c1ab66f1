-- ===== src/Helper/Levels.antt =====
-- src/Helper.cpp: `findOrderbookInsertionIndex` and `cleanOrderbookList`, on the levels of an order book. The
-- matrix is given by its first column, the prices.
use cipher_trader.Prelude.{
  ℕ, zero, suc, ◌+◌, ◌-◌, ◌/◌, ◌≤◌, ◌<◌, ◌≡◌, refl, sym, ap, subst, ◌∙◌, Bool, true, false, Option,
  none, some, List, [], ◌∷◌, length, get_or, ltb, ◌==◌, if◌then◌else◌, Result, ok, err,
  invalid_argument, and_then, arith, ◌⊎◌, inl, inr, Bool-cases,
}
use cipher_trader.Double.{Double}

module _ {ℓ} {B : Type ℓ} where
  -- An exception of `convert` is turned into `invalid_argument`.
  abbrev pub cleaned : Result B → Result B → Result (List B)
  cleaned (ok p) (ok q) = ok (p ∷ q ∷ [])
  cleaned (ok p) (err e) = err invalid_argument
  cleaned (err e) q = err invalid_argument

-- A level that an exchange sends, as a row of two numbers: further fields are left out.
abbrev pub clean_level {ℓ κ} : {A : Type ℓ} {B : Type κ} → (A → Result B) → List A → Result (List B)
clean_level convert [] = err invalid_argument
clean_level convert (price ∷ []) = err invalid_argument
clean_level convert (price ∷ qty ∷ more) = cleaned (convert price) (convert qty)

unfoldable pub clean_orderbook_list {ℓ κ} :
    {A : Type ℓ} {B : Type κ} → (A → Result B) → List (List A) → Result (List (List B))
clean_orderbook_list convert [] = ok []
clean_orderbook_list convert (inner ∷ arr) =
    and_then (clean_level convert inner)
      λ level. and_then (clean_orderbook_list convert arr) λ rest. ok (level ∷ rest)

module _ {D : Type 0} (d : Double D) (epsilon : D) where
  -- `std::abs(target - val) < epsilon`
  abbrev pub close : D → D → Bool
  close target price = d.lt (d.abs (d.sub target price)) epsilon

  -- The target lies behind a price, in the order of the book.
  abbrev pub behind : Bool → D → D → Bool
  behind true target price = d.lt price target
  behind false target price = d.lt target price

  -- The loop, on the number of rounds that are left, of which there are always enough. `arr(mid, 0)` is
  -- inside of the matrix.
  find_between : ℕ → List D → D → Bool → ℕ → ℕ → Option (Bool × ℕ)
  find_between zero arr target ascending lower upper = none
  find_between (suc n) arr target ascending lower upper =
      let mid = lower + (upper - lower) / 2 in
      let price = get_or arr mid d.nought in
      let right = find_between n arr target ascending mid upper in
      let left = find_between n arr target ascending lower mid in
      if ltb lower upper
      then (if close target price
          then some (true, mid)
          else if behind ascending target price
          then (if lower == mid then some (false, lower + 1) else right)
          else if lower == mid
          then some (false, lower)
          else left)
      else some (false, lower)

  unfoldable pub find_orderbook_insertion_index : List D → D → Bool → Option (Bool × ℕ)
  unfolding find_between
  find_orderbook_insertion_index arr target ascending =
      find_between (length arr + 1) arr target ascending 0 (length arr)

  -- The target stands at the index, or belongs there: it lies behind the price before the index, if
  -- there is one, and not behind the price at the index, if there is one.
  abbrev pub Fits : List D → D → Bool → Bool → ℕ → Type 0
  Fits arr target ascending true i =
      (i < length arr) × (close target (get_or arr i d.nought) ≡ true)
  Fits arr target ascending false i =
      (i ≤ length arr)
      × ((i ≡ 0) ⊎ (behind ascending target (get_or arr (i - 1) d.nought) ≡ true))
      × ((i ≡ length arr) ⊎ (behind ascending target (get_or arr i d.nought) ≡ false))

  -- The middle lies in the range, and is its start only if the range has one level.
  middle_lem :
      (lower upper : ℕ)
      → lower < upper
      → (lower ≤ lower + (upper - lower) / 2)
        × (lower + (upper - lower) / 2 < upper)
        × (((lower == lower + (upper - lower) / 2) ≡ true)
            → (upper ≡ lower + 1) × (lower + (upper - lower) / 2 ≡ lower + 1 - 1))
  middle_lem lower upper o =
      (omega arith, omega (arith, o), λ next. (ground (arith, o, next), ground (arith, o, next)))

  find_between-Fits :
      (n : ℕ) (arr : List D) (target : D) (ascending : Bool) (lower upper : ℕ)
      → upper - lower < n
      → lower < upper
      → upper ≤ length arr
      → (lower ≡ 0) ⊎ (behind ascending target (get_or arr lower d.nought) ≡ true)
      → (upper ≡ length arr) ⊎ (behind ascending target (get_or arr upper d.nought) ≡ false)
      → (found : Bool) × (i : ℕ) × (find_between n arr target ascending lower upper
          ≡ some (found, i))
        × Fits arr target ascending found i
  unfolding find_between
  find_between-Fits zero arr target ascending lower upper f o w l u = absurd (omega (arith, f))
  find_between-Fits (suc n) arr target ascending lower upper f o w l u =
      let mid = lower + (upper - lower) / 2 in
      let price = get_or arr mid d.nought in
      let (above, below, one) = middle_lem lower upper o in
      let apart : ltb lower upper ≡ true = ground (arith, o) in
      elim (Bool-cases (close target price)) [
        | inl here ↦ (true, mid, rw (apart, here) refl, (omega (arith, below, w), here))
        | inr away ↦ elim (Bool-cases (behind ascending target price)) [
          | inl up ↦ elim (Bool-cases (lower == mid)) [
            | inl next ↦
                let (next_one, itself) = one next in
                (
                  false,
                  lower + 1,
                  rw (apart, away, up, next) refl,
                  (
                    omega (arith, next_one, w),
                    inr (
                        subst (λ (k : ℕ). behind ascending target (get_or arr k d.nought) ≡ true)
                          itself up),
                    subst
                        (λ (k : ℕ).
                          (k ≡ length arr)
                          ⊎ (behind ascending target (get_or arr k d.nought) ≡ false))
                        next_one u,
                  ),
                )
            | inr far ↦
                let (found, i, e, fits) =
                  find_between-Fits n arr target ascending mid upper
                    (ground (arith, f, far, above, below)) below w (inr up) u in
                (found, i, rw (apart, away, up, far) e, fits)
          ]
          | inr down ↦ elim (Bool-cases (lower == mid)) [
            | inl next ↦
                let (next_one, itself) = one next in
                let at_lower = λ (k : ℕ).
                  (k ≡ length arr) ⊎ (behind ascending target (get_or arr k d.nought) ≡ false) in
                let same : mid ≡ lower = ground (arith, itself) in
                (
                  false,
                  lower,
                  rw (apart, away, down, next) refl,
                  (
                    omega (arith, o, w),
                    elim l [
                      | inl e ↦ inl e
                      | inr b ↦
                          let again : true ≡ false =
                            sym b
                            ∙ sym (ap (λ k. behind ascending target (get_or arr k d.nought)) same)
                            ∙ down in
                          ground (arith, again)
                    ],
                    subst at_lower same (inr down),
                  ),
                )
            | inr far ↦
                let (found, i, e, fits) =
                  find_between-Fits n arr target ascending lower mid (ground (arith, f, below))
                    (ground (arith, far, above)) (omega (arith, below, w)) l (inr down) in
                (found, i, rw (apart, away, down, far) e, fits)
          ]
        ]
      ]

  -- The search for the level of a price ends on every list, and the index is in the list if the price is there
  -- (within epsilon); else it is at most the length, the price lies behind the level before the index,
  -- if there is one, and it does not lie behind the level at the index, if there is one. Nothing is assumed of the
  -- order of the list.
  pub insertion_index-Fits :
      (arr : List D) (target : D) (ascending : Bool)
      → (found : Bool) × (i : ℕ) × (find_orderbook_insertion_index arr target ascending
          ≡ some (found, i))
        × Fits arr target ascending found i
  unfolding find_between find_orderbook_insertion_index
  insertion_index-Fits [] target ascending = (false, 0, refl, (omega arith, inl refl, inl refl))
  insertion_index-Fits (x ∷ arr) target ascending =
      find_between-Fits (length (x ∷ arr) + 1) (x ∷ arr) target ascending 0 (length (x ∷ arr))
        (omega arith) (omega arith) (omega arith) (inl refl) (inl refl)

-- ===== src/Helper/Search.antt =====
-- src/Helper.cpp: `binarySearch`. `right` stands for the code's `right + 1`, so that it is never
-- negative; sizes are taken to fit an `int`. The fuel is the number of rounds; without a result the
-- loop is not at its end after them.
use cipher_trader.Prelude.Slices.{get_elem?-some, get_elem?-lt}
use cipher_trader.Prelude.{
  dec_lt, ℕ_discrete, Bool-cases, ℕ, zero, suc, ◌+◌, ◌-◌, ◌/◌, ◌≤◌, ◌<◌, ◌≡◌, ◌≢◌, ap, ◌∙◌, Bool,
  true, false, List, Option, none, some, get_elem?, length, ltb, if◌then◌else◌, Result, ok, err,
  bad_access, ◌⊎◌, inl, inr, arith,
}

-- The comparisons `<` and `==` of the elements
pub record Ordering (T : Type 0) : Type 0 where
  pub lt : T → T → Bool
  pub eq : T → T → Bool

module _ {T : Type 0} (o : Ordering T) where
  pub search : ℕ → List T → T → ℕ → ℕ → Option (Result (Option ℕ))
  search zero arr item left right = if ltb left right then none else some (ok none)
  search (suc fuel) arr item left right =
      let mid = left + (right - 1 - left) / 2 in
      let rest : T → Option (Result (Option ℕ)) = λ x.
        search fuel arr item (if o.lt x item then mid + 1 else left)
          (if o.lt x item then right else mid) in
      if ltb left right
      then elim (get_elem? arr mid) [
        | none ↦ some (err bad_access)
        | some x ↦ if o.eq x item then some (ok (some mid)) else rest x
      ]
      else some (ok none)

  unfoldable pub binary_search : List T → T → Option (Result (Option ℕ))
  unfolding search
  binary_search arr item = search (length arr) arr item 0 (length arr)

  -- A strict total order, and the equality of the elements
  pub record IsTotal : Type 0 where
    pub eq_sound : (x y : T) → o.eq x y ≡ true → x ≡ y
    pub eq_refl : (x : T) → o.eq x x ≡ true
    pub lt_irrefl : (x : T) → o.lt x x ≡ false
    pub lt_trans : (x y z : T) → o.lt x y ≡ true → o.lt y z ≡ true → o.lt x z ≡ true
    pub lt_total : (x y : T) → o.eq x y ≡ false → o.lt x y ≡ false → o.lt y x ≡ true

  abbrev pub Sorted : List T → Type 0
  Sorted arr =
      (i j : ℕ) (x y : T)
      → i < j
      → get_elem? arr i ≡ some x
      → get_elem? arr j ≡ some y
      → o.lt y x ≡ false

  abbrev Absent : List T → T → ℕ → ℕ → Type 0
  Absent arr item left right = (k : ℕ) → left ≤ k → k < right → get_elem? arr k ≢ some item

  abbrev Outcome : Option (Result (Option ℕ)) → List T → T → ℕ → ℕ → Type 0
  Outcome r arr item left right =
      ((i : ℕ) × (r ≡ some (ok (some i))) × (get_elem? arr i ≡ some item))
      ⊎ ((r ≡ some (ok none)) × Absent arr item left right)

  module _ (total : IsTotal) (arr : List T) (item : T) (sorted : Sorted arr) where
    -- A value below the item leaves only what stands behind it.
    above :
        (mid : ℕ) (x : T) (left right : ℕ)
        → get_elem? arr mid ≡ some x
        → o.lt x item ≡ true
        → Absent arr item (mid + 1) right
        → Absent arr item left right
    above mid x left right e h none_above k l r g = elim (ℕ_discrete k mid) [
      | yes q ↦ cc (total.lt_irrefl item)
      | no n ↦ elim (dec_lt mid k) [
        | yes b ↦ none_above k (omega arith) r g
        | no m ↦ cc (sorted k mid item x (omega arith) g e, h)
      ]
    ]

    below :
        (mid : ℕ) (x : T) (left right : ℕ)
        → get_elem? arr mid ≡ some x
        → o.lt item x ≡ true
        → Absent arr item left mid
        → Absent arr item left right
    below mid x left right e h none_below k l r g = elim (ℕ_discrete k mid) [
      | yes q ↦ cc (total.lt_irrefl item)
      | no n ↦ elim (dec_lt k mid) [
        | yes b ↦ none_below k l (omega arith) g
        | no m ↦ cc (sorted mid k x item (omega arith) e g, h)
      ]
    ]

    search_lem :
        (fuel left right : ℕ)
        → right ≤ length arr
        → right ≤ left + fuel
        → Outcome (search fuel arr item left right) arr item left right
    unfolding search
    search_lem zero left right h f =
        inr (ground (arith, h, f), λ k l r g. omega (arith, h, f, l, r))
    search_lem (suc fuel) left right h f = elim (dec_lt left right) [
      | no n ↦ inr (ground (arith, n), λ k a b g. omega (arith, n, a, b))
      | yes l ↦
          let mid = left + (right - 1 - left) / 2 in
          let (x, e) = get_elem?-some mid arr (omega (arith, l, h)) in
          elim (Bool-cases (o.eq x item)) [
            | inl q ↦ inl (mid, ground (arith, l, e, q), e ∙ ap some (total.eq_sound x item q))
            | inr q ↦ elim (Bool-cases (o.lt x item)) [
              | inl b ↦ elim (search_lem fuel (mid + 1) right h (omega (arith, f, l))) [
                | inl (i, p, g) ↦ inl (i, ground (arith, l, e, q, b, p), g)
                | inr (p, gap) ↦ inr (ground (arith, l, e, q, b, p), above mid x left right e b gap)
              ]
              | inr b ↦
                  elim (search_lem fuel left mid (omega (arith, h, l)) (omega (arith, f, l))) [
                    | inl (i, p, g) ↦ inl (i, ground (arith, l, e, q, b, p), g)
                    | inr (p, gap) ↦ inr (
                      ground (arith, l, e, q, b, p),
                      below mid x left right e (total.lt_total x item q b) gap,
                    )
                  ]
            ]
          ]
    ]

    -- `binarySearch` on a sorted vector, in a total order, ends after at most as many rounds as the
    -- vector has elements, and never reads out of bounds. An index that it answers is a position of
    -- the item, and where it answers -1 the item stands nowhere.
    pub binary_search_correct :
        ((i : ℕ) × (binary_search arr item ≡ some (ok (some i))) × (get_elem? arr i ≡ some item))
        ⊎ ((binary_search arr item ≡ some (ok none)) × ((k : ℕ) → get_elem? arr k ≢ some item))
    unfolding binary_search
    binary_search_correct =
        elim (search_lem (length arr) 0 (length arr) (omega arith) (omega arith)) [
          | inl found ↦ inl found
          | inr (e, gap) ↦ inr (e, λ k g. gap k (omega arith) (get_elem?-lt k arr item g) g)
        ]

-- ===== src/Indicators/Averages/Windows.antt =====
-- src/Indicator.cpp: the sums of `sma` over the valid values of a window that slides
use cipher_trader.Prelude.{
  ℕ, zero, suc, ◌+◌, ◌-◌, ◌<◌, ◌≡◌, refl, ap, subst, ◌∙◌, Bool, true, false, not, List, [], ◌∷◌,
  ◌++◌, length, take, drop, keep_if, ltb, if◌then◌else◌, length-append, Bool-cases, inl, inr, arith,
}
use cipher_trader.Prelude.Int.{ℤ}
use cipher_trader.Double.{Double}
use cipher_trader.Indicators.{entry, is_nan, number}
use cipher_trader.Indicators.Loops.{sum_from, sum_from-append, take-next}
use cipher_trader.Indicators.Averages.{Sliding, slid, valid}

module _ {D : Type 0} (d : Double D) (of_int : ℤ → D) (nan : D) where
  -- The valid values of a window, and their mean
  abbrev pub valid_values : List D → ℕ → ℕ → List D
  valid_values arr start period = keep_if (λ x. not (is_nan d x)) (take period (drop start arr))

  abbrev pub mean : List D → D
  mean [] = nan
  mean (x ∷ xs) = d.div (sum_from d.add d.nought (x ∷ xs)) (number of_int (length (x ∷ xs)))

  -- The window that ends at index `j`
  abbrev pub mean_at : List D → ℕ → ℕ → D
  mean_at arr period j =
      if ltb (j + 1) period then nan else mean (valid_values arr (j + 1 - period) period)

  drop-entry :
      (arr : List D) (s : ℕ) → s < length arr → drop s arr ≡ entry nan arr s ∷ drop (suc s) arr
  drop-entry [] s l = absurd (omega (arith, l))
  drop-entry (x ∷ arr) zero l = refl
  drop-entry (x ∷ arr) (suc s) l = drop-entry arr s (omega (arith, l))

  keep_if-append :
      (p : D → Bool) (xs ys : List D) → keep_if p (xs ++ ys) ≡ keep_if p xs ++ keep_if p ys
  keep_if-append p [] ys = refl
  keep_if-append p (x ∷ xs) ys = ground (arith, keep_if-append p xs ys)

  take-drop_next :
      (arr : List D) (s q i : ℕ)
      → i ≡ s + q
      → i < length arr
      → take (suc q) (drop s arr) ≡ take q (drop s arr) ++ (entry nan arr i ∷ [])
  take-drop_next [] s q i e l = absurd (omega (arith, l))
  take-drop_next (x ∷ arr) zero q i e l =
      subst (λ k. take (suc q) (x ∷ arr) ≡ take q (x ∷ arr) ++ (entry nan (x ∷ arr) k ∷ []))
        (omega (arith, e)) (take-next nan (x ∷ arr) q (omega (arith, e, l)))
  take-drop_next (x ∷ arr) (suc s) q zero e l = absurd (omega (arith, e))
  take-drop_next (x ∷ arr) (suc s) q (suc i) e l =
      take-drop_next arr s q i (omega (arith, e)) (omega (arith, l))

  -- The first value of a window, and the value behind it
  abbrev one : List D → ℕ → List D
  one arr i = keep_if (λ x. not (is_nan d x)) (entry nan arr i ∷ [])

  append_nil : (xs : List D) → xs ++ [] ≡ xs
  append_nil [] = refl
  append_nil (x ∷ xs) = ap (λ t. x ∷ t) (append_nil xs)

  one-valid :
      (arr : List D) (i : ℕ) → valid d of_int nan arr i ≡ true → one arr i ≡ entry nan arr i ∷ []
  one-valid arr i b = ground (arith, b)

  one-none : (arr : List D) (i : ℕ) → valid d of_int nan arr i ≡ false → one arr i ≡ []
  one-none arr i b = ground (arith, b)

  window_front :
      (arr : List D) (s q : ℕ)
      → s < length arr
      → valid_values arr s (suc q) ≡ one arr s ++ valid_values arr (suc s) q
  window_front arr s q l =
      ap (λ t. keep_if (λ x. not (is_nan d x)) (take (suc q) t)) (drop-entry arr s l)
      ∙ keep_if-append (λ x. not (is_nan d x)) (entry nan arr s ∷ []) (take q (drop (suc s) arr))

  window_back :
      (arr : List D) (s q i : ℕ)
      → i ≡ s + q
      → i < length arr
      → valid_values arr s (suc q) ≡ valid_values arr s q ++ one arr i
  window_back arr s q i e l =
      ap (keep_if (λ x. not (is_nan d x))) (take-drop_next arr s q i e l)
      ∙ keep_if-append (λ x. not (is_nan d x)) (take q (drop s arr)) (entry nan arr i ∷ [])

  abbrev pub total : List D → ℕ → ℕ → D
  total arr s p = sum_from d.add d.nought (valid_values arr s p)

  abbrev pub count : List D → ℕ → ℕ → ℕ
  count arr s p = length (valid_values arr s p)

  pub total_back :
      (arr : List D) (s q i : ℕ)
      → i ≡ s + q
      → i < length arr
      → (total arr s (suc q) ≡ (
          if valid d of_int nan arr i
          then d.add (total arr s q) (entry nan arr i)
          else total arr s q))
        × (count arr s (suc q)
            ≡ (if valid d of_int nan arr i then count arr s q + 1 else count arr s q))
  total_back arr s q i e l = elim (Bool-cases (valid d of_int nan arr i)) [
    | inl b ↦
        let grown =
          window_back arr s q i e l ∙ ap (λ r. valid_values arr s q ++ r) (one-valid arr i b) in
        rw (b, grown)
          (
            sum_from-append d.add d.nought (valid_values arr s q) (entry nan arr i),
            length-append (valid_values arr s q) (entry nan arr i ∷ []),
          )
    | inr b ↦
        let same =
          window_back arr s q i e l
          ∙ ap (λ r. valid_values arr s q ++ r) (one-none arr i b)
          ∙ append_nil (valid_values arr s q) in
        rw (b, same) (refl, refl)
  ]

  -- No rounding when a value leaves a window: the sum of each window of the vector, less its first
  -- value, is the sum of its other values.
  abbrev pub CanSlide : List D → ℕ → Type 0
  CanSlide arr period =
      (s : ℕ)
      → s + period < length arr
      → valid d of_int nan arr s ≡ true
      → d.sub (total arr s period) (entry nan arr s) ≡ total arr (suc s) (period - 1)

  count_front :
      (arr : List D) (s q : ℕ)
      → s < length arr
      → count arr s (suc q)
        ≡ (if valid d of_int nan arr s then count arr (suc s) q + 1 else count arr (suc s) q)
  count_front arr s q l = elim (Bool-cases (valid d of_int nan arr s)) [
    | inl b ↦
        let rest = valid_values arr (suc s) q in
        let grown = window_front arr s q l ∙ ap (λ r. r ++ rest) (one-valid arr s b) in
        rw (b, grown) (omega arith)
    | inr b ↦
        let same =
          window_front arr s q l ∙ ap (λ r. r ++ valid_values arr (suc s) q) (one-none arr s b) in
        rw (b, same) refl
  ]

  total_front :
      (arr : List D) (s q : ℕ)
      → s < length arr
      → valid d of_int nan arr s ≡ false
      → total arr s (suc q) ≡ total arr (suc s) q
  total_front arr s q l b =
      ap (sum_from d.add d.nought)
        (window_front arr s q l ∙ ap (λ r. r ++ valid_values arr (suc s) q) (one-none arr s b))

  pub slid_lem :
      (arr : List D) (p q s i : ℕ) (t : Sliding D)
      → CanSlide arr p
      → p ≡ suc q
      → i ≡ s + p
      → i < length arr
      → t.sum ≡ total arr s p
      → t.valid_count ≡ count arr s p
      → let t' = slid d of_int nan arr p i t in
        (t'.sum ≡ total arr (suc s) p) × (t'.valid_count ≡ count arr (suc s) p)
  slid_lem arr p q s i t exact e f l a b =
      let old : i - p ≡ s = omega (arith, f) in
      let less : p - 1 ≡ q = omega (arith, e) in
      let (back, more) = total_back arr (suc s) q i (omega (arith, e, f)) l in
      let fewer = count_front arr s q (omega (arith, e, f, l)) in
      let a' : t.sum ≡ total arr s (suc q) = a ∙ ap (total arr s) e in
      let b' : t.valid_count ≡ count arr s (suc q) = b ∙ ap (count arr s) e in
      elim (Bool-cases (valid d of_int nan arr s)) [
        | inl v ↦
            let gone : d.sub t.sum (entry nan arr s) ≡ total arr (suc s) q =
              ap (λ u. d.sub u (entry nan arr s)) a
              ∙ exact s (omega (arith, f, l)) v
              ∙ ap (total arr (suc s)) less in
            rw (old, e) (ground (arith, v, gone, b', back, more, fewer))
        | inr v ↦
            let front = total_front arr s q (omega (arith, e, f, l)) v in
            rw (old, e) (ground (arith, v, a', b', back, more, front, fewer))
      ]

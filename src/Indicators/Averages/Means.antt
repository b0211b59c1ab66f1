-- ===== src/Indicators/Averages/Means.antt =====
-- src/Indicator.cpp: `sma` against the mean of the valid values of each window
use cipher_trader.Prelude.{
  ℕ, zero, suc, ◌+◌, ◌-◌, ◌≤◌, ◌<◌, ◌≡◌, refl, ap, subst, ◌∙◌, false, List, [], ◌∷◌, length,
  replicate, ltb, ◌==◌, if◌then◌else◌, length-set, length-replicate, Bool-cases, inl, inr, arith,
}
use cipher_trader.Prelude.Int.{ℤ}
use cipher_trader.Double.{Double}
use cipher_trader.Indicators.{for_range, entry, number}
use cipher_trader.Indicators.Loops.{entry-set, entry-replicate, sum_from}
use cipher_trader.Indicators.Averages.{Sliding, sma, slide, slid, add_valid, write_average}
use cipher_trader.Indicators.Averages.Windows.{
  CanSlide, valid_values, total, count, mean, mean_at, total_back, slid_lem,
}

module _ {D : Type 0} (d : Double D) (of_int : ℤ → D) (nan : D) where
  mean_lem :
      (w : List D)
      → mean d of_int nan w ≡ (
          if ltb 0 (length w)
          then d.div (sum_from d.add d.nought w) (number of_int (length w))
          else nan)
  mean_lem [] = refl
  mean_lem (x ∷ w) = ground arith

  -- The entries before index `i` are written, with a window that begins at `s`.
  record Written (arr : List D) (p s i : ℕ) (t : Sliding D) : Type 0 where
    sum : t.sum ≡ total d of_int nan arr s p
    number_of : t.valid_count ≡ count d of_int nan arr s p
    size : length t.result ≡ length arr
    result :
        (j : ℕ) → entry nan t.result j ≡ (if ltb j i then mean_at d of_int nan arr p j else nan)

  abbrev average : Sliding D → D
  average t = d.div t.sum (number of_int t.valid_count)

  average-mean :
      (arr : List D) (p s i : ℕ) (t : Sliding D)
      → i + 1 ≡ s + p
      → Written arr p s i t
      → mean_at d of_int nan arr p i ≡ (if ltb 0 t.valid_count then average t else nan)
  average-mean arr p s i t e w =
      let start : i + 1 - p ≡ s = omega (arith, e) in
      let inside : ltb (i + 1) p ≡ false = ground (arith, e) in
      rw (inside, start, w.sum, w.number_of) (mean_lem (valid_values d of_int nan arr s p))

  entry_of_average :
      (arr : List D) (p s i : ℕ) (t : Sliding D)
      → i + 1 ≡ s + p
      → i < length arr
      → Written arr p s i t
      → (j : ℕ)
      → entry nan ((write_average d of_int nan i t).result) j
        ≡ (if ltb j (suc i) then mean_at d of_int nan arr p j else nan)
  entry_of_average arr p s i t e l w j = elim (Bool-cases (j == i)) [
    | inl h ↦
        let here : i ≡ j = ground (arith, h) in
        let at = λ (k : ℕ).
          entry nan ((write_average d of_int nan i t).result) k
          ≡ (if ltb k (suc i) then mean_at d of_int nan arr p k else nan) in
        subst at here (
          ground (
            arith,
            average-mean arr p s i t e w,
            entry-set nan t.result i (average t) i,
            w.size,
            w.result i,
            l,
          ))
    | inr h ↦ ground (arith, h, entry-set nan t.result i (average t) j, w.result j)
  ]

  write_average-Written :
      (arr : List D) (p s i : ℕ) (t : Sliding D)
      → i + 1 ≡ s + p
      → i < length arr
      → Written arr p s i t
      → Written arr p s (suc i) (write_average d of_int nan i t)
  write_average-Written arr p s i t e l w = record {
    sum = ground (arith, w.sum);
    number_of = ground (arith, w.number_of);
    size = ground (arith, w.size, length-set t.result i (average t));
    result = λ j. entry_of_average arr p s i t e l w j;
  }

  sums_loop :
      (arr : List D) (n i : ℕ) (t : Sliding D)
      → i + n ≤ length arr
      → t.sum ≡ total d of_int nan arr 0 i
      → t.valid_count ≡ count d of_int nan arr 0 i
      → let t' = for_range n i (add_valid d of_int nan arr) t in
        (t'.sum ≡ total d of_int nan arr 0 (i + n))
        × (t'.valid_count ≡ count d of_int nan arr 0 (i + n))
        × (t'.result ≡ t.result)
  unfolding for_range
  sums_loop arr zero i t l a b = let same : i + 0 ≡ i = omega arith in rw same (a, b, refl)
  sums_loop arr (suc n) i t l a b =
      let (sum, number) = total_back d of_int nan arr 0 i i (omega arith) (omega (arith, l)) in
      let next : suc i + n ≡ i + suc n = omega arith in
      let (c, e, f) =
        sums_loop arr n (suc i) (add_valid d of_int nan arr i t) (omega (arith, l))
          (ground (arith, a, sum)) (ground (arith, b, number)) in
      (
        c ∙ ap (total d of_int nan arr 0) next,
        e ∙ ap (count d of_int nan arr 0) next,
        f ∙ ground arith,
      )

  abbrev nothing_yet : List D → Sliding D
  nothing_yet arr = record { sum = d.nought; valid_count = 0; result = replicate (length arr) nan }

  abbrev summed : List D → ℕ → Sliding D
  summed arr p = for_range p 0 (add_valid d of_int nan arr) (nothing_yet arr)

  abbrev first_written : List D → ℕ → Sliding D
  first_written arr p = write_average d of_int nan (p - 1) (summed arr p)

  first-Written :
      (arr : List D) (p : ℕ) → 0 < p → p ≤ length arr → Written arr p 0 p (first_written arr p)
  first-Written arr p o l =
      let (sum, number, kept) = sums_loop arr p 0 (nothing_yet arr) (omega (arith, l)) refl refl in
      let all : 0 + p ≡ p = omega arith in
      let before : Written arr p 0 (p - 1) (summed arr p) = record {
        sum = sum ∙ ap (total d of_int nan arr 0) all;
        number_of = number ∙ ap (count d of_int nan arr 0) all;
        size = ap length kept ∙ length-replicate (length arr) nan;
        result =
            λ j. ap (λ v. entry nan v j) kept ∙ entry-replicate nan (length arr) j ∙ ground arith;
      } in
      subst (λ i. Written arr p 0 i (first_written arr p)) (omega (arith, o))
        (write_average-Written arr p 0 (p - 1) (summed arr p) (omega (arith, o))
          (omega (arith, o, l)) before)

  slide_loop :
      (arr : List D) (p n s i : ℕ) (t : Sliding D)
      → CanSlide d of_int nan arr p
      → 0 < p
      → i ≡ s + p
      → i + n ≡ length arr
      → Written arr p s i t
      → (j : ℕ) → j < length arr
      → entry nan ((for_range n i (slide d of_int nan arr p) t).result) j
        ≡ mean_at d of_int nan arr p j
  unfolding for_range
  slide_loop arr p zero s i t exact o e f w j l = w.result j ∙ ground (arith, f, l)
  slide_loop arr p (suc n) s i t exact o e f w j l =
      let (sum, number) =
        slid_lem d of_int nan arr p (p - 1) s i t exact (omega (arith, o)) e (omega (arith, f))
          w.sum w.number_of in
      let moved : Written arr p (suc s) i (slid d of_int nan arr p i t) = record {
        sum = sum;
        number_of = number;
        size = ground (arith, w.size);
        result = λ k. ground (arith, w.result k);
      } in
      slide_loop arr p n (suc s) (suc i) (slide d of_int nan arr p i t) exact o (omega (arith, e))
        (omega (arith, f))
        (write_average-Written arr p (suc s) i (slid d of_int nan arr p i t) (omega (arith, e))
          (omega (arith, f)) moved)
        j l

  -- For a positive period each entry of `sma` is the mean of the values other than NaN in the window that
  -- ends there: NaN, if the window does not lie in the vector or has no such value. This asks, of the values
  -- of this vector only, that no rounding happens when a value leaves a window: that the sum of the window
  -- less its first value is the sum of its other values.
  pub sma_means :
      (arr : List D) (period j : ℕ)
      → CanSlide d of_int nan arr period
      → 0 < period
      → j < length arr
      → entry nan (sma d of_int nan arr period) j ≡ mean_at d of_int nan arr period j
  unfolding sma
  sma_means arr period j exact o l = elim (Bool-cases (ltb (length arr) period)) [
    | inl short ↦ rw short (entry-replicate nan (length arr) j ∙ ground (arith, short, l))
    | inr long ↦ rw long (
        slide_loop arr period (length arr - period) 0 period (first_written arr period) exact o
          (omega arith) (ground (arith, long)) (first-Written arr period o (ground (arith, long))) j
          l)
  ]

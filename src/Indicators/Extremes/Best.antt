-- ===== src/Indicators/Extremes/Best.antt =====
-- src/Indicator.cpp: what the loops over a window find
use cipher_trader.Prelude.{
  ℕ, zero, suc, ◌+◌, ◌<◌, ◌≡◌, ap, sym, subst, Bool, true, false, List, if◌then◌else◌, ◌==◌,
  Bool-cases, inl, inr, arith,
}
use cipher_trader.Prelude.Int.{ℤ}
use cipher_trader.Double.{Double}
use cipher_trader.Indicators.{for_range, entry}
use cipher_trader.Indicators.Extremes.{Extremes, extremes, compare_at}

-- The order of the numbers, NaN included: IEEE 754 gives both.
pub record IsStrict {D : Type 0} (d : Double D) : Type 0 where
  pub lt-irrefl : (x : D) → d.lt x x ≡ false
  pub lt-trans : (x y z : D) → d.lt x y ≡ true → d.lt y z ≡ true → d.lt x z ≡ true

up_to : (P : ℕ → Type 0) (n : ℕ) → ((k : ℕ) → k < n → P k) → P n → (k : ℕ) → k < suc n → P k
up_to P n before here k l = elim (Bool-cases (k == n)) [
  | inl b ↦ subst P (ground (arith, b)) here
  | inr b ↦ before k (ground (arith, b, l))
]

-- Index `i` of a window that begins at `start` has the best value among the first `n`: none is better.
module _ {D : Type 0} (better : D → D → Bool) (nan : D) where
  abbrev pub IsBest : List D → ℕ → ℕ → ℕ → Type 0
  IsBest v start n i =
      (i < n)
      × ((k : ℕ) → k < n → better (entry nan v (start + k)) (entry nan v (start + i)) ≡ false)

  module _ (irrefl : (x : D) → better x x ≡ false)
      (trans : (x y z : D) → better x y ≡ true → better y z ≡ true → better x z ≡ true) where
    still_worse : (x y z : D) → better y x ≡ true → better z x ≡ false → better z y ≡ false
    still_worse x y z h g = elim (Bool-cases (better z y)) [
      | inl b ↦ ground (arith, g, trans z y x b h)
      | inr b ↦ b
    ]

    IsBest-first : (v : List D) (start : ℕ) → IsBest v start 1 0
    IsBest-first v start = (
      omega arith,
      λ k l. let first : k ≡ 0 = omega (arith, l) in rw first (irrefl (entry nan v (start + 0))),
    )

    IsBest-next :
        (v : List D) (start n i : ℕ)
        → IsBest v start n i
        → IsBest v start
            (suc n)
            (if better (entry nan v (start + n)) (entry nan v (start + i)) then n else i)
    IsBest-next v start n i (l, h) =
        let at = λ (k : ℕ). entry nan v (start + k) in
        elim (Bool-cases (better (at n) (at i))) [
          | inl b ↦ rw b (
            omega arith,
            up_to (λ k. better (at k) (at n) ≡ false) n
                (λ k m. still_worse (at i) (at n) (at k) b (h k m)) (irrefl (at n)),
          )
          | inr b ↦ rw b (omega (arith, l), up_to (λ k. better (at k) (at i) ≡ false) n h b)
        ]

module _ {D : Type 0} (d : Double D) (of_int : ℤ → D) (nan : D) where
  abbrev pub above : D → D → Bool
  above x y = d.lt y x

  -- After the values before index `n` were compared
  record Found (highs lows : List D) (start n : ℕ) (e : Extremes D) : Type 0 where
    max_val : e.max_val ≡ entry nan highs (start + e.max_idx)
    min_val : e.min_val ≡ entry nan lows (start + e.min_idx)
    highest : IsBest above nan highs start n e.max_idx
    lowest : IsBest d.lt nan lows start n e.min_idx

  module _ (strict : IsStrict d) where
    above_trans : (x y z : D) → above x y ≡ true → above y z ≡ true → above x z ≡ true
    above_trans x y z h g = strict.lt-trans z y x g h

    Found-next :
        (highs lows : List D) (start n : ℕ) (e : Extremes D)
        → Found highs lows start n e
        → Found highs lows start (suc n) (compare_at d of_int nan highs lows start n e)
    Found-next highs lows start n e w = record {
      max_val = ground (arith, w.max_val);
      min_val = ground (arith, w.min_val);
      highest =
          subst
            (λ x.
              IsBest above nan highs start (suc n)
                (if d.lt x (entry nan highs (start + n)) then n else e.max_idx))
            (sym w.max_val)
            (IsBest-next above nan strict.lt-irrefl above_trans highs start n e.max_idx w.highest);
      lowest =
          subst
            (λ x.
              IsBest d.lt nan lows start (suc n)
                (if d.lt (entry nan lows (start + n)) x then n else e.min_idx))
            (sym w.min_val)
            (IsBest-next d.lt nan strict.lt-irrefl strict.lt-trans lows start n e.min_idx w.lowest);
    }

    compare_loop :
        (highs lows : List D) (start n i : ℕ) (e : Extremes D)
        → Found highs lows start i e
        → Found highs lows start
            (i + n)
            (for_range n i (compare_at d of_int nan highs lows start) e)
    unfolding for_range
    compare_loop highs lows start zero i e w =
        let same : i ≡ i + 0 = omega arith in subst (λ k. Found highs lows start k e) same w
    compare_loop highs lows start (suc n) i e w =
        let next : suc i + n ≡ i + suc n = omega arith in
        let e' = compare_at d of_int nan highs lows start i e in
        subst
          (λ k.
            Found highs lows start k
              (for_range n (suc i) (compare_at d of_int nan highs lows start) e'))
          next (compare_loop highs lows start n (suc i) e' (Found-next highs lows start i e w))

    -- The indices that are found are those of a highest and of a lowest value.
    pub extremes-IsBest :
        (highs lows : List D) (start rounds : ℕ)
        → let e = extremes d of_int nan highs lows start rounds in
          IsBest above nan highs start (rounds + 1) e.max_idx
          × IsBest d.lt nan lows start (rounds + 1) e.min_idx
    unfolding extremes
    extremes-IsBest highs lows start rounds =
        let same : start ≡ start + 0 = omega arith in
        let first : Extremes D = record {
          max_val = entry nan highs start;
          max_idx = 0;
          min_val = entry nan lows start;
          min_idx = 0;
        } in
        let begun : Found highs lows start 1 first = record {
          max_val = ap (entry nan highs) same;
          min_val = ap (entry nan lows) same;
          highest = IsBest-first above nan strict.lt-irrefl above_trans highs start;
          lowest = IsBest-first d.lt nan strict.lt-irrefl strict.lt-trans lows start;
        } in
        let all : 1 + rounds ≡ rounds + 1 = omega arith in
        let found =
          subst (λ k. Found highs lows start k (extremes d of_int nan highs lows start rounds)) all
            (compare_loop highs lows start rounds 1 first begun) in
        (found.highest, found.lowest)

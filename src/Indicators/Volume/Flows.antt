-- ===== src/Indicators/Volume/Flows.antt =====
-- src/Indicator.cpp: the line of `AD` against the flow of money of each candle
use cipher_trader.Prelude.{
  ℕ, zero, suc, ◌+◌, ◌-◌, ◌<◌, ◌≡◌, refl, ap, sym, subst, ◌∙◌, List, [], ◌∷◌, length, set, take,
  replicate, map, get_elem?, ◌==◌, if◌then◌else◌, length-replicate, length-set, some, true, ok,
  Bool-cases, inl, inr, arith,
}
use cipher_trader.Prelude.Slices.{get_elem?-some}
use cipher_trader.Prelude.Int.{ℤ}
use cipher_trader.Double.{Double}
use cipher_trader.Candles.{Candle, get_candle_source}
use cipher_trader.Indicators.{for_range, entry, pointwise, slice_candles}
use cipher_trader.Indicators.Loops.{
  entry-set, entry-fill, entry-map, length-map, length-write, same_entries, take-next, sum_from,
  sum_from-append,
}
use cipher_trader.Indicators.Volume.{flow, compute_multiplier, cumulative, ad}

module _ {D : Type 0} (d : Double D) (of_int : ℤ → D) (nan epsilon : D) where
  -- Where the close stands between low and high, from -1 to 1, and 0 for a range of about 0
  abbrev pub multiplier : Candle D → D
  multiplier c =
      let range = d.sub c.high_price c.low_price in
      let up = d.sub c.close_price c.low_price in
      let down = d.sub c.high_price c.close_price in
      if d.lt epsilon (d.abs range) then d.div (d.sub up down) range else d.nought

  abbrev pub money_flow : Candle D → D
  money_flow c = d.mul (multiplier c) c.volume

  -- The sum of the first `n` + 1 values
  abbrev pub sum_up_to : List D → ℕ → D
  sum_up_to [] n = nan
  sum_up_to (x ∷ xs) n = sum_from d.add x (take n xs)

  abbrev highs : List (Candle D) → List D
  highs cs = map (λ c. c.high_price) cs

  abbrev lows : List (Candle D) → List D
  lows cs = map (λ c. c.low_price) cs

  abbrev closes : List (Candle D) → List D
  closes cs = map (λ c. c.close_price) cs

  flow-multiplier :
      (cs : List (Candle D)) (i : ℕ) (c : Candle D)
      → get_elem? cs i ≡ some c
      → flow d of_int nan epsilon (highs cs) (lows cs) (closes cs) i ≡ multiplier c
  flow-multiplier cs i c h =
      rw
        (
          entry-map nan (λ (e : Candle D). e.high_price) cs i c h,
          entry-map nan (λ (e : Candle D). e.low_price) cs i c h,
          entry-map nan (λ (e : Candle D). e.close_price) cs i c h,
        )
        refl

  compute_multiplier-map :
      (cs : List (Candle D))
      → compute_multiplier d of_int nan epsilon (highs cs) (lows cs) (closes cs) ≡ map multiplier cs
  unfolding compute_multiplier
  compute_multiplier-map cs =
      let at = λ (i : ℕ). flow d of_int nan epsilon (highs cs) (lows cs) (closes cs) i in
      let zeros = replicate (length (highs cs)) d.nought in
      let size : length zeros ≡ length cs =
        length-replicate (length (highs cs)) d.nought
        ∙ length-map (λ (e : Candle D). e.high_price) cs in
      let v = compute_multiplier d of_int nan epsilon (highs cs) (lows cs) (closes cs) in
      let long : length v ≡ length cs =
        length-write nan (λ k r. at k) (length zeros - 0) 0 zeros ∙ size in
      same_entries nan v (map multiplier cs) (long ∙ sym (length-map multiplier cs)) λ i l.
        let (c, h) = get_elem?-some i cs (omega (arith, l, long)) in
        entry-fill nan at 0 zeros i (omega (arith, l, long, size)) (omega arith)
        ∙ flow-multiplier cs i c h
        ∙ sym (entry-map nan multiplier cs i c h)

  pointwise-map :
      (f g : Candle D → D) (cs : List (Candle D))
      → pointwise d.mul (map f cs) (map g cs) ≡ map (λ c. d.mul (f c) (g c)) cs
  pointwise-map f g [] = refl
  pointwise-map f g (c ∷ cs) = ap (λ t. d.mul (f c) (g c) ∷ t) (pointwise-map f g cs)

  next_sum :
      (x : D) (xs : List D) (k : ℕ) (r : List D)
      → k < length xs
      → entry nan r k ≡ sum_up_to (x ∷ xs) k
      → d.add (entry nan r (suc k - 1)) (entry nan (x ∷ xs) (suc k)) ≡ sum_up_to (x ∷ xs) (suc k)
  next_sum x xs k r l h =
      let same : suc k - 1 ≡ k = omega arith in
      rw (same, h, take-next nan xs k l)
        (sym (sum_from-append d.add x (take k xs) (entry nan xs k)))

  next_written :
      (x : D) (xs : List D) (k : ℕ) (r : List D) (value : D)
      → length r ≡ length (x ∷ xs)
      → k < length xs
      → ((i : ℕ) → i < suc k → entry nan r i ≡ sum_up_to (x ∷ xs) i)
      → value ≡ sum_up_to (x ∷ xs) (suc k)
      → (i : ℕ) → i < suc (suc k)
      → entry nan (set r (suc k) value) i ≡ sum_up_to (x ∷ xs) i
  next_written x xs k r value s l h next i m = elim (Bool-cases (i == suc k)) [
    | inl b ↦
        let here : suc k ≡ i = ground (arith, b) in
        subst (λ t. entry nan (set r (suc k) value) t ≡ sum_up_to (x ∷ xs) t) here
          (entry-set nan r (suc k) value (suc k) ∙ ground (arith, s, l) ∙ next)
    | inr b ↦ entry-set nan r (suc k) value i ∙ ground (arith, b) ∙ h i (ground (arith, b, m))
  ]

  -- The loop of the cumulative sum
  sums_loop :
      (x : D) (xs : List D) (n i : ℕ) (r : List D)
      → 0 < i
      → i + n ≡ length (x ∷ xs)
      → length r ≡ length (x ∷ xs)
      → ((j : ℕ) → j < i → entry nan r j ≡ sum_up_to (x ∷ xs) j)
      → (j : ℕ) → j < length (x ∷ xs)
      → entry nan
          (for_range n i (λ k v. set v k (d.add (entry nan v (k - 1)) (entry nan (x ∷ xs) k))) r)
          j
        ≡ sum_up_to (x ∷ xs) j
  unfolding for_range
  sums_loop x xs zero i r o e s h j l = h j (omega (arith, e, l))
  sums_loop x xs (suc n) (suc k) r o e s h j l =
      let value = d.add (entry nan r (suc k - 1)) (entry nan (x ∷ xs) (suc k)) in
      let next = next_sum x xs k r (omega (arith, e)) (h k (omega arith)) in
      sums_loop x xs n (suc (suc k)) (set r (suc k) value) (omega arith) (omega (arith, e))
        (length-set r (suc k) value ∙ s) (next_written x xs k r value s (omega (arith, e)) h next) j
        l
  sums_loop x xs (suc n) zero r o e s h j l = absurd (omega (arith, o))

  entry-cumulative :
      (v : List D) (j : ℕ)
      → j < length v
      → entry nan (cumulative d of_int nan epsilon v) j ≡ sum_up_to v j
  unfolding cumulative
  entry-cumulative [] j l = absurd (omega (arith, l))
  entry-cumulative (x ∷ xs) j l =
      sums_loop x xs (length (x ∷ replicate (length xs) d.nought) - 1) 1
        (x ∷ replicate (length xs) d.nought) (omega arith)
        (omega (arith, length-replicate (length xs) d.nought))
        (ap suc (length-replicate (length xs) d.nought))
        (λ i m. let first : i ≡ 0 = omega (arith, m) in rw first refl) j l

  length-cumulative : (v : List D) → length (cumulative d of_int nan epsilon v) ≡ length v
  unfolding cumulative
  length-cumulative v =
      let zeros = replicate (length v) d.nought in
      length-write nan (λ i r. d.add (entry nan r (i - 1)) (entry nan v i))
        (length (set zeros 0 (entry nan v 0)) - 1) 1 (set zeros 0 (entry nan v 0))
      ∙ length-set zeros 0 (entry nan v 0)
      ∙ length-replicate (length v) d.nought

  -- With `sequential`, `AD` gives on every list of candles that is not empty a line as long as the list, whose
  -- entries are the sums of the flows of money of the candles up to each one. It fails on the empty list only.
  pub ad_sums_flows :
      (warmup : ℕ) (c : Candle D) (cs : List (Candle D))
      → (line : List D) × (ad d of_int nan epsilon warmup (c ∷ cs) true ≡ ok line)
        × (length line ≡ length (c ∷ cs))
        × ((j : ℕ) → j < length (c ∷ cs) → entry nan line j ≡ sum_up_to (map money_flow (c ∷ cs)) j)
  unfolding ad slice_candles get_candle_source
  ad_sums_flows warmup c cs =
      let all = c ∷ cs in
      let volumes = map (λ (e : Candle D). e.volume) all in
      let flows =
        pointwise d.mul
          (compute_multiplier d of_int nan epsilon (highs all) (lows all) (closes all)) volumes in
      let same : flows ≡ map money_flow all =
        ap (λ t. pointwise d.mul t volumes) (compute_multiplier-map all)
        ∙ pointwise-map multiplier (λ e. e.volume) all in
      let line = cumulative d of_int nan epsilon flows in
      let long : length line ≡ length all =
        ap (λ v. length (cumulative d of_int nan epsilon v)) same
        ∙ length-cumulative (map money_flow all)
        ∙ length-map money_flow all in
      (
        line,
        refl,
        long,
        λ j l.
            ap (λ v. entry nan (cumulative d of_int nan epsilon v) j) same
            ∙ entry-cumulative (map money_flow all) j (omega (arith, l, length-map money_flow all)),
      )

-- ===== src/Indicators/Extremes/Modes.antt =====
-- src/Indicator.cpp: the two modes of `AROON`
use cipher_trader.Prelude.{
  ℕ, zero, suc, ◌-◌, ◌≤◌, ◌<◌, ◌≡◌, refl, ap, sym, ◌∙◌, true, false, List, [], ◌∷◌, length, map,
  replicate, set, leb, Bool-cases, inl, inr, arith, length-replicate, Result, ok, ◌⊎◌, ◌++◌, drop,
  length-append, ltb,
}
use cipher_trader.Prelude.Int.{ℤ, pos}
use cipher_trader.Double.{Double}
use cipher_trader.Candles.{Candle, get_candle_source}
use cipher_trader.Indicators.{for_range, entry, last_entry, slice_candles}
use cipher_trader.Indicators.Loops.{write_all, length-write, length-map, entry-replicate}
use cipher_trader.Indicators.Extremes.{
  AroonResult, extremes, percent, write_aroon, aroon_lines, aroon_last, aroon,
}

module _ {D : Type 0} (d : Double D) (of_int : ℤ → D) (nan : D) where
  abbrev down_at : List D → List D → ℕ → ℕ → D
  down_at highs lows period i =
      percent d of_int nan ((extremes d of_int nan highs lows (i - period) period).min_idx) period

  abbrev up_at : List D → List D → ℕ → ℕ → D
  up_at highs lows period i =
      percent d of_int nan ((extremes d of_int nan highs lows (i - period) period).max_idx) period

  -- The loop writes its two vectors apart from each other.
  lines_apart :
      (highs lows : List D) (period n i : ℕ) (r : AroonResult D)
      → for_range n i (write_aroon d of_int nan highs lows period) r ≡ record {
        down = for_range n i (λ k v. set v k (down_at highs lows period k)) r.down;
        up = for_range n i (λ k v. set v k (up_at highs lows period k)) r.up;
      }
  unfolding for_range
  lines_apart highs lows period zero i r = refl
  lines_apart highs lows period (suc n) i r =
      lines_apart highs lows period n (suc i) (write_aroon d of_int nan highs lows period i r)

  pub entry-aroon_lines :
      (highs lows : List D) (period j : ℕ)
      → period ≤ j
      → j < length highs
      → (entry nan (aroon_lines d of_int nan highs lows period).down j
          ≡ down_at highs lows period j)
        × (entry nan (aroon_lines d of_int nan highs lows period).up j ≡ up_at highs lows period j)
  entry-aroon_lines highs lows period j l m =
      let size = length highs in
      let empty = replicate size nan in
      let apart =
        lines_apart highs lows period (size - period) period
          (record { down = empty; up = empty }) in
      (
        ap (λ r. entry nan r.down j) apart
            ∙ write_all nan (down_at highs lows period) (size - period) period empty j
            ∙ ground (arith, l, m, length-replicate size nan),
        ap (λ r. entry nan r.up j) apart
            ∙ write_all nan (up_at highs lows period) (size - period) period empty j
            ∙ ground (arith, l, m, length-replicate size nan),
      )

  length-aroon_lines :
      (highs lows : List D) (period : ℕ)
      → (length (aroon_lines d of_int nan highs lows period).down ≡ length highs)
        × (length (aroon_lines d of_int nan highs lows period).up ≡ length highs)
  length-aroon_lines highs lows period =
      let size = length highs in
      let empty = replicate size nan in
      let apart =
        lines_apart highs lows period (size - period) period
          (record { down = empty; up = empty }) in
      (
        ap (λ r. length r.down) apart
            ∙ length-write nan (λ k r. down_at highs lows period k) (size - period) period empty
            ∙ length-replicate size nan,
        ap (λ r. length r.up) apart
            ∙ length-write nan (λ k r. up_at highs lows period k) (size - period) period empty
            ∙ length-replicate size nan,
      )

  -- The two modes on the same prices
  last_is_last :
      (highs lows : List D) (period : ℕ)
      → period < length highs
      → let lines = aroon_lines d of_int nan highs lows period in
        aroon_last d of_int nan highs lows period
        ≡ record { down = last_entry nan lines.down ∷ []; up = last_entry nan lines.up ∷ [] }
  last_is_last highs lows period l =
      let (long, tall) = length-aroon_lines highs lows period in
      let j = length highs - 1 in
      let (down, up) =
        entry-aroon_lines highs lows period j (omega (arith, l)) (omega (arith, l)) in
      let start : j - period ≡ length highs - period - 1 = omega arith in
      let lines = aroon_lines d of_int nan highs lows period in
      let both = λ (x y : D). let r : AroonResult D = record { down = x ∷ []; up = y ∷ [] } in r in
      let down' : last_entry nan lines.down ≡ down_at highs lows period j =
        ap (λ n. entry nan lines.down (n - 1)) long ∙ down in
      let up' : last_entry nan lines.up ≡ up_at highs lows period j =
        ap (λ n. entry nan lines.up (n - 1)) tall ∙ up in
      ap
        (λ s.
          both (percent d of_int nan ((extremes d of_int nan highs lows s period).min_idx) period)
            (percent d of_int nan ((extremes d of_int nan highs lows s period).max_idx) period))
        (sym start)
      ∙ ap (λ x. both x (up_at highs lows period j)) (sym down')
      ∙ ap (λ y. both (last_entry nan lines.down) y) (sym up')

  drop-append : (front back : List (Candle D)) → drop (length front) (front ++ back) ≡ back
  drop-append [] back = refl
  drop-append (c ∷ front) back = drop-append front back

  -- The candles before the last ones fall away.
  back_kept :
      (warmup : ℕ) (front back : List (Candle D))
      → (length back ≡ warmup) ⊎ ((front ≡ []) × (length back ≤ warmup))
      → slice_candles warmup (front ++ back) false ≡ back
  unfolding slice_candles
  back_kept warmup front back (inr (e, l)) = rw e (ground (arith, l))
  back_kept warmup front back (inl e) =
      let size : length (front ++ back) - warmup ≡ length front =
        omega (arith, length-append front back, e) in
      elim (Bool-cases (ltb warmup (length (front ++ back)))) [
        | inl b ↦ rw (b, size) (drop-append front back)
        | inr b ↦ rw b (no_front front (ground (arith, b, size)))
      ]
    where
      no_front : (xs : List (Candle D)) → length xs ≡ 0 → xs ++ back ≡ back
      no_front [] h = refl
      no_front (x ∷ xs) h = ground (arith, h)

  whole_kept :
      (warmup : ℕ) (candles : List (Candle D)) → slice_candles warmup candles true ≡ candles
  unfolding slice_candles
  whole_kept warmup candles = refl

  abbrev Agree : ℕ → List (Candle D) → List (Candle D) → ℕ → AroonResult D → Type 0
  Agree warmup candles back p lines =
      (aroon d of_int nan warmup back (pos (suc p)) true ≡ ok lines)
      × (aroon d of_int nan warmup candles (pos (suc p)) false
          ≡ ok
              (record { down = last_entry nan lines.down ∷ []; up = last_entry nan lines.up ∷ [] }))

  few_candles :
      (warmup : ℕ) (candles back : List (Candle D)) (p : ℕ)
      → slice_candles warmup candles false ≡ back
      → leb (length back) (suc p) ≡ true
      → Agree warmup candles back p
          (record { down = replicate (length back) nan; up = replicate (length back) nan })
  unfolding aroon
  few_candles warmup candles back p l b =
      let n = length back in
      let none_left = entry-replicate nan n (length (replicate n nan) - 1) in
      (
        rw (whole_kept warmup back, b) refl,
        rw (l, b)
            (ap
              (λ (x : D).
                let r : Result (AroonResult D) = ok (record { down = x ∷ []; up = x ∷ [] }) in r)
              (sym none_left)),
      )

  many_candles :
      (warmup : ℕ) (candles : List (Candle D)) (c : Candle D) (cs : List (Candle D)) (p : ℕ)
      → slice_candles warmup candles false ≡ c ∷ cs
      → leb (length (c ∷ cs)) (suc p) ≡ false
      → Agree warmup candles (c ∷ cs) p (
          aroon_lines d of_int nan
            (map (λ (e : Candle D). e.high_price) (c ∷ cs))
            (map (λ (e : Candle D). e.low_price) (c ∷ cs))
            (suc p))
  unfolding aroon get_candle_source
  many_candles warmup candles c cs p l b =
      let highs = map (λ (e : Candle D). e.high_price) (c ∷ cs) in
      let lows = map (λ (e : Candle D). e.low_price) (c ∷ cs) in
      let size : length highs ≡ length (c ∷ cs) =
        length-map (λ (e : Candle D). e.high_price) (c ∷ cs) in
      (
        rw (whole_kept warmup (c ∷ cs), b) refl,
        rw (l, b) (ap ok (last_is_last highs lows (suc p) (ground (arith, b, size)))),
      )

  modes-Agree :
      (warmup : ℕ) (candles back : List (Candle D)) (p : ℕ)
      → slice_candles warmup candles false ≡ back
      → (lines : AroonResult D) × Agree warmup candles back p lines
  modes-Agree warmup candles [] p l = (_, few_candles warmup candles [] p l (ground arith))
  modes-Agree warmup candles (c ∷ cs) p l = elim (Bool-cases (leb (length (c ∷ cs)) (suc p))) [
    | inl b ↦ (_, few_candles warmup candles (c ∷ cs) p l b)
    | inr b ↦ (_, many_candles warmup candles c cs p l b)
  ]

  -- `AROON` without `sequential` looks at the last candles only, as many as the configured number, or
  -- at all of them if they are not more. It gives the last entries of what it gives with `sequential`
  -- for these last candles alone; neither fails, whatever the positive period is.
  pub aroon_modes_agree :
      (warmup : ℕ) (front back : List (Candle D)) (p : ℕ)
      → (length back ≡ warmup) ⊎ ((front ≡ []) × (length back ≤ warmup))
      → (lines : AroonResult D) × (aroon d of_int nan warmup back (pos (suc p)) true ≡ ok lines)
        × (aroon d of_int nan warmup (front ++ back) (pos (suc p)) false
            ≡ ok (record {
              down = last_entry nan lines.down ∷ [];
              up = last_entry nan lines.up ∷ [];
            }))
  aroon_modes_agree warmup front back p l =
      let (lines, (long, short)) =
        modes-Agree warmup (front ++ back) back p (back_kept warmup front back l) in
      (lines, long, short)

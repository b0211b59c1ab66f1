-- ===== src/Candles/Minutes.antt =====
-- The candle that is made of candles of a minute.
use cipher_trader.Prelude.{
  ℕ, ◌≡◌, ◌≢◌, refl, true, false, Bool, ◌||◌, List, [], ◌∷◌, map, All, All-map, arith, length, ◌==◌,
  inl, inr, ◌⊎◌, Bool-cases, ok, err, invalid_argument,
}
use cipher_trader.Prelude.Int.{ℤ}
use cipher_trader.Double.{Double}
use cipher_trader.Timeframes.{Timeframe, convert_timeframe_to_one_minutes}
use cipher_trader.Candles.{Candle, last_of, combine, generate_candle_from_one_minutes}

module _ {A B : Type 0} (f : A → B) (P : B → Type 0) where
  All-of_map : (xs : List A) → All P (map f xs) → All (λ x. P (f x)) xs
  All-of_map [] h = tt
  All-of_map (x ∷ xs) (h, hs) = (h, All-of_map xs hs)

  All-to_map : (xs : List A) → All (λ x. P (f x)) xs → All P (map f xs)
  All-to_map [] h = tt
  All-to_map (x ∷ xs) (h, hs) = (h, All-to_map xs hs)

module _ {D : Type 0} (d : Double D) where
  -- `<=` of doubles
  abbrev pub leq : D → D → Bool
  leq a b = d.lt a b || d.eq a b

  -- What IEEE 754 says of `<=`
  pub record IsOrder : Type 0 where
    pub leq-trans : (x y z : D) → leq x y ≡ true → leq y z ≡ true → leq x z ≡ true
    pub leq-left : (x y : D) → leq x y ≡ true → leq x x ≡ true
    pub leq-right : (x y : D) → leq x y ≡ true → leq y y ≡ true

  -- What `blaze::max` and `blaze::min` promise, of numbers that are not NaN
  pub record IsExtreme (largest smallest : List D → D) : Type 0 where
    pub largest-above :
        (xs : List D) → All (λ x. leq x x ≡ true) xs → All (λ x. leq x (largest xs) ≡ true) xs
    pub smallest-below :
        (xs : List D) → All (λ x. leq x x ≡ true) xs → All (λ x. leq (smallest xs) x ≡ true) xs

  -- The opening and the closing price lie between the lowest and the highest one.
  pub record Proper (c : Candle D) : Type 0 where
    pub low-open : leq c.low_price c.open_price ≡ true
    pub open-high : leq c.open_price c.high_price ≡ true
    pub low-close : leq c.low_price c.close_price ≡ true
    pub close-high : leq c.close_price c.high_price ≡ true

  -- The prices of `c` lie between those of `e`.
  abbrev pub Within : Candle D → Candle D → Type 0
  Within e c = (leq e.low_price c.low_price ≡ true) × (leq c.high_price e.high_price ≡ true)

  module _ (of_int : ℤ → D) (largest smallest sum : List D → D) (order : IsOrder)
      (extreme : IsExtreme largest smallest) where
    highs :
        (cs : List (Candle D))
        → All Proper cs
        → All (λ c. leq c.high_price (largest (map (λ e. e.high_price) cs)) ≡ true) cs
    highs cs h =
        All-of_map (λ c. c.high_price) (λ x. leq x (largest (map (λ e. e.high_price) cs)) ≡ true) cs
          (extreme.largest-above (map (λ e. e.high_price) cs) (
            All-to_map (λ c. c.high_price) (λ x. leq x x ≡ true) cs
              (All-map Proper (λ c. leq c.high_price c.high_price ≡ true) cs
                (λ c p. order.leq-right c.open_price c.high_price p.open-high) h)))

    lows :
        (cs : List (Candle D))
        → All Proper cs
        → All (λ c. leq (smallest (map (λ e. e.low_price) cs)) c.low_price ≡ true) cs
    lows cs h =
        All-of_map (λ c. c.low_price) (λ x. leq (smallest (map (λ e. e.low_price) cs)) x ≡ true) cs
          (extreme.smallest-below (map (λ e. e.low_price) cs) (
            All-to_map (λ c. c.low_price) (λ x. leq x x ≡ true) cs
              (All-map Proper (λ c. leq c.low_price c.low_price ≡ true) cs
                (λ c p. order.leq-left c.low_price c.open_price p.low-open) h)))

    All-pair :
        (P Q : Candle D → Type 0) (cs : List (Candle D))
        → All P cs
        → All Q cs
        → All (λ c. P c × Q c) cs
    All-pair P Q [] p q = tt
    All-pair P Q (c ∷ cs) (p, ps) (q, qs) = ((p, q), All-pair P Q cs ps qs)

    All-last_of :
        (P : Candle D → Type 0) (c : Candle D) (cs : List (Candle D))
        → All P (c ∷ cs)
        → P (last_of d of_int c cs)
    unfolding last_of
    All-last_of P c [] (h, hs) = h
    All-last_of P c (e ∷ cs) (h, hs) = All-last_of P e cs hs

    -- The generated candle, of an opening candle and the ones after it
    abbrev pub Made : Candle D → List (Candle D) → Candle D → Type 0
    Made c cs e =
        (e.timestamp ≡ c.timestamp)
        × (e.open_price ≡ c.open_price)
        × (e.close_price ≡ (last_of d of_int c cs).close_price)
        × Proper e
        × All (Within e) (c ∷ cs)

    combine-Made :
        (c : Candle D) (cs : List (Candle D))
        → All Proper (c ∷ cs)
        → (e : Candle D) × (combine d of_int largest smallest sum (c ∷ cs) ≡ ok e) × Made c cs e
    combine-Made c cs (p, ps) =
        let (h, hs) = highs (c ∷ cs) (p, ps) in
        let (l, ls) = lows (c ∷ cs) (p, ps) in
        let top = largest (map (λ e. e.high_price) (c ∷ cs)) in
        let bottom = smallest (map (λ e. e.low_price) (c ∷ cs)) in
        let z = last_of d of_int c cs in
        let q = All-last_of Proper c cs (p, ps) in
        let up = All-last_of (λ e. leq e.high_price top ≡ true) c cs (h, hs) in
        let down = All-last_of (λ e. leq bottom e.low_price ≡ true) c cs (l, ls) in
        (
          record {
            timestamp = c.timestamp;
            open_price = c.open_price;
            close_price = z.close_price;
            high_price = top;
            low_price = bottom;
            volume = sum (map (λ e. e.volume) (c ∷ cs));
          },
          refl,
          (
            refl,
            refl,
            refl,
            record {
              low-open = order.leq-trans bottom c.low_price c.open_price l p.low-open;
              open-high = order.leq-trans c.open_price c.high_price top p.open-high h;
              low-close = order.leq-trans bottom z.low_price z.close_price down q.low-close;
              close-high = order.leq-trans z.close_price z.high_price top q.close-high up;
            },
            All-pair (λ e. leq bottom e.low_price ≡ true) (λ e. leq e.high_price top ≡ true)
                (c ∷ cs) (l, ls) (h, hs),
          ),
        )

    -- One-minute candles whose opening and closing prices lie between their lowest and highest prices
    -- are made into one candle of a timeframe, if forming candles are accepted or there are as many as
    -- the timeframe has minutes; else the call throws. The candle has the time and the opening price
    -- of the first one and the closing price of the last one, its prices cover those of all of them,
    -- and its own opening and closing prices lie between its lowest and highest price.
    pub minutes_make_candle :
        (t : Timeframe) (n : ℕ) (c : Candle D) (cs : List (Candle D)) (accept : Bool)
        → convert_timeframe_to_one_minutes t ≡ ok n
        → All Proper (c ∷ cs)
        → (((accept ≡ true) ⊎ (length (c ∷ cs) ≡ n))
            × ((e : Candle D) × (generate_candle_from_one_minutes d of_int largest smallest sum t
                    (c ∷ cs)
                    accept
                  ≡ ok e)
                × Made c cs e))
          ⊎ ((accept ≡ false)
              × (length (c ∷ cs) ≢ n)
              × (generate_candle_from_one_minutes d of_int largest smallest sum t (c ∷ cs) accept
                  ≡ err invalid_argument))
    unfolding generate_candle_from_one_minutes
    minutes_make_candle t n c cs true k p =
        let (e, g, m) = combine-Made c cs p in inl (inl refl, (e, rw k g, m))
    minutes_make_candle t n c cs false k p = elim (Bool-cases (length (c ∷ cs) == n)) [
      | inl whole ↦
          let (e, g, m) = combine-Made c cs p in
          inl (inr (ground (arith, whole)), (e, rw (k, whole) g, m))
      | inr part ↦ inr (refl, ground (arith, part), rw (k, part) refl)
    ]

-- ===== src/Candles/Fake/Prices.antt =====
-- The candles that are generated from close prices.
use cipher_trader.Prelude.{◌≡◌, refl, true, false, Bool, List, [], ◌∷◌, arith, if◌then◌else◌}
use cipher_trader.Prelude.Int.{ℤ, pos, ◌+ℤ◌}
use cipher_trader.Double.{Double}
use cipher_trader.Candles.{Candle, larger, smaller}
use cipher_trader.Candles.Fake.{
  CandleGenState, minute, update_gen, reset_gen, candles_from, generate_candles_from_close_prices,
}

module _ {D : Type 0} (d : Double D) (of_int : ℤ → D) where
  -- Neither the opening nor the closing price lies outside of the lowest and the highest price.
  pub record Bounded (c : Candle D) : Type 0 where
    pub open-below : d.lt c.high_price c.open_price ≡ false
    pub close-below : d.lt c.high_price c.close_price ≡ false
    pub open-above : d.lt c.open_price c.low_price ≡ false
    pub close-above : d.lt c.close_price c.low_price ≡ false

  -- Candles of successive minutes after `t`: each closes at its price, and opens at the price before.
  pub data Follow : ℤ → D → List D → List (Candle D) → Type 0 where
    done : (t : ℤ) (prev : D) → Follow t prev [] []
    then_candle :
        (t : ℤ) (prev p : D) (ps : List D) (c : Candle D) (cs : List (Candle D))
        → c.timestamp ≡ of_int (t +ℤ minute)
        → c.open_price ≡ prev
        → c.close_price ≡ p
        → Bounded c
        → Follow (t +ℤ minute) p ps cs
        → Follow t prev (p ∷ ps) (c ∷ cs)

  module _ (irrefl : (x : D) → d.lt x x ≡ false)
      (asym : (x y : D) → d.lt x y ≡ true → d.lt y x ≡ false) where
    between :
        (prev p timestamp volume : D)
        → Bounded (record {
          timestamp = timestamp;
          open_price = prev;
          close_price = p;
          high_price = larger d of_int prev p;
          low_price = smaller d of_int prev p;
          volume = volume;
        })
    between prev p timestamp volume = record {
      open-below = ground (arith, irrefl prev, asym prev p);
      close-below = ground (arith, irrefl p);
      open-above = ground (arith, irrefl prev, asym p prev);
      close-above = ground (arith, irrefl p, asym p prev);
    }

    module _ {G : Type 0} (randint : ℤ → ℤ → G → ℤ × G) where
      candles_from-Follow :
          (prev : D) (ps : List D) (s : CandleGenState) (g : G)
          → Follow s.first_timestamp prev ps (candles_from d of_int randint prev ps s g).0
      unfolding candles_from update_gen
      candles_from-Follow prev [] s g = done s.first_timestamp prev
      candles_from-Follow prev (p ∷ ps) s g =
          let (s₁, g₁) = update_gen d of_int randint s g in
          let (volume, g₂) = randint (pos 0) (pos 200) g₁ in
          then_candle s.first_timestamp prev p ps _ _ refl refl refl
            (between prev p (of_int (s.first_timestamp +ℤ minute)) (of_int volume))
            (candles_from-Follow p ps s₁ g₂)

      -- From close prices, where no number is less than itself and none both less and greater than
      -- another, the code makes one candle for each price, of successive minutes: the first one follows
      -- the time of the generator, which a reset sets to the start of 2021. Each candle closes at its
      -- price and opens at the price before, the first at its price less one, and no opening or closing
      -- price lies outside of the lowest and the highest price of its candle.
      pub candles_follow_prices :
          (p : D) (ps : List D) (reset : Bool) (s : CandleGenState) (g : G)
          → Follow
              (if reset then pos 1609459080000 else s.first_timestamp)
              (d.sub p d.one)
              (p ∷ ps)
              (generate_candles_from_close_prices d of_int randint (p ∷ ps) reset s g).0
      unfolding generate_candles_from_close_prices reset_gen
      candles_follow_prices p ps true s g =
          let (s₁, g₁) = reset_gen d of_int randint g in
          candles_from-Follow (d.sub p d.one) (p ∷ ps) s₁ g₁
      candles_follow_prices p ps false s g = candles_from-Follow (d.sub p d.one) (p ∷ ps) s g

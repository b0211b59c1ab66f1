-- ===== src/Candles/Fake.antt =====
-- src/Candle.cpp: the generator of test candles, `CandleGenState`, and the functions that use it. The
-- source of random numbers is an argument.
pub mod Prices
use cipher_trader.Prelude.{ℕ, zero, suc, Bool, true, false, not, ◌&&◌, List, [], ◌∷◌, if◌then◌else◌}
use cipher_trader.Prelude.Int.{ℤ, pos, ◌+ℤ◌, ◌-ℤ◌, ltb_ℤ}
use cipher_trader.Double.{Double}
use cipher_trader.Candles.{Candle, larger, smaller}

pub record CandleGenState : Type 0 where
  pub first_timestamp : ℤ
  pub open_price : ℤ
  pub close_price : ℤ
  pub high_price : ℤ
  pub low_price : ℤ

abbrev same_ℤ : ℤ → ℤ → Bool
same_ℤ a b = not (ltb_ℤ a b) && not (ltb_ℤ b a)

abbrev max_ℤ : ℤ → ℤ → ℤ
max_ℤ a b = if ltb_ℤ a b then b else a

abbrev min_ℤ : ℤ → ℤ → ℤ
min_ℤ a b = if ltb_ℤ b a then b else a

-- A minute, in milliseconds
abbrev pub minute : ℤ
minute = pos 60000

module _ {D : Type 0} (d : Double D) (of_int : ℤ → D) where
  -- The generator of test candles, on a source of random numbers: `randint lo hi` is between the two.
  module _ {G : Type 0} (randint : ℤ → ℤ → G → ℤ × G) where
    abbrev flip : G → Bool × G
    flip g = let (n, g) = randint (pos 0) (pos 1) g in (not (same_ℤ n (pos 0)), g)

    unfoldable pub reset_gen : G → CandleGenState × G
    reset_gen g =
        let (opening, g₁) = randint (pos 40) (pos 100) g in
        let (up, g₂) = flip g₁ in
        let (closing, g₃) =
          if up then randint opening (pos 110) g₂ else randint (pos 30) opening g₂ in
        let (even_high, g₄) = flip g₃ in
        let (even_low, g₅) = flip g₄ in
        let top = max_ℤ opening closing in
        let bottom = min_ℤ opening closing in
        (
          record {
            first_timestamp = pos 1609459080000;
            open_price = opening;
            close_price = closing;
            high_price = if even_high then top else max_ℤ top (top +ℤ pos 10);
            low_price = if even_low then bottom else min_ℤ bottom (bottom +ℤ pos 10);
          },
          g₅,
        )

    unfoldable pub update_gen : CandleGenState → G → CandleGenState × G
    update_gen s g =
        let (step, g₁) = randint (pos 1) (pos 8) g in
        let close = s.close_price +ℤ step in
        (
          record {
            first_timestamp = s.first_timestamp +ℤ minute;
            open_price = s.close_price;
            close_price = close;
            high_price = max_ℤ s.close_price close;
            low_price = min_ℤ (s.close_price -ℤ pos 1) close;
          },
          g₁,
        )

    abbrev reset_if : Bool → CandleGenState → G → CandleGenState × G
    reset_if reset s g = if reset then reset_gen g else (s, g)

    -- The value that a field of `attrs` asks for, or else the generated one
    abbrev or_given : D → ℤ → D
    or_given given generated = if d.eq given d.nought then of_int generated else given

    unfoldable pub generate_fake_candle :
        Candle D → Bool → CandleGenState → G → Candle D × (CandleGenState × G)
    unfolding reset_gen update_gen
    generate_fake_candle attrs reset s g =
        let (s₁, g₁) = reset_if reset s g in
        let (s₂, g₂) = update_gen s₁ g₁ in
        let (volume, g₃) = randint (pos 1) (pos 100) g₂ in
        (
          record {
            timestamp = or_given attrs.timestamp s₂.first_timestamp;
            open_price = or_given attrs.open_price s₂.open_price;
            close_price = or_given attrs.close_price s₂.close_price;
            high_price = or_given attrs.high_price s₂.high_price;
            low_price = or_given attrs.low_price s₂.low_price;
            volume = or_given attrs.volume volume;
          },
          (s₂, g₃),
        )

    -- The loop over the prices, with the price before
    pub candles_from : D → List D → CandleGenState → G → List (Candle D) × (CandleGenState × G)
    unfolding update_gen
    candles_from prev [] s g = ([], (s, g))
    candles_from prev (p ∷ ps) s g =
        let (s₁, g₁) = update_gen s g in
        let (volume, g₂) = randint (pos 0) (pos 200) g₁ in
        let (cs, end) = candles_from p ps s₁ g₂ in
        (
          record {
            timestamp = of_int s₁.first_timestamp;
            open_price = prev;
            close_price = p;
            high_price = larger d of_int prev p;
            low_price = smaller d of_int prev p;
            volume = of_int volume;
          }
              ∷ cs,
          end,
        )

    unfoldable pub generate_candles_from_close_prices :
        List D → Bool → CandleGenState → G → List (Candle D) × (CandleGenState × G)
    unfolding reset_gen candles_from
    generate_candles_from_close_prices [] reset s g = ([], (s, g))
    generate_candles_from_close_prices (p ∷ ps) reset s g =
        let (s₁, g₁) = reset_if reset s g in candles_from (d.sub p d.one) (p ∷ ps) s₁ g₁

    abbrev no_attrs : Candle D
    no_attrs = record {
      timestamp = d.nought;
      open_price = d.nought;
      close_price = d.nought;
      high_price = d.nought;
      low_price = d.nought;
      volume = d.nought;
    }

    pub fake_candles : ℕ → CandleGenState → G → List (Candle D) × (CandleGenState × G)
    unfolding generate_fake_candle
    fake_candles zero s g = ([], (s, g))
    fake_candles (suc n) s g =
        let (c, (s₁, g₁)) = generate_fake_candle no_attrs false s g in
        let (cs, end) = fake_candles n s₁ g₁ in (c ∷ cs, end)

    unfoldable pub generate_range_candles :
        ℕ → Bool → CandleGenState → G → List (Candle D) × (CandleGenState × G)
    unfolding fake_candles
    generate_range_candles zero reset s g = ([], (s, g))
    generate_range_candles (suc n) reset s g =
        let (s₁, g₁) = reset_if reset s g in fake_candles (suc n) s₁ g₁

-- ===== src/Helper/Symbols.antt =====
-- src/Helper.cpp: the two assets of a symbol, and the key of an order book, a position or a route.
use cipher_trader.Prelude.{
  Option-cases, inl, inr, ◌⊎◌, zero, length, ℕ, suc, ◌≡◌, refl, ap, Option, none, some, [], ◌∷◌,
  ◌++◌, map, ◌==◌, if◌then◌else◌, take, drop, Text, codes, Result, ok, err, invalid_argument, arith,
}
use cipher_trader.Enums.{ExchangeName, exchange_name_to_string}
use cipher_trader.Timeframes.{Timeframe, to_string}

-- `symbol.find(c)`
abbrev pub find_char : ℕ → Text → Option ℕ
find_char c [] = none
find_char c (a ∷ s) =
    if a == c then some 0 else elim (find_char c s) [ none ↦ none | some i ↦ some (suc i) ]

-- The position of the first dash or, without one, of the first slash
abbrev separator : Text → Option ℕ
separator symbol = elim (find_char b'-' symbol) [
  | none ↦ find_char b'/' symbol
  | some pos ↦ some pos
]

unfoldable pub get_quote_asset : Text → Result Text
get_quote_asset symbol = elim (separator symbol) [
  | none ↦ err invalid_argument
  | some pos ↦ ok (drop (suc pos) symbol)
]

unfoldable pub get_base_asset : Text → Text
get_base_asset symbol = elim (separator symbol) [ none ↦ symbol | some pos ↦ take pos symbol ]

-- `std::replace(name.begin(), name.end(), ' ', '-')`
abbrev space_to_dash : ℕ → ℕ
space_to_dash c = if c == 32 then b'-' else c

unfoldable pub make_key : ExchangeName → Text → Option Timeframe → Text
make_key exchange_name symbol timeframe =
    let name = map space_to_dash (codes (exchange_name_to_string exchange_name)) in
    elim timeframe [
      | none ↦ name ++ (codes "-" ++ symbol)
      | some t ↦ name ++ (codes "-" ++ (symbol ++ (codes "-" ++ codes (to_string t))))
    ]

split_at_char :
    (c : ℕ) (s : Text) (i : ℕ) → find_char c s ≡ some i → s ≡ take i s ++ (c ∷ drop (suc i) s)
split_at_char c [] i h = ground arith
split_at_char c (a ∷ s) zero h = ground (arith, h)
split_at_char c (a ∷ s) (suc i) h = elim (Option-cases (find_char c s)) [
  | inl e ↦ ground (arith, h, e)
  | inr (j, e) ↦ ap (λ t. a ∷ t) (split_at_char c s i (ground (arith, h, e)))
]

find_char-append :
    (c : ℕ) (s t : Text) → find_char c s ≡ none → find_char c (s ++ (c ∷ t)) ≡ some (length s)
find_char-append c [] t h = ground arith
find_char-append c (a ∷ s) t h = ground (arith, h, find_char-append c s t)

find_char-append_none :
    (c : ℕ) (s t : Text) → find_char c s ≡ none → find_char c t ≡ none → find_char c (s ++ t) ≡ none
find_char-append_none c [] t h k = k
find_char-append_none c (a ∷ s) t h k = ground (arith, h, find_char-append_none c s t)

parts :
    (c : ℕ) (s t : Text)
    → (take (length s) (s ++ (c ∷ t)) ≡ s) × (drop (suc (length s)) (s ++ (c ∷ t)) ≡ t)
parts c [] t = (refl, refl)
parts c (a ∷ s) t = (ap (λ u. a ∷ u) (parts c s t).0, (parts c s t).1)

-- Every symbol is its base asset, a dash or a slash and its quote asset in this order, or it is its
-- own base asset and has no quote asset, which is refused.
pub symbol_splits :
    (symbol : Text)
    → ((separator : ℕ) × (quote : Text) × ((separator ≡ b'-') ⊎ (separator ≡ b'/'))
        × (get_quote_asset symbol ≡ ok quote)
        × (symbol ≡ get_base_asset symbol ++ (separator ∷ quote)))
      ⊎ ((get_quote_asset symbol ≡ err invalid_argument) × (get_base_asset symbol ≡ symbol))
unfolding get_quote_asset get_base_asset
symbol_splits symbol = elim (Option-cases (find_char b'-' symbol)) [
  | inr (i, e) ↦ inl (
    b'-',
    drop (suc i) symbol,
    inl refl,
    ground (arith, e),
    ground (arith, e, split_at_char b'-' symbol i e),
  )
  | inl n ↦ elim (Option-cases (find_char b'/' symbol)) [
    | inr (i, e) ↦ inl (
      b'/',
      drop (suc i) symbol,
      inr refl,
      ground (arith, n, e),
      ground (arith, n, e, split_at_char b'/' symbol i e),
    )
    | inl m ↦ inr (ground (arith, n, m), ground (arith, n, m))
  ]
]

-- If a base asset has neither a dash nor a slash and a quote asset has no dash, the assets of the
-- symbol written from them are these two, both with a dash and with a slash between them.
pub assets_of_pair :
    (base quote : Text)
    → find_char b'-' base ≡ none
    → find_char b'/' base ≡ none
    → find_char b'-' quote ≡ none
    → (get_base_asset (base ++ (b'-' ∷ quote)) ≡ base)
      × (get_quote_asset (base ++ (b'-' ∷ quote)) ≡ ok quote)
      × (get_base_asset (base ++ (b'/' ∷ quote)) ≡ base)
      × (get_quote_asset (base ++ (b'/' ∷ quote)) ≡ ok quote)
unfolding get_quote_asset get_base_asset
assets_of_pair base quote nd ns nq =
    let dash = find_char-append b'-' base quote nd in
    let slash = find_char-append b'/' base quote ns in
    let no_dash = find_char-append_none b'-' base (b'/' ∷ quote) nd (ground (arith, nq)) in
    let (front, back) = parts b'-' base quote in
    let (front', back') = parts b'/' base quote in
    (
      ground (arith, dash, front),
      ground (arith, dash, back),
      ground (arith, no_dash, slash, front'),
      ground (arith, no_dash, slash, back'),
    )

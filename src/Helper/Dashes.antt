-- ===== src/Helper/Dashes.antt =====
-- src/Helper.cpp: the spelling of symbols with and without a dash. The configured symbols are a parameter of
-- `dashySymbol`.
use cipher_trader.Prelude.{
  ℕ, zero, suc, ◌-◌, ◌≡◌, refl, sym, ap, ◌∙◌, Bool, true, false, Option, none, some, ◌&&◌, List, [],
  ◌∷◌, ◌++◌, map, length, take, drop, leb, ltb, ◌==◌, if◌then◌else◌, Text, codes, text_eq,
  text_eq_iff, Bool-cases, Option-cases, inl, inr, arith,
}
use cipher_trader.Helper.Symbols.{find_char}

unfoldable pub ends_with : Text → Text → Bool
ends_with symbol s =
    leb (length s) (length symbol) && text_eq (drop (length symbol - length s) symbol) s

-- The loop of `std::remove`
unfoldable pub dashless_symbol : Text → Text
dashless_symbol [] = []
dashless_symbol (c ∷ symbol) =
    let rest = dashless_symbol symbol in if c == b'-' then rest else c ∷ rest

-- The suffixes that are asked for, in this order
abbrev pub quotes : List Text
quotes =
    codes "EUR"
    ∷ codes "EUT"
    ∷ codes "GBP"
    ∷ codes "JPY"
    ∷ codes "MIM"
    ∷ codes "TRY"
    ∷ codes "FDUSD"
    ∷ codes "TUSD"
    ∷ codes "UST"
    ∷ codes "USDT"
    ∷ codes "USDC"
    ∷ codes "USDS"
    ∷ codes "USDP"
    ∷ codes "USDU"
    ∷ codes "USD"
    ∷ []

-- The configured symbol that is spelled like this one without dashes
unfoldable pub configured : List Text → Text → Option Text
configured [] symbol = none
configured (s ∷ symbols) symbol =
    let rest = configured symbols symbol in
    if text_eq (dashless_symbol s) symbol then some s else rest

unfoldable pub split_quote : List Text → Text → Option Text
split_quote [] symbol = none
split_quote (quote ∷ quotes) symbol =
    let rest = split_quote quotes symbol in
    if ends_with symbol quote
    then some (take (length symbol - length quote) symbol ++ (b'-' ∷ quote))
    else rest

unfoldable pub split_other : Text → Text
split_other symbol =
    if ltb 7 (length symbol) && ends_with symbol (codes "SUSDT")
    then take (length symbol - 5) symbol ++ (b'-' ∷ drop (length symbol - 5) symbol)
    else if leb (length symbol) 3
    then symbol
    else take 3 symbol ++ (b'-' ∷ drop 3 symbol)

unfoldable pub dashy_symbol : List Text → Text → Text
dashy_symbol symbols symbol = elim (find_char b'-' symbol) [
  | some pos ↦ symbol
  | none ↦ elim (configured symbols symbol) [
    | some s ↦ s
    | none ↦ elim (split_quote quotes symbol) [ some s ↦ s | none ↦ split_other symbol ]
  ]
]

abbrev pub replace_char : ℕ → ℕ → ℕ → ℕ
replace_char old new c = if c == old then new else c

unfoldable pub underline_to_dashy_symbol : Text → Text
underline_to_dashy_symbol symbol = map (replace_char b'_' b'-') symbol

unfoldable pub dashy_to_underline : Text → Text
dashy_to_underline symbol = map (replace_char b'-' b'_') symbol

take-drop_all : (n : ℕ) (s : Text) → take n s ++ drop n s ≡ s
take-drop_all zero s = refl
take-drop_all (suc n) [] = refl
take-drop_all (suc n) (c ∷ s) = ap (λ t. c ∷ t) (take-drop_all n s)

dashless-dash : (s t : Text) → dashless_symbol (s ++ (b'-' ∷ t)) ≡ dashless_symbol (s ++ t)
unfolding dashless_symbol
dashless-dash [] t = refl
dashless-dash (c ∷ s) t = rw (dashless-dash s t) refl

-- A dash that is put in anywhere is taken out again.
dashless-split :
    (n : ℕ) (s : Text) → dashless_symbol (take n s ++ (b'-' ∷ drop n s)) ≡ dashless_symbol s
dashless-split n s = dashless-dash (take n s) (drop n s) ∙ ap dashless_symbol (take-drop_all n s)

find_char-none :
    (c a : ℕ) (s : Text) → find_char c (a ∷ s) ≡ none → ((a == c) ≡ false) × (find_char c s ≡ none)
find_char-none c a s h = elim (Bool-cases (a == c)) [
  | inl b ↦ absurd (ground (arith, h, b))
  | inr b ↦ elim (Option-cases (find_char c s)) [
    | inl e ↦ (b, e)
    | inr (i, e) ↦ absurd (ground (arith, h, b, e))
  ]
]

-- A symbol without a dash loses nothing.
dashless_same : (s : Text) → find_char b'-' s ≡ none → dashless_symbol s ≡ s
unfolding dashless_symbol
dashless_same [] h = refl
dashless_same (c ∷ s) h =
    let (other, rest) = find_char-none b'-' c s h in
    rw other (ap (λ t. c ∷ t) (dashless_same s rest))

ends_with-drop :
    (symbol s : Text) → ends_with symbol s ≡ true → drop (length symbol - length s) symbol ≡ s
unfolding ends_with
ends_with-drop symbol s h =
    (text_eq_iff (drop (length symbol - length s) symbol) s).0 (ground (arith, h))

dashless-split_quote :
    (qs : List Text) (symbol s : Text)
    → split_quote qs symbol ≡ some s
    → dashless_symbol s ≡ dashless_symbol symbol
unfolding split_quote
dashless-split_quote [] symbol s h = absurd (ground (arith, h))
dashless-split_quote (q ∷ qs) symbol s h = elim (Bool-cases (ends_with symbol q)) [
  | inl b ↦
      let n = length symbol - length q in
      let at : take n symbol ++ (b'-' ∷ q) ≡ s = ground (arith, h, b) in
      let rest = ends_with-drop symbol q b in
      sym (ap dashless_symbol at)
      ∙ ap (λ t. dashless_symbol (take n symbol ++ (b'-' ∷ t))) (sym rest)
      ∙ dashless-split n symbol
  | inr b ↦ dashless-split_quote qs symbol s (ground (arith, h, b))
]

dashless-split_other :
    (symbol : Text) → dashless_symbol (split_other symbol) ≡ dashless_symbol symbol
unfolding split_other
dashless-split_other symbol =
    elim (Bool-cases (ltb 7 (length symbol) && ends_with symbol (codes "SUSDT"))) [
      | inl b ↦ rw b (dashless-split (length symbol - 5) symbol)
      | inr b ↦ elim (Bool-cases (leb (length symbol) 3)) [
        | inl short ↦ rw (b, short) refl
        | inr long ↦ rw (b, long) (dashless-split 3 symbol)
      ]
    ]

dashless-configured :
    (symbols : List Text) (symbol s : Text)
    → configured symbols symbol ≡ some s
    → dashless_symbol s ≡ symbol
unfolding configured
dashless-configured [] symbol s h = absurd (ground (arith, h))
dashless-configured (t ∷ symbols) symbol s h =
    elim (Bool-cases (text_eq (dashless_symbol t) symbol)) [
      | inl b ↦
          let at : t ≡ s = ground (arith, h, b) in
          sym (ap dashless_symbol at) ∙ (text_eq_iff (dashless_symbol t) symbol).0 b
      | inr b ↦ dashless-configured symbols symbol s (ground (arith, h, b))
    ]

-- Whatever symbols are configured, the symbol that dashySymbol answers differs from the given one in dashes only: without
-- dashes both are the same.
pub dashless-dashy :
    (symbols : List Text) (symbol : Text)
    → dashless_symbol (dashy_symbol symbols symbol) ≡ dashless_symbol symbol
unfolding dashy_symbol
dashless-dashy symbols symbol = elim (Option-cases (find_char b'-' symbol)) [
  | inr (i, dash) ↦ rw (dash, dashy_symbol) refl
  | inl no_dash ↦ elim (Option-cases (configured symbols symbol)) [
    | inr (s, known) ↦
        rw (no_dash, known, dashy_symbol)
          (dashless-configured symbols symbol s known ∙ sym (dashless_same symbol no_dash))
    | inl unknown ↦ elim (Option-cases (split_quote quotes symbol)) [
      | inr (s, split) ↦
          rw (no_dash, unknown, split, dashy_symbol) (dashless-split_quote quotes symbol s split)
      | inl other ↦ rw (no_dash, unknown, other, dashy_symbol) (dashless-split_other symbol)
    ]
  ]
]

-- A symbol without an underscore comes back from the spelling with underscores.
underline_roundtrip :
    (symbol : Text)
    → find_char b'_' symbol ≡ none
    → underline_to_dashy_symbol (dashy_to_underline symbol) ≡ symbol
unfolding underline_to_dashy_symbol dashy_to_underline
underline_roundtrip [] h = refl
underline_roundtrip (c ∷ s) h =
    let (other, rest) = find_char-none b'_' c s h in
    let back : replace_char b'_' b'-' (replace_char b'-' b'_' c) ≡ c = ground (arith, other) in
    ap (λ a. a ∷ map (replace_char b'_' b'-') (map (replace_char b'-' b'_') s)) back
    ∙ ap (λ t. c ∷ t) (underline_roundtrip s rest)

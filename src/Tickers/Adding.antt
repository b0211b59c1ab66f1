-- ===== src/Tickers/Adding.antt =====
-- `TickersState`: what adding a ticker does, and how many tickers are kept.
use cipher_trader.Prelude.{
  ◌≡◌, ◌≢◌, refl, ap, ◌∙◌, Bool, true, false, some, List, [], ◌∷◌, ◌++◌, Text, text_eq_iff, ok, err,
  out_of_range, arith, ◌⊎◌, inl, inr,
}
use cipher_trader.Prelude.Int.{ℤ}
use cipher_trader.Prelude.Dict.{insert, lookup, lookup-insert}
use cipher_trader.Double.{Double}
use cipher_trader.Blaze.{Blaze, IsBlaze}
use cipher_trader.DynamicArray.{DynamicArray, fit}
use cipher_trader.DynamicArray.View.{view}
use cipher_trader.DynamicArray.Append.{kept}
use cipher_trader.DynamicArray.Rolling.{Rolls, append_keeps_rolling}
use cipher_trader.Enums.{ExchangeName}
use cipher_trader.Tickers.{Storage, key, init, add_ticker, is_due}

module _ {D : Type 0} (d : Double D) (b : Blaze D) (laws : IsBlaze b) (of_int : ℤ → D) where
  -- The stored array took the ticker, or is as it was because the last ticker is too young.
  abbrev pub Took : ℤ → List D → DynamicArray b.Matrix → DynamicArray b.Matrix → Type 0
  Took now ticker a a' =
      ((is_due d b of_int now a ≡ ok true)
        × (view b laws a' ≡ kept (some 120) (view b laws a ++ fit b a.width ticker ∷ [])))
      ⊎ ((is_due d b of_int now a ≡ ok false) × (a' ≡ a))

  -- A ticker of an exchange and a symbol that have an array of tickers, which drops at 120, has fewer
  -- rows, and whose age can be read: the call succeeds, the array still has fewer than 120 rows, and
  -- no other array changes. If the array is empty, or its last ticker is at least a second old, the
  -- ticker is added; if the age is below a second, nothing changes.
  pub tickers_roll :
      (now : ℤ) (ticker : List D) (name : ExchangeName) (symbol : Text) (s : Storage d b of_int)
      (a : DynamicArray b.Matrix) (due : Bool)
      → lookup (key d b of_int name symbol) s ≡ some a
      → Rolls b laws 120 a
      → is_due d b of_int now a ≡ ok due
      → (s' : Storage d b of_int) × (a' : DynamicArray b.Matrix) × (add_ticker d b of_int now ticker
            name symbol s
          ≡ (ok tt, s'))
        × (lookup (key d b of_int name symbol) s' ≡ some a')
        × Rolls b laws 120 a'
        × Took now ticker a a'
        × ((k : Text) → k ≢ key d b of_int name symbol → lookup k s' ≡ lookup k s)
  unfolding add_ticker
  tickers_roll now ticker name symbol s a true h r t =
      let (a', e, w, r', _) = append_keeps_rolling b laws a ticker 120 (omega arith) r in
      let k = key d b of_int name symbol in
      (
        insert k a' s,
        a',
        rw (h, t, e, add_ticker) refl,
        lookup-insert k k a' s ∙ ground (arith, text_eq_iff k k),
        r',
        inl (t, w ∙ ap (λ o. kept o (view b laws a ++ fit b a.width ticker ∷ [])) r.drops),
        λ j n. lookup-insert k j a' s ∙ ground (arith, text_eq_iff k j, n),
      )
  tickers_roll now ticker name symbol s a false h r t =
      (s, a, rw (h, t, add_ticker) refl, h, r, inr (t, refl), λ j n. refl)

  -- `init` cannot fill an empty store: with any route it throws, since `at` asks for a key that is
  -- there.
  pub init_fails_empty :
      (empty : b.Matrix) (name : ExchangeName) (symbol : Text) (routes : List (ExchangeName × Text))
      → init d b of_int empty ((name, symbol) ∷ routes) [] ≡ (err out_of_range, [])
  unfolding init lookup
  init_fails_empty empty name symbol routes = refl

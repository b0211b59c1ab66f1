-- ===== src/Orderbooks/Levels.antt =====
-- How many levels a trimmed order book has, and how many a stored one can hold.
use cipher_trader.Prelude.{
  ℕ, suc, ◌+◌, ◌≤◌, ◌<◌, min, ◌≡◌, refl, Bool, true, false, some, List, [], ◌∷◌, ◌++◌, length, ◌==◌,
  length-append, Text, Result, ok, err, bad_access, arith, inl, inr, Bool-cases, and_then, subst,
  if◌then◌else◌,
}
use cipher_trader.Prelude.Int.{ℤ}
use cipher_trader.Prelude.Dict.{insert, lookup}
use cipher_trader.Double.{Double}
use cipher_trader.Blaze.{Blaze}
use cipher_trader.Enums.{ExchangeName}
use cipher_trader.Orderbooks.{
  Rounding, Level, Book, TempOrderbookData, State, key, trim_price, unit_of, beyond, walk, trim,
  fix_len, write_levels, blank, format_orderbook, add_orderbook, is_due,
}

module _ {D : Type 0} (d : Double D) (m : Rounding D) (nan : D) where
  -- If there is a result, its levels are at most `limit`, and at most `n`.
  abbrev Short : ℕ → ℕ → Result (List (Level D)) → Type 0
  Short limit n (err e) = Unit
  Short limit n (ok out) = (length out ≤ limit) × (length out ≤ n)

  Short-if :
      (limit n : ℕ) (t : Bool) (r k : Result (List (Level D)))
      → Short limit n r
      → Short limit n k
      → Short limit n (if t then r else k)
  Short-if limit n true r k h g = h
  Short-if limit n false r k h g = g

  Short-and_then :
      (limit n : ℕ) (o : Result D) (f : D → Result (List (Level D)))
      → ((a : D) → Short limit n (f a))
      → Short limit n (and_then o f)
  Short-and_then limit n (err e) f h = tt
  Short-and_then limit n (ok a) f h = h a

  walk-Short :
      (limit n : ℕ) (ascending : Bool) (unit : D) (levels : List (Level D)) (trimmed qty : D)
      (made : List (Level D))
      → length made ≤ limit
      → length made + length levels ≤ n
      → Short limit n (walk d m nan limit ascending unit levels trimmed qty made)
  unfolding walk
  walk-Short limit n ascending unit [] trimmed qty made h k = (h, omega (arith, k))
  walk-Short limit n ascending unit ((p, q) ∷ levels) trimmed qty made h k =
      elim (Bool-cases (length made == limit)) [
        | inl full ↦ rw full (h, omega (arith, k))
        | inr more ↦
            let one_more : length (made ++ (trimmed, qty) ∷ []) ≡ suc (length made) =
              omega (arith, length-append made ((trimmed, qty) ∷ [])) in
            rw more (
              Short-if limit n (beyond d m nan ascending p trimmed) _ _
                (Short-and_then limit n (trim_price d m nan ascending unit p) _ λ next.
                  walk-Short limit n ascending unit levels next (d.add q q)
                    (made ++ (trimmed, qty) ∷ []) (ground (arith, one_more, h, more))
                    (omega (arith, one_more, k)))
                (walk-Short limit n ascending unit levels trimmed (d.add qty q) made h
                  (omega (arith, k))))
      ]

  Short-ok :
      (limit n : ℕ) (r : Result (List (Level D))) (out : List (Level D))
      → Short limit n r
      → r ≡ ok out
      → (length out ≤ limit) × (length out ≤ n)
  Short-ok limit n r out h e = subst (Short limit n) e h

  -- The trimmed levels of an order book are at most `limit`. They are fewer than the levels given, if
  -- the first price does not lie beyond its own trimmed price: the last trimmed level is dropped.
  pub trimmed_book_is_short :
      (limit : ℕ) (ascending : Bool) (p q trimmed : D) (levels out : List (Level D))
      → trim_price d m nan ascending (unit_of d m nan p) p ≡ ok trimmed
      → beyond d m nan ascending p trimmed ≡ false
      → trim d m nan limit ascending ((p, q) ∷ levels) ≡ ok out
      → (length out ≤ limit) × (length out < length ((p, q) ∷ levels))
  unfolding trim walk
  trimmed_book_is_short limit ascending p q trimmed levels out h k e =
      let short : Short limit (length levels) (trim d m nan limit ascending ((p, q) ∷ levels)) =
        rw h (
          Short-if limit (length levels) (0 == limit) _ _ (omega arith, omega arith)
            (rw k (
              walk-Short limit (length levels) ascending (unit_of d m nan p) levels trimmed
                (d.add d.nought q) [] (omega arith) (omega arith)))) in
      let (l, n) =
        Short-ok limit (length levels) (trim d m nan limit ascending ((p, q) ∷ levels)) out short
          e in
      (l, omega (arith, n))

  third_level :
      (n : ℕ) (l₁ l₂ l₃ : Level D) (levels : List (Level D))
      → write_levels d m nan (suc (suc (suc n))) 0 (l₁ ∷ l₂ ∷ l₃ ∷ levels) (blank d m nan)
        ≡ err bad_access
  unfolding write_levels
  third_level n (p₁, q₁) (p₂, q₂) (p₃, q₃) levels = refl

  fix_len-third :
      (l₁ l₂ l₃ : Level D) (levels : List (Level D))
      → fix_len d m nan (l₁ ∷ l₂ ∷ l₃ ∷ levels) 50 ≡ err bad_access
  unfolding fix_len
  fix_len-third l₁ l₂ l₃ levels =
      let n : min (length (l₁ ∷ l₂ ∷ l₃ ∷ levels)) 50 ≡ suc (suc (suc (min (length levels) 47))) =
        omega arith in
      rw n (third_level (min (length levels) 47) l₁ l₂ l₃ levels)

  -- A book of the market whose trimmed asks have three levels or more cannot be stored: when the call
  -- is due, it keeps the book as the latest one, and then writes outside of the two arrays of a limit
  -- order book, which is undefined behaviour.
  pub deep_books_fail :
      (b : Blaze (Book D)) (now : ℤ) (name : ExchangeName) (symbol : Text)
      (asks bids : List (Level D)) (s : State d m nan b) (t : TempOrderbookData D)
      (l₁ l₂ l₃ : Level D) (levels out : List (Level D))
      → lookup (key d m nan b name symbol) s.temp_storage ≡ some t
      → is_due d m nan b now t.last_updated_timestamp ≡ true
      → trim d m nan 50 true asks ≡ ok (l₁ ∷ l₂ ∷ l₃ ∷ levels)
      → trim d m nan 50 false bids ≡ ok out
      → add_orderbook d m nan b now name symbol asks bids s ≡ (
        err bad_access,
        record s {
          temp_storage =
              insert
                (key d m nan b name symbol)
                (record { last_updated_timestamp = now; asks = asks; bids = bids })
                s.temp_storage;
        },
      )
  unfolding add_orderbook format_orderbook
  deep_books_fail b now name symbol asks bids s t l₁ l₂ l₃ levels out h k a e =
      let deep = fix_len-third l₁ l₂ l₃ levels in rw (h, k, a, e, deep, add_orderbook) refl

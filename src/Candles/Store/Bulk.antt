-- ===== src/Candles/Store/Bulk.antt =====
-- src/Candle.cpp: `addMultiple1MinCandles`, which adds or overwrites many candles of a minute. `backtest` says
-- that the program runs a back test or optimizes; `truncated` is the conversion of `double` to `int`.
use cipher_trader.Prelude.{
  ℕ, ◌-◌, ◌≡◌, refl, sym, ◌∙◌, Bool, true, not, ◌&&◌, ◌||◌, none, some, ◌++◌, ◌==◌, leb,
  if◌then◌else◌, Text, text_eq_iff, Result, ok, err, invalid_argument, runtime_error, out_of_range,
  and_then, M, arith, inl, inr, ◌⊎◌, Bool-cases,
}
use cipher_trader.Prelude.Int.{ℤ, pos, negsuc, ◌-ℤ◌}
use cipher_trader.Prelude.Dict.{insert, lookup, lookup-insert}
use cipher_trader.Double.{Double}
use cipher_trader.Blaze.{Blaze, IsBlaze}
use cipher_trader.DynamicArray.{append_multiple, negate, slice_start, slice_stop}
use cipher_trader.DynamicArray.View.{view}
use cipher_trader.DynamicArray.Multiple.{view-append_multiple}
use cipher_trader.Enums.{ExchangeName}
use cipher_trader.Timeframes.{minute_1}
use cipher_trader.Candles.Store.{Array, State, key, stamp, row_stamp, put}
use cipher_trader.Candles.Store.Placing.{Series}

module _ {D : Type 0} (d : Double D) (b : Blaze D) (of_int : ℤ → D) (truncated : D → ℤ) where
  -- `candles(i, _TIMESTAMP_)`
  abbrev new_stamp : ℕ → b.Matrix → Result D
  new_stamp i m = and_then (b.get_row m i) (stamp d b)

  -- `>=` of doubles
  abbrev at_least : D → D → Bool
  at_least u v = d.lt v u || d.eq u v

  abbrev stored : Array d b → Result b.Matrix → Result (Unit {0}) × Array d b
  stored a (err e) = (err e, a)
  stored a (ok m) = (ok tt, record a { contents = m })

  -- `rows(start, stop) = items`: the numbers of rows have to agree.
  abbrev assign_rows : ℤ → ℤ → b.Matrix → M (Array d b) (Unit {0})
  assign_rows start stop items a =
      let from = slice_start a.count start in
      let to = slice_stop a.count stop in
      if a.count == 0 || leb to from
      then (err out_of_range, a)
      else if to - from == b.row_count items && b.columns items == b.columns a.contents
      then stored a (b.copy_block a.contents from items (to - from) (b.columns a.contents))
      else (err invalid_argument, a)

  -- `n - (new - old) / 60'000`, as an `int`
  abbrev overlap : ℕ → D → D → ℤ
  overlap n new old =
      truncated (d.sub (of_int (pos n)) (d.div (d.sub new old) (of_int (pos 60000))))

  -- The first and the last new time, and the last old one
  abbrev times : b.Matrix → Array d b → Result (D × (D × D))
  times items a = and_then (new_stamp 0 items) λ first.
      and_then (row_stamp d b (negsuc 0) a)
        λ old. and_then (new_stamp (b.row_count items - 1) items) λ last. ok (first, (last, old))

  abbrev overwrite : b.Matrix → D → D → D → M (Array d b) (Unit {0})
  overwrite items first last old a = elim (row_stamp d b (negate (b.row_count items)) a) [
    | err e ↦ (err e, a)
    | ok start ↦
        if at_least first start && at_least last old
        then assign_rows (pos 0 -ℤ overlap (b.row_count items) last old) (pos a.count) items a
        else (err runtime_error, a)
  ]

  abbrev after_times : b.Matrix → Result (D × (D × D)) → M (Array d b) (Unit {0})
  after_times items (err e) a = (err e, a)
  after_times items (ok (first, (last, old))) a =
      if d.lt old first then append_multiple b items a else overwrite items first last old a

  unfoldable pub add_rows : b.Matrix → M (Array d b) (Unit {0})
  add_rows items a =
      if a.count == 0 then append_multiple b items a else after_times items (times items a) a

  unfoldable pub add_multiple_1min_candles :
      Bool → b.Matrix → ExchangeName → Text → M (State d b) (Unit {0})
  unfolding add_rows
  add_multiple_1min_candles backtest items name symbol s =
      if not backtest
      then (err runtime_error, s)
      else elim (lookup (key d b name symbol minute_1) s.storage) [
        | none ↦ (err out_of_range, s)
        | some a ↦ put d b (key d b name symbol minute_1) s (add_rows items a)
      ]

  module _ (laws : IsBlaze b) where
    -- The array has no candles, or the first new time is later than its last one; the first and the
    -- last new time can be read.
    abbrev pub Follows : b.Matrix → Array d b → Type 0
    Follows items a =
        (a.count ≡ 0)
        ⊎ ((first : D) × (last : D) × (old : D) × (times items a ≡ ok (first, (last, old)))
            × (d.lt old first ≡ true))

    -- In a back test, candles of a minute that follow the ones of a series are added to it: the call
    -- succeeds, and the rows are the old ones followed by the new ones.
    pub following_candles_are_appended :
        (items : b.Matrix) (name : ExchangeName) (symbol : Text) (s : State d b) (a : Array d b)
        → lookup (key d b name symbol minute_1) s.storage ≡ some a
        → Series d b laws a
        → b.columns items ≡ 6
        → Follows items a
        → (s' : State d b) × (a' : Array d b) × (add_multiple_1min_candles true items name symbol s
            ≡ (ok tt, s'))
          × (lookup (key d b name symbol minute_1) s'.storage ≡ some a')
          × (view b laws a' ≡ (
              if b.row_count items == 0 then view b laws a else view b laws a ++ laws.rows items))
    unfolding add_multiple_1min_candles add_rows
    following_candles_are_appended items name symbol s a h t w f =
        let k = key d b name symbol minute_1 in
        let (a', e, v, _) =
          view-append_multiple b laws a items t.inv (w ∙ sym t.six) (ground (arith, t.all)) in
        let seen : add_rows items a ≡ (ok tt, a') = elim f [
          | inl z ↦ let none_yet : (a.count == 0) ≡ true = ground (arith, z) in rw none_yet e
          | inr (first, last, old, g, l) ↦ elim (Bool-cases (a.count == 0)) [
            | inl z ↦ rw z e
            | inr p ↦ rw (p, g, l) e
          ]
        ] in
        (
          record s { storage = insert k a' s.storage },
          a',
          rw (h, seen) refl,
          lookup-insert k k a' s.storage ∙ ground (arith, text_eq_iff k k),
          v ∙ rw t.all refl,
        )

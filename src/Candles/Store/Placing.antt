-- ===== src/Candles/Store/Placing.antt =====
-- What a new candle does to the rows of an array of candles.
use cipher_trader.Prelude.{
  ℕ, zero, suc, ◌+◌, ◌≤◌, ◌≡◌, refl, sym, ap, ◌∙◌, true, false, none, some, List, [], ◌∷◌, ◌++◌,
  get_elem?, set, Result, ok, err, arith, ◌⊎◌, inl, inr, Bool-cases, Option-cases, or_fail,
  and_then, out_of_range, if◌then◌else◌, Text, text_eq_iff, ◌==◌,
}
use cipher_trader.Prelude.Int.{ℤ, negsuc}
use cipher_trader.Prelude.Dict.{insert, lookup, lookup-insert}
use cipher_trader.Double.{Double}
use cipher_trader.Blaze.{Blaze, IsBlaze}
use cipher_trader.DynamicArray.{append, row, assign_row, resolve, negate}
use cipher_trader.DynamicArray.View.{view, Inv}
use cipher_trader.DynamicArray.Append.{view-append, length-view}
use cipher_trader.DynamicArray.Read.{row_lem, at_index}
use cipher_trader.DynamicArray.Assign.{assign_row_lem}
use cipher_trader.Enums.{ExchangeName}
use cipher_trader.Timeframes.{Timeframe}
use cipher_trader.Candles.{Candle, to_row}
use cipher_trader.Candles.Store.{
  Array, row_stamp, stamp, update_previous, place, State, key, add_candle, add_to_array,
}

module _ {D : Type 0} (d : Double D) (b : Blaze D) (laws : IsBlaze b) where
  -- A well-formed array of six columns that drops nothing
  pub record Series (a : Array d b) : Type 0 where
    pub inv : Inv b laws a
    pub six : a.width ≡ 6
    pub room : 2 ≤ a.bucket_size
    pub all : a.drop_at ≡ none

  pub append-Series :
      (c : Candle D) (a : Array d b)
      → Series a
      → (a' : Array d b) × (append b (to_row c) a ≡ (ok tt, a'))
        × (view b laws a' ≡ view b laws a ++ to_row c ∷ [])
        × Series a'
  append-Series c a s =
      let (a', e, w, i, wide, k, o) =
        view-append b laws a (to_row c) s.inv s.room (ground (arith, s.all)) in
      (
        a',
        e,
        w ∙ rw (s.all, s.six) refl,
        record { inv = i; six = wide ∙ s.six; room = omega (arith, k, s.room); all = o ∙ s.all },
      )

  -- The candle replaced a row whose time is `t`.
  abbrev pub Replaced : Candle D → D → Array d b → Result (Unit {0}) × Array d b → Type 0
  Replaced c t a result =
      (k : ℕ) × (line : List D) × (a' : Array d b) × (result ≡ (ok tt, a'))
      × (get_elem? (view b laws a) k ≡ some line)
      × (stamp d b line ≡ ok t)
      × (view b laws a' ≡ set (view b laws a) k (to_row c))
      × Series a'

  pub stamp-row :
      (i : ℤ) (a : Array d b) (t : D)
      → Series a
      → row_stamp d b i a ≡ ok t
      → (k : ℕ) × (line : List D) × (resolve a.count i ≡ some k)
        × (get_elem? (view b laws a) k ≡ some line)
        × (stamp d b line ≡ ok t)
  stamp-row i a t s h =
      let at : row b i a
          ≡ or_fail (at_index b laws (view b laws a) (resolve a.count i)) out_of_range =
        row_lem b laws a i s.inv
        ∙ ap (λ n. or_fail (at_index b laws (view b laws a) (resolve n i)) out_of_range)
            (length-view b laws a s.inv) in
      let read = sym (ap (λ r. and_then r (stamp d b)) at) ∙ h in
      elim (Option-cases (resolve a.count i)) [
        | inl e ↦ ground (arith, e, read)
        | inr (k, e) ↦ elim (Option-cases (get_elem? (view b laws a) k)) [
          | inl n ↦ ground (arith, e, n, read)
          | inr (line, n) ↦ (k, line, e, n, ground (arith, e, n, read))
        ]
      ]

  -- A write at an index whose row has the time `t` replaces that row.
  assign-Replaced :
      (c : Candle D) (i : ℤ) (a : Array d b) (t : D)
      → Series a
      → row_stamp d b i a ≡ ok t
      → Replaced c t a (assign_row b i (to_row c) a)
  assign-Replaced c i a t s h =
      let (k, line, e, n, z) = stamp-row i a t s h in
      elim (assign_row_lem b laws a i (to_row c) s.inv (sym s.six)) [
        | inl (j, m, f, g, w, v) ↦
            let same : j ≡ k = ground (arith, e, f) in
            (
              k,
              line,
              record a { contents = m },
              g,
              n,
              z,
              w ∙ ap (λ q. set (view b laws a) q (to_row c)) same,
              record { inv = v; six = s.six; room = s.room; all = s.all },
            )
        | inr (f, g) ↦ ground (arith, e, f)
      ]

  -- The loop over old candles changed nothing, or replaced a candle of the same time.
  abbrev pub Looped : Candle D → Array d b → Result (Unit {0}) × Array d b → Type 0
  Looped c a q =
      ((r : Result (Unit {0})) × (q ≡ (r, a)))
      ⊎ ((t : D) × (d.eq c.timestamp t ≡ true) × Replaced c t a q)

  loop_step :
      (i : ℤ) (c : Candle D) (a : Array d b) (rest : Result (Unit {0}) × Array d b) (o : Result D)
      → Series a
      → Looped c a rest
      → row_stamp d b i a ≡ o
      → Looped c a (elim o [
        | err e ↦ (err e, a)
        | ok t ↦ if d.eq c.timestamp t then assign_row b i (to_row c) a else rest
      ])
  loop_step i c a rest (err e) s l h = inl (err e, refl)
  loop_step i c a rest (ok t) s l h = elim (Bool-cases (d.eq c.timestamp t)) [
    | inl same ↦ rw same (inr (t, same, assign-Replaced c i a t s h))
    | inr other ↦ rw other l
  ]

  update_previous-Looped :
      (n i : ℕ) (c : Candle D) (a : Array d b) → Series a → Looped c a (update_previous d b n i c a)
  unfolding update_previous
  update_previous-Looped zero i c a s = inl (ok tt, refl)
  update_previous-Looped (suc n) i c a s =
      loop_step (negate i) c a (update_previous d b n (i + 1) c a) (row_stamp d b (negate i) a) s
        (update_previous-Looped n (i + 1) c a s) refl

  -- What `place` does to a series whose last time is `last`: it appends a later candle, or changes
  -- nothing, or replaces a candle of the same time.
  pub place-Outcome :
      (c : Candle D) (last : D) (a : Array d b)
      → Series a
      → row_stamp d b (negsuc 0) a ≡ ok last
      → ((d.lt last c.timestamp ≡ true)
          × ((a' : Array d b) × (place d b c last a ≡ (ok tt, a'))
              × (view b laws a' ≡ view b laws a ++ to_row c ∷ [])
              × Series a'))
        ⊎ Looped c a (place d b c last a)
  place-Outcome c last a s h = elim (Bool-cases (d.lt last c.timestamp)) [
    | inl later ↦ let (a', e, w, t) = append-Series c a s in inl (later, (a', rw later e, w, t))
    | inr early ↦ inr (elim (Bool-cases (d.eq c.timestamp last)) [
      | inl same ↦ rw (early, same) (inr (last, same, assign-Replaced c (negsuc 0) a last s h))
      | inr other ↦ rw (early, other) (update_previous-Looped _ 0 c a s)
    ])
  ]

  -- Outside live mode, a candle whose time is not 0 and later than the last time of a series that is not
  -- empty is added: the call succeeds, and the rows are the old ones followed by the candle.
  pub later_candle_is_appended :
      (name : ExchangeName) (symbol : Text) (timeframe : Timeframe) (c : Candle D) (s : State d b)
      (a : Array d b) (last : D)
      → lookup (key d b name symbol timeframe) s.storage ≡ some a
      → Series a
      → row_stamp d b (negsuc 0) a ≡ ok last
      → d.lt last c.timestamp ≡ true
      → d.eq c.timestamp d.nought ≡ false
      → (s' : State d b) × (a' : Array d b) × (add_candle d b name symbol timeframe c s
          ≡ (ok tt, s'))
        × (lookup (key d b name symbol timeframe) s'.storage ≡ some a')
        × (view b laws a' ≡ view b laws a ++ to_row c ∷ [])
        × Series a'
  unfolding add_candle add_to_array
  later_candle_is_appended name symbol timeframe c s a last h t r later timed =
      let k = key d b name symbol timeframe in
      let (j, line, f, _, _) = stamp-row (negsuc 0) a last t r in
      let some_rows : (a.count == 0) ≡ false = ground (arith, f) in
      let (a', e, w, v) = append-Series c a t in
      (
        record s { storage = insert k a' s.storage },
        a',
        rw (timed, h, some_rows, r, later, e, add_candle) refl,
        lookup-insert k k a' s.storage ∙ ground (arith, text_eq_iff k k),
        w,
        v,
      )

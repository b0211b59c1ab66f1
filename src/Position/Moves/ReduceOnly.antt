-- ===== src/Position/Moves/ReduceOnly.antt =====
-- `Position`: what a reduce-only order can do to the entry price.
use cipher_trader.Prelude.{
  ℕ, ◌≡◌, refl, ap, ◌∙◌, Bool, true, false, Option, none, some, Result, ok, err, M, bind, ◌⊎◌, inl,
  arith,
}
use cipher_trader.Double.{Double}
use cipher_trader.Helper.Decimal.{Decimals}
use cipher_trader.Enums.{ExchangeType, spot, futures}
use cipher_trader.Order.{Order}
use cipher_trader.Position.{Position, PositionExchange, Casts, called, type_of}
use cipher_trader.Position.Moves.{
  on_executed_order, on_backtest_order, Move, opens, closes, increases, reduces, flips, nothing,
  order_price, move_of, perform, charge,
}
use cipher_trader.Position.Moves.Entry.{
  KeptOrCleared, SetsNoEntry, close_position-SetsNoEntry, reduce-SetsNoEntry,
}

module _ {D F E : Type 0} (d : Double D) (f : Double F) (c : Casts D F) (x : Decimals D)
    (ex : PositionExchange D E) where
  -- What a reduce-only order asks of an open position
  abbrev safe : Move → Bool
  safe closes = true
  safe reduces = true
  safe nothing = true
  safe _ = false

  move_of-safe :
      (position_qty qty : D)
      → d.eq position_qty d.nought ≡ false
      → safe (move_of d f c x ex false position_qty qty true) ≡ true
  unfolding move_of
  move_of-safe position_qty qty h = ground (arith, h)

  perform-SetsNoEntry :
      (now : ℕ) (old qty price : D) (m : Move)
      → safe m ≡ true
      → SetsNoEntry d f c x ex (perform d f c x ex false now old qty price m)
  perform-SetsNoEntry now old qty price opens h p = ground (arith, h)
  perform-SetsNoEntry now old qty price closes h p =
      close_position-SetsNoEntry d f c x ex now price p
  perform-SetsNoEntry now old qty price increases h p = ground (arith, h)
  perform-SetsNoEntry now old qty price reduces h p = reduce-SetsNoEntry d f c x ex qty price p
  perform-SetsNoEntry now old qty price flips h p = ground (arith, h)
  perform-SetsNoEntry now old qty price nothing h p = inl refl

  abbrev moved : ℕ → Order D → M (Position D E) (Unit {0})
  moved now o p =
      perform d f c x ex false now p.qty o.qty (order_price d f c x ex false o)
        (move_of d f c x ex false p.qty o.qty o.reduce_only) p

  moved-KeptOrCleared :
      (now : ℕ) (o : Order D) (p : Position D E)
      → o.reduce_only ≡ true
      → d.eq p.qty d.nought ≡ false
      → KeptOrCleared d f c x ex p (moved now o p).1
  moved-KeptOrCleared now o p h k =
      perform-SetsNoEntry now p.qty o.qty (order_price d f c x ex false o)
        (move_of d f c x ex false p.qty o.qty o.reduce_only)
        (ap (λ b. safe (move_of d f c x ex false p.qty o.qty b)) h ∙ move_of-safe p.qty o.qty k) p

  after_call-KeptOrCleared :
      (now : ℕ) (o : Order D) (p : Position D E) (r : Result (Unit {0})) (e : E)
      → o.reduce_only ≡ true
      → d.eq p.qty d.nought ≡ false
      → KeptOrCleared d f c x ex p (bind (called d f c x ex false p (r, e)) λ _. moved now o).1
  after_call-KeptOrCleared now o p (ok tt) e h k =
      moved-KeptOrCleared now o (record p { exchange = some e }) h k
  after_call-KeptOrCleared now o p (err u) e h k = inl refl

  after_charge-KeptOrCleared :
      (now : ℕ) (o : Order D) (p : Position D E) (t : ExchangeType) (e : Option E)
      → o.reduce_only ≡ true
      → d.eq p.qty d.nought ≡ false
      → p.exchange ≡ e
      → KeptOrCleared d f c x ex p (bind (charge d f c x ex false o t p) λ _. moved now o).1
  after_charge-KeptOrCleared now o p spot e h k i = moved-KeptOrCleared now o p h k
  after_charge-KeptOrCleared now o p futures none h k i = rw i (inl refl)
  after_charge-KeptOrCleared now o p futures (some e) h k i =
      let fee = ex.charge_fee (d.mul o.qty (order_price d f c x ex false o)) e in
      rw i (after_call-KeptOrCleared now o p fee.0 fee.1 h k)

  after_type-KeptOrCleared :
      (now : ℕ) (o : Order D) (p : Position D E) (r : Result ExchangeType)
      → o.reduce_only ≡ true
      → d.eq p.qty d.nought ≡ false
      → KeptOrCleared d f c x ex p
          (bind (bind (r, p) (charge d f c x ex false o)) λ _. moved now o).1
  after_type-KeptOrCleared now o p (ok t) h k =
      after_charge-KeptOrCleared now o p t p.exchange h k refl
  after_type-KeptOrCleared now o p (err u) h k = inl refl

  -- Outside live trading, a reduce-only order that is executed on a position whose quantity is not
  -- zero sets no entry price: it leaves the entry price as it is, or clears it. This holds also if
  -- the execution throws.
  pub reduce_only_keeps_entry :
      (now : ℕ) (o : Order D) (p : Position D E)
      → o.reduce_only ≡ true
      → d.eq p.qty d.nought ≡ false
      → ((on_executed_order d f c x ex false now o p).1.entry_price ≡ p.entry_price)
        ⊎ ((on_executed_order d f c x ex false now o p).1.entry_price ≡ none)
  unfolding on_executed_order on_backtest_order
  reduce_only_keeps_entry now o p h k =
      after_type-KeptOrCleared now o p (type_of d f c x ex false p) h k

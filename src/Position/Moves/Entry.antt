-- ===== src/Position/Moves/Entry.antt =====
-- `Position`: `close` and `reduce` set no entry price.
use cipher_trader.Prelude.{
  ℕ, ◌≡◌, refl, Bool, true, false, not, none, some, if◌then◌else◌, Result, ok, err, Error,
  empty_position, M, bind, ◌>>=◌, ◌>>◌, pure, throw, modify, ◌⊎◌, inl, inr, arith,
}
use cipher_trader.Double.{Double}
use cipher_trader.Helper.Decimal.{Decimals}
use cipher_trader.Helper.Symbols.{get_base_asset}
use cipher_trader.Enums.{ExchangeType, PositionType, spot, futures, long, short, close}
use cipher_trader.Position.{
  Position, PositionExchange, Casts, Operation, set_to, add_to, subtract_from, ask, call, type_of,
  get_position_type, is_open, can_mutate_qty, update_qty,
}
use cipher_trader.Position.Moves.{
  close_position, close_at, reduce, reduce_by, realize, settle_close, settle_reduce, set_if, shift,
  profit, closed_and_mutable,
}

module _ {D F E : Type 0} (d : Double D) (f : Double F) (c : Casts D F) (x : Decimals D)
    (ex : PositionExchange D E) where
  -- The entry price is the same, or there is none any more.
  abbrev pub KeptOrCleared : Position D E → Position D E → Type 0
  KeptOrCleared p t = (t.entry_price ≡ p.entry_price) ⊎ (t.entry_price ≡ none)

  KeptOrCleared-trans :
      (p q t : Position D E) → KeptOrCleared p q → KeptOrCleared q t → KeptOrCleared p t
  KeptOrCleared-trans p q t h k = ground (arith, h, k)

  -- A call that sets no entry price, whether it succeeds or not
  abbrev pub SetsNoEntry : {A : Type 0} → M (Position D E) A → Type 0
  SetsNoEntry m = (p : Position D E) → KeptOrCleared p (m p).1

  bound :
      {A B : Type 0} (k : A → M (Position D E) B) (p : Position D E) (r : Result A)
      (q : Position D E)
      → KeptOrCleared p q
      → ((a : A) → SetsNoEntry (k a))
      → KeptOrCleared p (bind (r, q) k).1
  bound k p (ok a) q h g = KeptOrCleared-trans p q (k a q).1 h (g a q)
  bound k p (err u) q h g = h

  bind-SetsNoEntry :
      {A B : Type 0} (m : M (Position D E) A) (k : A → M (Position D E) B)
      → SetsNoEntry m
      → ((a : A) → SetsNoEntry (k a))
      → SetsNoEntry (m >>= k)
  bind-SetsNoEntry m k h g p = bound k p (m p).0 (m p).1 (h p) g

  ask-SetsNoEntry :
      {A : Type 0} (g : Position D E → Result A) → SetsNoEntry (ask d f c x ex false g)
  ask-SetsNoEntry g p = inl refl

  call-SetsNoEntry : (m : M E (Unit {0})) → SetsNoEntry (call d f c x ex false m)
  call-SetsNoEntry m p = ground arith

  update-SetsNoEntry : (qty : D) (op : Operation) → SetsNoEntry (update_qty d f c x ex false qty op)
  unfolding update_qty
  update-SetsNoEntry qty op p = ground arith

  realize-SetsNoEntry : (qty price gain : D) → SetsNoEntry (realize d f c x ex false qty price gain)
  realize-SetsNoEntry qty price gain p =
      bind-SetsNoEntry (call d f c x ex false (ex.add_realized_pnl gain))
        (λ _. call d f c x ex false (
          ex.increase_asset_temp_reduced_amount (get_base_asset p.symbol)
            (d.abs (d.mul qty price))))
        (call-SetsNoEntry (ex.add_realized_pnl gain))
        (λ _. call-SetsNoEntry (
          ex.increase_asset_temp_reduced_amount (get_base_asset p.symbol)
            (d.abs (d.mul qty price))))
        p

  settle_close-SetsNoEntry :
      (price : D) (t : ExchangeType) → SetsNoEntry (settle_close d f c x ex false price t)
  settle_close-SetsNoEntry price spot p = inl refl
  settle_close-SetsNoEntry price futures p =
      bind-SetsNoEntry (ask d f c x ex false (profit d f c x ex false (d.abs p.qty) price))
        (realize d f c x ex false (d.abs p.qty) price)
        (ask-SetsNoEntry (profit d f c x ex false (d.abs p.qty) price))
        (realize-SetsNoEntry (d.abs p.qty) price) p

  set_if-SetsNoEntry : (b : Bool) (qty : D) → SetsNoEntry (set_if d f c x ex false b qty)
  set_if-SetsNoEntry true qty p = update-SetsNoEntry qty set_to p
  set_if-SetsNoEntry false qty p = inl refl

  shift-SetsNoEntry :
      (a b : Operation) (qty : D) (t : PositionType)
      → SetsNoEntry (shift d f c x ex false a b qty t)
  shift-SetsNoEntry a b qty long p = update-SetsNoEntry qty a p
  shift-SetsNoEntry a b qty short p = update-SetsNoEntry qty b p
  shift-SetsNoEntry a b qty close p = inl refl

  settle_reduce-SetsNoEntry :
      (qty price gain : D) (t : ExchangeType)
      → SetsNoEntry (settle_reduce d f c x ex false qty price gain t)
  settle_reduce-SetsNoEntry qty price gain spot p = inl refl
  settle_reduce-SetsNoEntry qty price gain futures p = realize-SetsNoEntry qty price gain p

  then-SetsNoEntry :
      {A B : Type 0} (m : M (Position D E) A) (g : Position D E → Result B)
      → SetsNoEntry m
      → SetsNoEntry (m >> ask d f c x ex false g)
  then-SetsNoEntry m g h =
      bind-SetsNoEntry m (λ _. ask d f c x ex false g) h (λ _. ask-SetsNoEntry g)

  abbrev settle_gain : D → D → D → M (Position D E) (Unit {0})
  settle_gain qty price gain =
      ask d f c x ex false (type_of d f c x ex false)
      >>= settle_reduce d f c x ex false qty price gain

  settle_gain-SetsNoEntry : (qty price gain : D) → SetsNoEntry (settle_gain qty price gain)
  settle_gain-SetsNoEntry qty price gain =
      bind-SetsNoEntry (ask d f c x ex false (type_of d f c x ex false))
        (settle_reduce d f c x ex false qty price gain) (ask-SetsNoEntry (type_of d f c x ex false))
        (settle_reduce-SetsNoEntry qty price gain)

  -- The part of `reduce` before its change of the quantity
  abbrev realized : D → D → M (Position D E) (Unit {0})
  realized qty price =
      ask d f c x ex false (profit d f c x ex false qty price) >>= settle_gain qty price

  realized-SetsNoEntry : (qty price : D) → SetsNoEntry (realized qty price)
  realized-SetsNoEntry qty price =
      bind-SetsNoEntry (ask d f c x ex false (profit d f c x ex false qty price))
        (settle_gain qty price) (ask-SetsNoEntry (profit d f c x ex false qty price))
        (settle_gain-SetsNoEntry qty price)

  abbrev typed : D → D → M (Position D E) PositionType
  typed qty price = realized qty price >> ask d f c x ex false (get_position_type d f c x ex false)

  reduce_by-SetsNoEntry : (qty price : D) → SetsNoEntry (reduce_by d f c x ex false qty price)
  unfolding reduce_by
  reduce_by-SetsNoEntry qty price =
      bind-SetsNoEntry (typed qty price) (shift d f c x ex false subtract_from add_to qty)
        (then-SetsNoEntry (realized qty price) (get_position_type d f c x ex false)
          (realized-SetsNoEntry qty price))
        (shift-SetsNoEntry subtract_from add_to qty)

  -- The parts of `close` before the settlement, and before the change of the quantity
  abbrev stamped : ℕ → D → M (Position D E) (Unit {0})
  stamped now price = modify λ p. record p { exit_price = some price; closed_at = some now }

  abbrev settled : ℕ → D → M (Position D E) (Unit {0})
  settled now price =
      stamped now price
      >> ask d f c x ex false (type_of d f c x ex false)
      >>= settle_close d f c x ex false price

  settled-SetsNoEntry : (now : ℕ) (price : D) → SetsNoEntry (settled now price)
  settled-SetsNoEntry now price =
      bind-SetsNoEntry (stamped now price >> ask d f c x ex false (type_of d f c x ex false))
        (settle_close d f c x ex false price)
        (then-SetsNoEntry (stamped now price) (type_of d f c x ex false) (λ p. inl refl))
        (settle_close-SetsNoEntry price)

  abbrev mutable : ℕ → D → M (Position D E) Bool
  mutable now price = settled now price >> ask d f c x ex false (can_mutate_qty d f c x ex false)

  abbrev emptied : ℕ → D → M (Position D E) (Unit {0})
  emptied now price = mutable now price >>= λ b. set_if d f c x ex false b d.nought

  emptied-SetsNoEntry : (now : ℕ) (price : D) → SetsNoEntry (emptied now price)
  emptied-SetsNoEntry now price =
      bind-SetsNoEntry (mutable now price) (λ b. set_if d f c x ex false b d.nought)
        (then-SetsNoEntry (settled now price) (can_mutate_qty d f c x ex false)
          (settled-SetsNoEntry now price))
        (λ b. set_if-SetsNoEntry b d.nought)

  close_at-SetsNoEntry : (now : ℕ) (price : D) → SetsNoEntry (close_at d f c x ex false now price)
  unfolding close_at
  close_at-SetsNoEntry now price =
      bind-SetsNoEntry (emptied now price) (λ _. modify λ p. record p { entry_price = none })
        (emptied-SetsNoEntry now price) (λ _ p. inr refl)

  unless-SetsNoEntry :
      (b : Bool) (u : Error) (m : M (Position D E) (Unit {0}))
      → SetsNoEntry m
      → SetsNoEntry (if b then throw u else m)
  unless-SetsNoEntry true u m h p = inl refl
  unless-SetsNoEntry false u m h p = h p

  pub close_position-SetsNoEntry :
      (now : ℕ) (price : D) → SetsNoEntry (close_position d f c x ex false now price)
  unfolding close_position
  close_position-SetsNoEntry now price =
      bind-SetsNoEntry (ask d f c x ex false (closed_and_mutable d f c x ex false))
        (λ b. if b then throw empty_position else close_at d f c x ex false now price)
        (ask-SetsNoEntry (closed_and_mutable d f c x ex false))
        (λ b.
          unless-SetsNoEntry b empty_position (close_at d f c x ex false now price)
            (close_at-SetsNoEntry now price))

  -- The part of `reduce` behind its first guard
  abbrev guarded : D → D → Bool → M (Position D E) (Unit {0})
  guarded qty price b =
      if not b
      then pure tt
      else ask d f c x ex false (is_open d f c x ex false) >>= λ q.
          if not q then throw empty_position else reduce_by d f c x ex false (d.abs qty) price

  guarded-SetsNoEntry : (qty price : D) (b : Bool) → SetsNoEntry (guarded qty price b)
  guarded-SetsNoEntry qty price false p = inl refl
  guarded-SetsNoEntry qty price true p =
      bind-SetsNoEntry (ask d f c x ex false (is_open d f c x ex false))
        (λ q. if not q then throw empty_position else reduce_by d f c x ex false (d.abs qty) price)
        (ask-SetsNoEntry (is_open d f c x ex false))
        (λ q.
          unless-SetsNoEntry (not q) empty_position (reduce_by d f c x ex false (d.abs qty) price)
            (reduce_by-SetsNoEntry (d.abs qty) price))
        p

  pub reduce-SetsNoEntry : (qty price : D) → SetsNoEntry (reduce d f c x ex false qty price)
  unfolding reduce
  reduce-SetsNoEntry qty price =
      bind-SetsNoEntry (ask d f c x ex false (can_mutate_qty d f c x ex false)) (guarded qty price)
        (ask-SetsNoEntry (can_mutate_qty d f c x ex false)) (guarded-SetsNoEntry qty price)

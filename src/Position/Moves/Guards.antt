-- ===== src/Position/Moves/Guards.antt =====
-- `Position`: which operations are refused in which state.
use cipher_trader.Prelude.{
  ℕ, ◌≡◌, refl, Bool, true, false, some, Text, ok, err, null_pointer, empty_position,
  open_position_error, ◌⊎◌, inl, inr, arith, Bool-cases,
}
use cipher_trader.Double.{Double}
use cipher_trader.Helper.Decimal.{Decimals}
use cipher_trader.Enums.{ExchangeName}
use cipher_trader.Order.{Order}
use cipher_trader.Position.{
  Position, PositionExchange, Casts, type_by_qty, get_min_qty, get_position_type, closed_type,
  is_close, is_open, can_mutate_qty, construct_position,
}
use cipher_trader.Position.Moves.{
  close_position, open_position, increase, reduce, on_executed_order, on_backtest_order,
}

module _ {D F E : Type 0} (d : Double D) (f : Double F) (c : Casts D F) (x : Decimals D)
    (ex : PositionExchange D E) where
  -- A position as its constructor makes it cannot take an executed order: no exchange is set, so that
  -- every call of `onExecutedOrder`, in live trading and outside, follows a null pointer.
  pub unassigned_exchange_fails :
      (live : Bool) (id : Text) (name : ExchangeName) (symbol : Text) (now : ℕ) (o : Order D)
      → on_executed_order d f c x ex live now o (construct_position d f c x ex live id name symbol)
        ≡ (err null_pointer, construct_position d f c x ex live id name symbol)
  unfolding on_executed_order on_backtest_order construct_position
  unassigned_exchange_fails true id name symbol now o = refl
  unassigned_exchange_fails false id name symbol now o = refl

  -- Outside live trading a position with an exchange is open or closed. If it is open, it cannot be
  -- opened; if it is closed, it cannot be closed, reduced or increased. A refused call changes
  -- nothing.
  pub guards_fit :
      (p : Position D E) (e : E) (now : ℕ) (qty price : D)
      → p.exchange ≡ some e
      → ((is_open d f c x ex false p ≡ ok true)
          × (is_close d f c x ex false p ≡ ok false)
          × (open_position d f c x ex false now qty price p ≡ (err open_position_error, p)))
        ⊎ ((is_open d f c x ex false p ≡ ok false)
            × (is_close d f c x ex false p ≡ ok true)
            × (close_position d f c x ex false now price p ≡ (err empty_position, p))
            × (reduce d f c x ex false qty price p ≡ (err empty_position, p))
            × (increase d f c x ex false qty price p ≡ (err open_position_error, p)))
  unfolding is_open is_close get_position_type get_min_qty can_mutate_qty open_position
      close_position reduce increase
  guards_fit p e now qty price h =
      elim (Bool-cases
        (closed_type d f c x ex false (type_by_qty d f c x ex false p.qty d.nought))) [
          | inl b ↦ inr (
            ground (arith, b),
            ground (arith, b),
            ground (arith, h, b),
            ground (arith, h, b),
            ground (arith, h, b),
          )
          | inr b ↦ inl (ground (arith, b), ground (arith, b), ground (arith, h, b))
        ]

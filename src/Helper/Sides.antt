-- ===== src/Helper/Sides.antt =====
-- src/Helper.cpp: the sides of orders and the types of positions. The last branch of
-- `orderSideToPositionType` is for values outside the enumeration.
use cipher_trader.Prelude.{◌≡◌, Result, ok, err, invalid_argument, and_then, arith}
use cipher_trader.Enums.{OrderSide, buy, sell, PositionType, long, short, close}

unfoldable pub opposite_side : OrderSide → Result OrderSide
opposite_side buy = ok sell
opposite_side sell = ok buy

pub opposite_position_type : PositionType → Result PositionType
opposite_position_type long = ok short
opposite_position_type short = ok long
opposite_position_type close = err invalid_argument

pub order_side_to_position_type : OrderSide → Result PositionType
order_side_to_position_type buy = ok long
order_side_to_position_type sell = ok short

unfoldable pub position_type_to_order_side : PositionType → Result OrderSide
position_type_to_order_side long = ok buy
position_type_to_order_side short = ok sell
position_type_to_order_side close = err invalid_argument

pub closing_side : PositionType → Result OrderSide
closing_side long = ok sell
closing_side short = ok buy
closing_side close = err invalid_argument

-- The five conversions fit together. Opposites of sides and of position types are involutions,
-- the opposite of a closed position is refused. A side becomes the position type that it opens, and
-- back. The side that closes a position is the opposite of the side that opens it, for every
-- position type, and no side belongs to a closed position.
pub side_conversions_fit :
    ((s : OrderSide) → and_then (opposite_side s) opposite_side ≡ ok s)
    × ((s : OrderSide)
        → and_then (order_side_to_position_type s) position_type_to_order_side ≡ ok s)
    × ((p : PositionType) → closing_side p ≡ and_then (position_type_to_order_side p) opposite_side)
    × ((s : OrderSide)
        → and_then (opposite_side s) order_side_to_position_type
          ≡ and_then (order_side_to_position_type s) opposite_position_type)
    × (opposite_position_type close ≡ err invalid_argument)
unfolding opposite_side opposite_position_type order_side_to_position_type
    position_type_to_order_side closing_side
side_conversions_fit = ground arith

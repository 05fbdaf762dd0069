-- ===== src/Basket.antt =====
-- Basket orders, include/kungfu/wingchun/basketorder/basketorder.h and
-- src/wingchun/basketorder/basketorder.cpp: the volume and the state of a basket order, from those of its
-- orders. `hash` is the hash of an exchange and an instrument, below 2^32; none is the exception that
-- `get_direction` throws.
mod Volumes
mod Settling
pub mod Engine
mod Tracking
mod Running
mod Tests
use Prim.Native.String.{String}
use kungfu_cpp.Base.{
  ℕ, ◌-◌, ◌%◌, ◌^◌, Bool, true, false, not, ◌&&◌, ◌||◌, Option, none, some, List, [], ◌∷◌,
  if◌then◌else◌, ◌==◌, ltb,
}
use kungfu_cpp.Base.Chains.{◌>>=◌}
use kungfu_cpp.Base.Dict.{lookup, assign}
use kungfu_cpp.Base.Int.{ℤ, pos, sub_ℕ, ◌+ℤ◌, ◌-ℤ◌, ltb_ℤ, eq_ℤ}
use kungfu_cpp.Wingchun.Enums.{
  Side, PriceType, PriceLevel, Direction, long, short, BasketOrderStatus, filled,
  partial_filled_not_active, partial_filled_active, pending, BasketOrderCalculationMode, static,
  dynamic,
}
use kungfu_cpp.Wingchun.Directions.{get_direction, is_final_status}
use kungfu_cpp.Wingchun.Orders.{Order}

-- `hash_instrument(order)`, an int32_t, as the uint32_t with the same bits.
abbrev pub flagged : ℕ → Direction → ℕ
flagged h long = h
flagged h short = (2 ^ 32 - h) % 2 ^ 32

abbrev pub is_static : BasketOrderCalculationMode → Bool
is_static static = true
is_static dynamic = false

module _ (Val : Type 0) where
  pub record BasketOrder : Type 0 where
    pub order_id : ℕ
    pub parent_id : ℕ
    pub insert_time : ℕ
    pub update_time : ℕ
    pub side : Side
    pub price_type : PriceType
    pub price_level : PriceLevel
    pub price_offset : Val
    pub volume : ℤ
    pub volume_left : ℤ
    pub status : BasketOrderStatus
    pub source_id : ℕ
    pub dest_id : ℕ
    pub calculation_mode : BasketOrderCalculationMode

  -- `source`, `dest` and `update_time` are those of `state<BasketOrder>`.
  pub record BasketOrderState : Type 0 where
    pub source : ℕ
    pub dest : ℕ
    pub update_time : ℕ
    pub basket_order : BasketOrder
    pub orders : List (ℕ × Order Val)
    pub last_orders : List (ℕ × Order Val)

  abbrev pub traded : Order Val → ℤ
  traded o = sub_ℕ o.volume o.volume_left

  unfoldable pub get_total_traded_volume : List (ℕ × Order Val) → ℤ
  get_total_traded_volume [] = pos 0
  get_total_traded_volume ((id, o) ∷ m) = traded o +ℤ get_total_traded_volume m

  unfoldable pub is_all_order_end : List (ℕ × Order Val) → Bool
  unfolding is_final_status
  is_all_order_end [] = true
  is_all_order_end ((id, o) ∷ m) = is_final_status o.status && is_all_order_end m

  -- What the status becomes, by whether all orders are over, what is left and the volume.
  abbrev pub basket_status : Bool → ℤ → ℤ → BasketOrderStatus
  basket_status ended volume_left volume =
      if ended && eq_ℤ volume_left (pos 0)
      then filled
      else if ended
      then partial_filled_not_active
      else if ltb_ℤ volume_left volume
      then partial_filled_active
      else pending

  -- The new order is the last one of its instrument unless an order that was inserted later is.
  abbrev pub newer :
      Option (Order Val) → ℕ → Order Val → List (ℕ × Order Val) → List (ℕ × Order Val)
  newer none k o m = (k, o) ∷ m
  newer (some old) k o m = if ltb o.insert_time old.insert_time then m else assign k o m

  abbrev pub is_last_of : Option (Order Val) → Order Val → Bool
  is_last_of none o = false
  is_last_of (some l) o = l.order_id == o.order_id

  -- What an order counts for in the volume of a dynamic basket order.
  abbrev pub counted : Bool → Order Val → ℤ
  counted is_last_order o =
      if is_last_order
      then pos o.volume
      else if is_final_status o.status
      then traded o
      else pos o.volume

  -- `basket_order.volume_left` and the status, for the new volume.
  unfoldable pub settled : ℤ → BasketOrderState → BasketOrderState
  unfolding get_total_traded_volume is_all_order_end
  settled volume s =
      let volume_left = volume -ℤ get_total_traded_volume s.orders in
      record s {
        basket_order = record s.basket_order {
          volume = volume;
          volume_left = volume_left;
          status = basket_status (is_all_order_end s.orders) volume_left volume;
        };
      }

  module _ (hash : String → String → ℕ) where
    unfoldable pub hash_order : Order Val → Option ℕ
    unfolding get_direction
    hash_order o = do
      direction ← get_direction o.instrument_type o.side o.offset
      some (flagged (hash o.exchange_id o.instrument_id) direction)

    unfoldable pub update_last_order : Order Val → BasketOrderState → Option BasketOrderState
    unfolding hash_order
    update_last_order o s = do
      k ← hash_order o
      some (record s {
        orders = assign o.order_id o s.orders;
        last_orders = newer (lookup k s.last_orders) k o s.last_orders;
      })

    unfoldable pub get_total_volume : List (ℕ × Order Val) → List (ℕ × Order Val) → Option ℤ
    unfolding hash_order
    get_total_volume last_orders [] = some (pos 0)
    get_total_volume last_orders ((id, o) ∷ m) = do
      k ← hash_order o
      rest ← get_total_volume last_orders m
      some (counted (is_last_of (lookup k last_orders) o) o +ℤ rest)

    unfoldable pub update : Order Val → BasketOrderState → Option BasketOrderState
    unfolding update_last_order get_total_volume settled
    update o s = do
      s' ← update_last_order o s
      volume ←
          if is_static s'.basket_order.calculation_mode
          then some s'.basket_order.volume
          else get_total_volume s'.last_orders s'.orders
      some (settled volume s')

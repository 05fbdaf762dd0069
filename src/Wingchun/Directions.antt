-- ===== src/Wingchun/Directions.antt =====
-- Which side of a position an order works on, and which orders are over. include/kungfu/wingchun/common.h.
use kungfu_cpp.Base.{
  ◌≡◌, refl, ◌↔◌, Bool, true, false, not, Option, none, some, if◌then◌else◌, arith,
}
use kungfu_cpp.Wingchun.Enums.{
  InstrumentType, Side, Offset, Direction, OrderStatus, BasketOrderStatus, unknown, stock, future,
  bond, tech_stock, fund, index, repo, buy, sell, lock, unlock, exec, drop, purchase, redemption,
  split, merge, margin_trade, short_sell, repay_margin, repay_stock, cash_repay_margin,
  stock_repay_stock, surplus_stock_transfer, guarantee_stock_transfer_in,
  guarantee_stock_transfer_out, «open», close, close_today, close_yesterday, long, short, submitted,
  pending, partial_filled_active,
}

unfoldable pub is_final_status : OrderStatus → Bool
is_final_status submitted = false
is_final_status pending = false
is_final_status partial_filled_active = false
is_final_status unknown = false
is_final_status _ = true

unfoldable pub is_final_basket_order_status : BasketOrderStatus → Bool
is_final_basket_order_status unknown = false
is_final_basket_order_status pending = false
is_final_basket_order_status _ = true

unfoldable pub is_shortable : InstrumentType → Bool
is_shortable stock = false
is_shortable bond = false
is_shortable fund = false
is_shortable tech_stock = false
is_shortable index = false
is_shortable repo = false
is_shortable _ = true

unfoldable pub get_future_direction : Side → Offset → Direction
get_future_direction buy «open» = long
get_future_direction sell close = long
get_future_direction sell close_today = long
get_future_direction sell close_yesterday = long
get_future_direction _ _ = short

unfoldable pub is_open : InstrumentType → Side → Offset → Bool
is_open stock buy offset = true
is_open bond buy offset = true
is_open future side «open» = true
is_open _ _ _ = false

-- The tests on side and offset that a shortable instrument goes through; `none` is the exception.
unfoldable pub direction_by_offset : Side → Offset → Option Direction
direction_by_offset buy «open» = some long
direction_by_offset sell close = some long
direction_by_offset sell close_today = some long
direction_by_offset sell close_yesterday = some long
direction_by_offset sell «open» = some short
direction_by_offset buy close = some short
direction_by_offset buy close_today = some short
direction_by_offset buy close_yesterday = some short
direction_by_offset _ _ = none

unfoldable pub get_direction : InstrumentType → Side → Offset → Option Direction
unfolding is_shortable direction_by_offset
get_direction t margin_trade o = some long
get_direction t short_sell o = some short
get_direction t repay_margin o = some long
get_direction t repay_stock o = some short
get_direction t exec o = some long
get_direction t side o = if not (is_shortable t) then some long else direction_by_offset side o

-- The sides that `get_direction` knows for every instrument.
abbrev pub is_directed : Side → Bool
is_directed buy = true
is_directed sell = true
is_directed exec = true
is_directed margin_trade = true
is_directed short_sell = true
is_directed repay_margin = true
is_directed repay_stock = true
is_directed _ = false

-- For an instrument that can be sold short, `get_direction` and `get_future_direction` agree on every
-- order that buys or sells, and `get_direction` gives a direction.
pub get_direction-get_future_direction :
    (t : InstrumentType) (offset : Offset)
    → is_shortable t ≡ true
    → (get_direction t buy offset ≡ some (get_future_direction buy offset))
      × (get_direction t sell offset ≡ some (get_future_direction sell offset))
unfolding get_direction get_future_direction direction_by_offset
get_direction-get_future_direction t «open» h = (rw h refl, rw h refl)
get_direction-get_future_direction t close h = (rw h refl, rw h refl)
get_direction-get_future_direction t close_today h = (rw h refl, rw h refl)
get_direction-get_future_direction t close_yesterday h = (rw h refl, rw h refl)

-- `get_direction` throws exactly for the instruments that can be sold short and the sides that are
-- none of Buy, Sell, Exec, MarginTrade, ShortSell, RepayMargin and RepayStock, whatever the offset.
pub get_direction-none :
    (t : InstrumentType) (side : Side) (offset : Offset)
    → (get_direction t side offset ≡ none) ↔ ((is_shortable t ≡ true) × (is_directed side ≡ false))
unfolding get_direction direction_by_offset
get_direction-none t buy «open» = ground arith
get_direction-none t buy close = ground arith
get_direction-none t buy close_today = ground arith
get_direction-none t buy close_yesterday = ground arith
get_direction-none t sell «open» = ground arith
get_direction-none t sell close = ground arith
get_direction-none t sell close_today = ground arith
get_direction-none t sell close_yesterday = ground arith
get_direction-none t lock offset = ground arith
get_direction-none t unlock offset = ground arith
get_direction-none t exec offset = ground arith
get_direction-none t drop offset = ground arith
get_direction-none t purchase offset = ground arith
get_direction-none t redemption offset = ground arith
get_direction-none t split offset = ground arith
get_direction-none t merge offset = ground arith
get_direction-none t margin_trade offset = ground arith
get_direction-none t short_sell offset = ground arith
get_direction-none t repay_margin offset = ground arith
get_direction-none t repay_stock offset = ground arith
get_direction-none t cash_repay_margin offset = ground arith
get_direction-none t stock_repay_stock offset = ground arith
get_direction-none t surplus_stock_transfer offset = ground arith
get_direction-none t guarantee_stock_transfer_in offset = ground arith
get_direction-none t guarantee_stock_transfer_out offset = ground arith
get_direction-none t unknown offset = ground arith

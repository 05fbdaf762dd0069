-- ===== src/Wingchun/Orders.antt =====
-- Orders and trades, include/kungfu/longfist/types.h, and how one is made from another,
-- include/kungfu/wingchun/common.h. A volume is a natural number here: an order of a negative volume
-- is refused wherever a volume is tested. `Val` is the type of prices.
use Prim.Native.String.{String}
use kungfu_cpp.Base.{ℕ, Bool}
use kungfu_cpp.Wingchun.Enums.{
  InstrumentType, Side, Offset, HedgeFlag, PriceType, VolumeCondition, TimeCondition, OrderStatus,
  pending,
}

module _ (Val : Type 0) where
  pub record OrderInput : Type 0 where
    pub order_id : ℕ
    pub parent_id : ℕ
    pub instrument_id : String
    pub exchange_id : String
    pub instrument_type : InstrumentType
    pub limit_price : Val
    pub frozen_price : Val
    pub volume : ℕ
    pub is_swap : Bool
    pub side : Side
    pub offset : Offset
    pub hedge_flag : HedgeFlag
    pub price_type : PriceType
    pub volume_condition : VolumeCondition
    pub time_condition : TimeCondition
    pub block_id : ℕ
    pub insert_time : ℕ

  pub record Order : Type 0 where
    pub order_id : ℕ
    pub external_order_id : String
    pub parent_id : ℕ
    pub insert_time : ℕ
    pub update_time : ℕ
    pub trading_day : String
    pub instrument_id : String
    pub exchange_id : String
    pub instrument_type : InstrumentType
    pub limit_price : Val
    pub frozen_price : Val
    pub volume : ℕ
    pub volume_left : ℕ
    pub tax : Val
    pub commission : Val
    pub status : OrderStatus
    pub error_id : ℕ
    pub error_msg : String
    pub is_swap : Bool
    pub side : Side
    pub offset : Offset
    pub hedge_flag : HedgeFlag
    pub price_type : PriceType
    pub volume_condition : VolumeCondition
    pub time_condition : TimeCondition

  pub record Trade : Type 0 where
    pub trade_id : ℕ
    pub order_id : ℕ
    pub external_order_id : String
    pub external_trade_id : String
    pub trade_time : ℕ
    pub trading_day : String
    pub instrument_id : String
    pub exchange_id : String
    pub instrument_type : InstrumentType
    pub side : Side
    pub offset : Offset
    pub hedge_flag : HedgeFlag
    pub price : Val
    pub volume : ℕ
    pub tax : Val
    pub commission : Val

  abbrev pub order_from_input : OrderInput → Order → Order
  order_from_input input order = record order {
    order_id = input.order_id;
    instrument_id = input.instrument_id;
    exchange_id = input.exchange_id;
    instrument_type = input.instrument_type;
    limit_price = input.limit_price;
    frozen_price = input.frozen_price;
    volume = input.volume;
    volume_left = input.volume;
    status = pending;
    side = input.side;
    offset = input.offset;
    is_swap = input.is_swap;
    hedge_flag = input.hedge_flag;
    price_type = input.price_type;
    volume_condition = input.volume_condition;
    time_condition = input.time_condition;
    parent_id = input.parent_id;
  }

  abbrev pub trade_from_order : Order → Trade → Trade
  trade_from_order order trade = record trade {
    order_id = order.order_id;
    instrument_id = order.instrument_id;
    exchange_id = order.exchange_id;
    external_order_id = order.external_order_id;
    instrument_type = order.instrument_type;
    side = order.side;
    offset = order.offset;
    hedge_flag = order.hedge_flag;
  }

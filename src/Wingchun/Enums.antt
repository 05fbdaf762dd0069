-- ===== src/Wingchun/Enums.antt =====
-- Enumerations, include/kungfu/longfist/enums.h.

pub data InstrumentType : Type 0 where
  unknown stock future bond stock_option tech_stock fund index repo warrant iopt crypto :
      InstrumentType

pub data Side : Type 0 where
  buy sell lock unlock exec drop purchase redemption split merge : Side
  margin_trade short_sell repay_margin repay_stock : Side
  cash_repay_margin stock_repay_stock surplus_stock_transfer guarantee_stock_transfer_in : Side
  guarantee_stock_transfer_out unknown : Side

pub data Offset : Type 0 where
  «open» close close_today close_yesterday : Offset

pub data Direction : Type 0 where
  long short : Direction

pub data SubscribeInstrumentType : Type 0 where
  all stock future bond stock_option future_option fund index hkt : SubscribeInstrumentType

pub data OrderStatus : Type 0 where
  unknown submitted pending cancelled error filled : OrderStatus
  partial_filled_not_active partial_filled_active lost : OrderStatus

pub data BasketOrderStatus : Type 0 where
  unknown pending partial_filled_not_active partial_filled_active filled : BasketOrderStatus

pub data HedgeFlag : Type 0 where
  speculation arbitrage hedge covered : HedgeFlag

pub data PriceType : Type 0 where
  limit any fak_best5 forward_best reverse_best fak fok unknown : PriceType

pub data VolumeCondition : Type 0 where
  any min all : VolumeCondition

pub data TimeCondition : Type 0 where
  ioc gfd gtc : TimeCondition

pub data LedgerCategory : Type 0 where
  account strategy : LedgerCategory

pub data BrokerState : Type 0 where
  pending idle disconnected connected logged_in login_failed ready : BrokerState

pub data Category : Type 0 where
  md td strategy system : Category

pub data PriceLevel : Type 0 where
  last sell5 sell4 sell3 sell2 sell1 buy1 buy2 buy3 buy4 buy5 : PriceLevel
  upper_limit_price lower_limit_price unknown : PriceLevel

pub data BasketType : Type 0 where
  custom etf : BasketType

pub data BasketVolumeType : Type 0 where
  unknown quantity proportion : BasketVolumeType

pub data BasketOrderCalculationMode : Type 0 where
  static dynamic : BasketOrderCalculationMode

-- ===== src/Wingchun/Quotes.antt =====
-- The structures `Quote`, of which this holds what the modelled code reads, and `Bar`,
-- include/kungfu/longfist/types.h. A total volume is a signed number here, since the bars subtract it.
use Prim.Native.String.{String}
use kungfu_cpp.Base.{ℕ}
use kungfu_cpp.Base.Int.{ℤ}
use kungfu_cpp.Wingchun.Enums.{InstrumentType}

module _ (Val : Type 0) where
  pub record Quote : Type 0 where
    pub trading_day : String
    pub data_time : ℕ
    pub instrument_id : String
    pub exchange_id : String
    pub instrument_type : InstrumentType
    pub pre_close_price : Val
    pub pre_settlement_price : Val
    pub last_price : Val
    pub volume : ℤ
    pub close_price : Val
    pub settlement_price : Val

  pub record Bar : Type 0 where
    pub instrument_id : String
    pub exchange_id : String
    pub start_time : ℕ
    pub end_time : ℕ
    pub «open» : Val
    pub close : Val
    pub low : Val
    pub high : Val
    pub volume : ℤ
    pub start_volume : ℤ
    pub tick_count : ℕ

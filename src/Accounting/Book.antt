-- ===== src/Accounting/Book.antt =====
-- The structure `Book`, include/kungfu/wingchun/book/book.h and src/wingchun/book/book.cpp, with the
-- types of include/kungfu/longfist/types.h that it holds, of instruments only what accounting reads. Volumes are natural numbers. `hash` is hash_instrument, which
-- calls a third-party hash; `number` is std::stoi.
use Prim.Native.String.{String}
use kungfu_cpp.Base.{Option, ℕ, Bool, none, some, List}
use kungfu_cpp.Base.Chains.{◌>>=◌}
use kungfu_cpp.Base.Dict.{lookup, assign}
use kungfu_cpp.Base.Double.{Double}
use kungfu_cpp.Wingchun.Enums.{InstrumentType, Direction, LedgerCategory, long, short}
use kungfu_cpp.Wingchun.Instruments.{get_instrument_type}
use kungfu_cpp.Wingchun.Orders.{Order}
use kungfu_cpp.Wingchun.Prices.{zero_value}

module _ (d : Double) where
  open d use {Val}

  pub record Position : Type 0 where
    pub update_time : ℕ
    pub trading_day : String
    pub instrument_id : String
    pub instrument_type : InstrumentType
    pub exchange_id : String
    pub holder_uid : ℕ
    pub ledger_category : LedgerCategory
    pub direction : Direction
    pub volume : ℕ
    pub yesterday_volume : ℕ
    pub frozen_total : ℕ
    pub frozen_yesterday : ℕ
    pub last_price : Val
    pub avg_open_price : Val
    pub position_cost_price : Val
    pub close_price : Val
    pub pre_close_price : Val
    pub settlement_price : Val
    pub pre_settlement_price : Val
    pub margin : Val
    pub position_pnl : Val
    pub close_pnl : Val
    pub realized_pnl : Val
    pub unrealized_pnl : Val

  pub record Asset : Type 0 where
    pub update_time : ℕ
    pub trading_day : String
    pub holder_uid : ℕ
    pub ledger_category : LedgerCategory
    pub initial_equity : Val
    pub static_equity : Val
    pub dynamic_equity : Val
    pub realized_pnl : Val
    pub unrealized_pnl : Val
    pub avail : Val
    pub market_value : Val
    pub margin : Val
    pub accumulated_fee : Val
    pub intraday_fee : Val
    pub frozen_cash : Val
    pub frozen_margin : Val
    pub frozen_fee : Val
    pub position_pnl : Val
    pub close_pnl : Val

  pub record AssetMargin : Type 0 where
    pub update_time : ℕ
    pub trading_day : String
    pub holder_uid : ℕ
    pub ledger_category : LedgerCategory
    pub total_asset : Val
    pub avail_margin : Val
    pub cash_margin : Val
    pub short_margin : Val
    pub margin : Val
    pub cash_debt : Val
    pub short_cash : Val
    pub short_market_value : Val
    pub margin_market_value : Val
    pub margin_interest : Val
    pub settlement : Val
    pub credit : Val
    pub collateral_ratio : Val

  pub record Instrument : Type 0 where
    pub instrument_id : String
    pub exchange_id : String
    pub contract_multiplier : ℕ
    pub force_update_ratio : Bool
    pub long_margin_ratio : Val
    pub short_margin_ratio : Val
    pub conversion_rate : Val
    pub exchange_rate : Val

  pub record Book : Type 0 where
    pub instruments : List (ℕ × Instrument)
    pub asset : Asset
    pub asset_margin : AssetMargin
    pub long_positions : List (ℕ × Position)
    pub short_positions : List (ℕ × Position)
    pub orders : List (ℕ × Order Val)

  unfoldable pub get_frozen_price : Book → ℕ → Val
  get_frozen_price b id = elim (lookup id b.orders) [
    | none ↦ zero_value d
    | some o ↦ o.frozen_price
  ]

  abbrev pub positions : Direction → Book → List (ℕ × Position)
  positions long b = b.long_positions
  positions short b = b.short_positions

  abbrev pub set_positions : Direction → List (ℕ × Position) → Book → Book
  set_positions long ps b = record b { long_positions = ps }
  set_positions short ps b = record b { short_positions = ps }

  module _ (hash : String → String → ℕ) (number : String → Option ℕ) where
    -- A position that `get_position` creates, of the type that the exchange and the id have.
    abbrev pub new_position : Direction → String → String → Book → InstrumentType → Position
    new_position direction exchange_id instrument_id b instrument_type = record {
      update_time = 0;
      trading_day = b.asset.trading_day;
      instrument_id = instrument_id;
      instrument_type = instrument_type;
      exchange_id = exchange_id;
      holder_uid = b.asset.holder_uid;
      ledger_category = b.asset.ledger_category;
      direction = direction;
      volume = 0;
      yesterday_volume = 0;
      frozen_total = 0;
      frozen_yesterday = 0;
      last_price = zero_value d;
      avg_open_price = zero_value d;
      position_cost_price = zero_value d;
      close_price = zero_value d;
      pre_close_price = zero_value d;
      settlement_price = zero_value d;
      pre_settlement_price = zero_value d;
      margin = zero_value d;
      position_pnl = zero_value d;
      close_pnl = zero_value d;
      realized_pnl = zero_value d;
      unrealized_pnl = zero_value d;
    }

    -- None is the exception of `get_instrument_type`, which is asked for a new position.
    unfoldable pub get_position : Direction → String → String → Book → Option Position
    unfolding get_instrument_type
    get_position direction exchange_id instrument_id b =
        elim (lookup (hash exchange_id instrument_id) (positions direction b)) [
          | none ↦
              (get_instrument_type number exchange_id instrument_id >>= λ t.
              some (new_position direction exchange_id instrument_id b t))
          | some p ↦ some p
        ]

    -- Stores to the position that `get_position` gives a reference to.
    unfoldable pub put_position : Direction → String → String → Position → Book → Book
    put_position direction exchange_id instrument_id p b =
        set_positions direction (assign (hash exchange_id instrument_id) p (positions direction b))
          b

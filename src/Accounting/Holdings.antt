-- ===== src/Accounting/Holdings.antt =====
-- The other operations of `Book`, src/wingchun/book/book.cpp and include/kungfu/wingchun/book/book.h: which
-- positions it has, `update` and `mirror_position_from`.
use Prim.Native.String.{String}
use kungfu_cpp.Base.{
  Option, Option, ℕ, Bool, true, false, not, ◌&&◌, ◌||◌, List, [], ◌∷◌, none, some, if◌then◌else◌,
  ◌==◌,
}
use kungfu_cpp.Base.Chains.{◌>>=◌}
use kungfu_cpp.Base.Dict.{lookup, assign}
use kungfu_cpp.Base.Double.{Double}
use kungfu_cpp.Wingchun.Enums.{
  InstrumentType, Direction, long, short, stock, bond, fund, stock_option, tech_stock, index, repo,
  future,
}
use kungfu_cpp.Wingchun.Directions.{is_shortable}
use kungfu_cpp.Wingchun.Orders.{Order}
use kungfu_cpp.Wingchun.Prices.{zero_value, is_equal, is_positive}
use kungfu_cpp.Accounting.Book.{Position, Asset, Book, positions, get_position, put_position}

module _ (d : Double) (hash : String → String → ℕ) (number : String → Option ℕ) where
  open d use {Val, lit, add as ◌⊕◌, mul as ◌⊗◌}

  infixl 65 ◌⊕◌
  infixl 70 ◌⊗◌
  unfoldable pub has_position_on : Direction → String → String → Book d → Bool
  has_position_on dir exchange_id instrument_id b =
      elim (lookup (hash exchange_id instrument_id) (positions d dir b)) [
        | none ↦ false
        | some p ↦ true
      ]

  unfoldable pub has_position_volume : Direction → String → String → Book d → Bool
  has_position_volume dir exchange_id instrument_id b =
      elim (lookup (hash exchange_id instrument_id) (positions d dir b)) [
        | none ↦ false
        | some p ↦ not (p.volume == 0)
      ]

  unfoldable pub has_position : String → String → Book d → Bool
  unfolding has_position_on
  has_position exchange_id instrument_id b =
      has_position_on long exchange_id instrument_id b
      || has_position_on short exchange_id instrument_id b

  -- The position that `get_position` makes where there is none.
  abbrev pub touch : Direction → String → String → Book d → Option (Book d)
  touch dir exchange_id instrument_id b = do
    p ← get_position d hash number dir exchange_id instrument_id b
    some (put_position d hash number dir exchange_id instrument_id p b)

  unfoldable pub ensure_position : InstrumentType → String → String → Book d → Option (Book d)
  unfolding is_shortable get_position put_position
  ensure_position t exchange_id instrument_id b =
      (if is_shortable t then touch short exchange_id instrument_id b else some b)
      >>= touch long exchange_id instrument_id

  abbrev pub is_stock : InstrumentType → Bool
  is_stock stock = true
  is_stock bond = true
  is_stock fund = true
  is_stock stock_option = true
  is_stock tech_stock = true
  is_stock index = true
  is_stock repo = true
  is_stock _ = false

  abbrev pub is_future : InstrumentType → Bool
  is_future future = true
  is_future _ = false

  abbrev pub is_long : Direction → Bool
  is_long long = true
  is_long short = false

  -- What `update` has summed up so far.
  pub record Totals : Type 0 where
    pub asset : Asset d
    pub margin : Val
    pub is_stock_acct : Bool
    pub short_market_value : Val

  abbrev db_exchange_rate : Book d → Position d → Val
  db_exchange_rate b p = elim (lookup (hash p.exchange_id p.instrument_id) b.instruments) [
    | none ↦ lit 1 0
    | some i ↦ if is_equal d i.exchange_rate (zero_value d) then lit 1 0 else i.exchange_rate
  ]

  abbrev market_value : Book d → Position d → Val
  market_value b p =
      lit p.volume 0
      ⊗ (if is_positive d p.last_price then p.last_price else p.avg_open_price)
      ⊗ db_exchange_rate b p

  abbrev add_equity : Book d → Position d → Val → Val
  add_equity b p equity =
      if is_stock p.instrument_type
      then (if is_long p.direction then equity ⊕ market_value b p else equity)
      else if is_future p.instrument_type
      then equity ⊕ (p.margin ⊕ p.position_pnl ⊗ db_exchange_rate b p)
      else equity

  unfoldable pub add_position : Book d → Totals → Position d → Totals
  add_position b s p =
      let borrowed = is_stock p.instrument_type && not (is_long p.direction) in
      let a = s.asset in
      record {
        asset = record a {
          market_value = if borrowed then a.market_value else a.market_value ⊕ market_value b p;
          unrealized_pnl =
              if borrowed
              then a.unrealized_pnl
              else a.unrealized_pnl ⊕ p.unrealized_pnl ⊗ db_exchange_rate b p;
          dynamic_equity = add_equity b p a.dynamic_equity;
        };
        margin = s.margin ⊕ p.margin;
        is_stock_acct = s.is_stock_acct && is_stock p.instrument_type;
        short_market_value =
            if borrowed then s.short_market_value ⊕ market_value b p else s.short_market_value;
      }

  unfoldable pub add_positions : Book d → Totals → List (ℕ × Position d) → Totals
  unfolding add_position
  add_positions b s [] = s
  add_positions b s ((k, p) ∷ ps) = add_positions b (add_position b s p) ps

  abbrev no_totals : ℕ → Asset d → Totals
  no_totals update_time a = record {
    asset = record a {
      update_time = update_time;
      margin = zero_value d;
      market_value = zero_value d;
      unrealized_pnl = zero_value d;
      dynamic_equity = a.avail;
    };
    margin = zero_value d;
    is_stock_acct = true;
    short_market_value = zero_value d;
  }

  unfoldable pub update : ℕ → Book d → Book d
  unfolding add_positions
  update update_time b =
      let s =
        add_positions b (add_positions b (no_totals update_time b.asset) b.long_positions)
          b.short_positions in
      record b {
        asset = if s.is_stock_acct then s.asset else record s.asset { margin = s.margin };
        asset_margin = record b.asset_margin { short_market_value = s.short_market_value };
      }

  abbrev pub replace_order : Order Val → Book d → Book d
  replace_order o b = record b { orders = assign o.order_id o b.orders }

  -- `get_position_for` gives the position that is overwritten.
  unfoldable pub mirror_positions : List (ℕ × Position d) → Book d → Option (Book d)
  unfolding put_position get_position
  mirror_positions [] b = some b
  mirror_positions ((k, p) ∷ ps) b = do
    old ← get_position d hash number p.direction p.exchange_id p.instrument_id b
    mirror_positions ps (put_position d hash number p.direction p.exchange_id p.instrument_id p b)

  unfoldable pub mirror_position_from : Book d → Book d → Option (Book d)
  unfolding mirror_positions
  mirror_position_from source b = do
    b' ←
        mirror_positions source.long_positions
          (record b { long_positions = []; short_positions = [] })
    mirror_positions source.short_positions b'

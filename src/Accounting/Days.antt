-- ===== src/Accounting/Days.antt =====
-- Quotes and the change of the trading day in the accounting of stocks: `apply_trading_day`,
-- `apply_quote` and `calculate_marketvalue` of src/wingchun/book/accounting/stock.hpp. `strftime` formats a
-- trading day, `now` is the time of the clock.
use Prim.Native.String.{String}
use kungfu_cpp.Base.{
  Option, some, Option, ℕ, ◌+◌, List, [], ◌∷◌, if◌then◌else◌, ltb, ◌||◌, not, ◌==◌,
}
use kungfu_cpp.Base.Chains.{◌>>=◌}
use kungfu_cpp.Base.Double.{Double}
use kungfu_cpp.Wingchun.Enums.{Direction, long, short}
use kungfu_cpp.Wingchun.Quotes.{Quote}
use kungfu_cpp.Wingchun.Prices.{zero_value, is_nonzero, is_valid_price}
use kungfu_cpp.Accounting.Book.{Position, Book, get_position, put_position}
use kungfu_cpp.Accounting.Stock.{get_instr_conversion_margin_rate, by_direction}
use kungfu_cpp.Accounting.Trades.{TradeRates, update, first_price}

module _ (d : Double) (hash : String → String → ℕ) (number : String → Option ℕ)
    (short_ratio conversion : d.Val) where
  open d use {Val, lit, lt, neg, add as ◌⊕◌, sub as ◌⊖◌, mul as ◌⊗◌}

  infixl 65 ◌⊕◌ ◌⊖◌
  infixl 70 ◌⊗◌
  abbrev rates : Book d → Position d → TradeRates d hash number short_ratio conversion
  rates = get_instr_conversion_margin_rate d hash number short_ratio conversion

  -- `position.pre_close_price` at the end of a day
  abbrev settled_close : Position d → Val
  settled_close p =
      if is_valid_price d p.close_price
      then p.close_price
      else if is_valid_price d p.last_price
      then p.last_price
      else p.pre_close_price

  abbrev new_day_margin : Direction → Val → Val → Val
  new_day_margin long held x = held
  new_day_margin short held x = x

  unfoldable pub new_day_position : (ℕ → String) → ℕ → Book d → Position d → Position d
  new_day_position strftime trading_day b p =
      let r = rates b p in
      let close = settled_close p in
      update d hash number short_ratio conversion (record p {
        pre_close_price = close;
        margin = new_day_margin p.direction p.margin (
            close
            ⊗ r.exchange_rate
            ⊗ lit p.volume 0
            ⊗ by_direction d hash number short_ratio conversion p.direction r.long_margin_ratio
                r.short_margin_ratio);
        yesterday_volume = p.volume;
        close_price = zero_value d;
        update_time = trading_day;
        frozen_total = 0;
        frozen_yesterday = 0;
        trading_day = strftime trading_day;
      })

  abbrev pub on_positions :
      (Position d → Position d) → List (ℕ × Position d) → List (ℕ × Position d)
  on_positions f [] = []
  on_positions f ((k, p) ∷ ps) = (k, f p) ∷ on_positions f ps

  unfoldable pub apply_trading_day : (ℕ → String) → ℕ → Book d → Book d
  unfolding new_day_position
  apply_trading_day strftime trading_day b = record b {
    long_positions = on_positions (new_day_position strftime trading_day b) b.long_positions;
    short_positions = on_positions (new_day_position strftime trading_day b) b.short_positions;
  }

  -- The members of StockAccountingMethod, with the counter of `apply_quote`, which is static.
  pub record StockMethod : Type 0 where
    pub counter : ℕ
    pub short_market_value : Val
    pub long_market_value : Val

  abbrev position_value : Book d → Val → Position d → Val
  position_value b total p =
      if is_valid_price d p.last_price
      then total ⊕ lit p.volume 0 ⊗ p.last_price ⊗ (rates b p).exchange_rate
      else if is_valid_price d p.pre_close_price
      then total ⊕ lit p.volume 0 ⊗ p.pre_close_price ⊗ (rates b p).exchange_rate
      else if is_valid_price d p.avg_open_price
      then total ⊕ lit p.volume 0 ⊗ p.avg_open_price ⊗ (rates b p).exchange_rate
      else total

  total_value : Book d → Val → List (ℕ × Position d) → Val
  total_value b total [] = total
  total_value b total ((k, p) ∷ ps) = total_value b (position_value b total p) ps

  abbrev pub valued : ℕ → Position d → Position d
  valued now p = update d hash number short_ratio conversion (record p { update_time = now })

  unfoldable pub calculate_marketvalue : ℕ → StockMethod × Book d → StockMethod × Book d
  unfolding total_value
  calculate_marketvalue now (s, b) = (
    record s {
      long_market_value = total_value b (zero_value d) b.long_positions;
      short_market_value = total_value b (zero_value d) b.short_positions;
    },
    record b {
      long_positions = on_positions (valued now) b.long_positions;
      short_positions = on_positions (valued now) b.short_positions;
    },
  )

  -- The change of the price of a position, whose price is the quote's if it had none.
  abbrev price_change : Quote Val → Position d → Val
  price_change q p = q.last_price ⊖ (first_price d q.last_price p).last_price

  abbrev value_change :
      Quote Val → TradeRates d hash number short_ratio conversion → Position d → Val
  value_change q r p = price_change q p ⊗ r.exchange_rate ⊗ lit p.volume 0

  abbrev short_margin_change :
      Quote Val → TradeRates d hash number short_ratio conversion → Position d → Val
  short_margin_change q r p =
      if lt q.last_price p.avg_open_price
      then r.short_margin_ratio ⊗ value_change q r p
      else value_change q r p

  unfoldable pub quote_position :
      Direction
      → Quote Val
      → TradeRates d hash number short_ratio conversion
      → Position d
      → Position d
  quote_position long q r p =
      update d hash number short_ratio conversion (record p { last_price = q.last_price })
  quote_position short q r p =
      update d hash number short_ratio conversion
        (record p { last_price = q.last_price; margin = p.margin ⊕ short_margin_change q r p })

  -- `p` is the position before the quote.
  unfoldable pub quote_assets :
      Direction
      → Quote Val
      → TradeRates d hash number short_ratio conversion
      → Position d
      → Book d
      → Book d
  quote_assets long q r p b = record b {
    asset = record b.asset {
      market_value = b.asset.market_value ⊕ value_change q r p;
      unrealized_pnl = b.asset.unrealized_pnl ⊕ value_change q r p;
    };
    asset_margin = record b.asset_margin {
      total_asset = b.asset_margin.total_asset ⊕ value_change q r p;
    };
  }
  quote_assets short q r p b =
      let m = b.asset_margin in
      let change = short_margin_change q r p in
      record b {
        asset = record b.asset { unrealized_pnl = b.asset.unrealized_pnl ⊖ value_change q r p };
        asset_margin = record m {
          short_margin = m.short_margin ⊕ change;
          short_market_value = m.short_market_value ⊕ value_change q r p;
          margin = m.margin ⊕ change;
          avail_margin =
              m.avail_margin
              ⊕ (if is_nonzero d (price_change q p)
                  then neg r.conversion_rate ⊗ value_change q r p ⊖ change
                  else zero_value d);
        };
      }

  -- One side, whose position is `p`.
  unfoldable pub quote_side :
      ℕ → Direction → Quote Val → StockMethod × Book d → Position d → StockMethod × Book d
  unfolding put_position quote_position quote_assets calculate_marketvalue
  quote_side now dir q (s, b) p =
      let put = put_position d hash number dir q.exchange_id q.instrument_id in
      let r = rates b p in
      let quoted = quote_assets p.direction q r p (put (quote_position p.direction q r p) b) in
      if not (is_valid_price d q.last_price) || p.volume == 0
      then (s, put p b)
      else (if ltb 20 s.counter
          then calculate_marketvalue now (record s { counter = 0 }, quoted)
          else (s, quoted))

  -- The position is created if there is none, which may throw.
  unfoldable pub quote_on :
      ℕ → Direction → Quote Val → StockMethod × Book d → Option (StockMethod × Book d)
  unfolding quote_side get_position
  quote_on now dir q sb = do
    p ← get_position d hash number dir q.exchange_id q.instrument_id sb.1
    some (quote_side now dir q sb p)

  unfoldable pub apply_quote : ℕ → Quote Val → StockMethod × Book d → Option (StockMethod × Book d)
  unfolding quote_on
  apply_quote now q sb = do
    long_done ← quote_on now long q sb
    done ← quote_on now short q long_done
    some (record done.0 { counter = done.0.counter + 1 }, done.1)

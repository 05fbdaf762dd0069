-- ===== src/Accounting/Closing.antt =====
-- Trades that close in the accounting of stocks, `apply_sell`, `apply_repaymargin` and `apply_repaystock`
-- of src/wingchun/book/accounting/stock.hpp, and `apply_trade`, which selects by side.
use Prim.Native.String.{String}
use kungfu_cpp.Base.{ℕ, Bool, true, false, Option, some, if◌then◌else◌}
use kungfu_cpp.Base.Chains.{◌>>=◌}
use kungfu_cpp.Base.Double.{Double, max, min}
use kungfu_cpp.Wingchun.Enums.{
  Direction, Side, buy, sell, repay_margin, repay_stock, margin_trade, short_sell,
}
use kungfu_cpp.Wingchun.Directions.{get_direction}
use kungfu_cpp.Wingchun.Orders.{Trade}
use kungfu_cpp.Wingchun.Prices.{zero_value, is_nonzero, is_positive}
use kungfu_cpp.Accounting.Book.{Position, Book, get_position, put_position, get_frozen_price}
use kungfu_cpp.Accounting.Stock.{get_instr_conversion_margin_rate}
use kungfu_cpp.Accounting.Trades.{
  fees, volume, close_volumes, charge, first_price, TradeRates, update, calculate_collateral_ratio,
  buy_position, buy_assets, shortsell_position, shortsell_assets, margintrade_position,
  margintrade_assets,
}

module _ (d : Double) (hash : String → String → ℕ) (number : String → Option ℕ)
    (short_ratio conversion : d.Val) where
  open d use {Val, lit, lt, neg, add as ◌⊕◌, sub as ◌⊖◌, mul as ◌⊗◌, div as ◌⊘◌}

  infixl 65 ◌⊕◌ ◌⊖◌
  infixl 70 ◌⊗◌ ◌⊘◌
  abbrev ClosingRates : Type 0
  ClosingRates = TradeRates d hash number short_ratio conversion

  -- apply_sell, but for the margin, which the book's margin account decides
  unfoldable pub sell_position : Trade Val → Position d → Position d
  sell_position t p =
      update d hash number short_ratio conversion (record (close_volumes d t.volume p) {
        realized_pnl = p.realized_pnl ⊕ (t.price ⊖ p.avg_open_price) ⊗ volume d t;
        unrealized_pnl = p.unrealized_pnl ⊖ (p.last_price ⊖ p.avg_open_price) ⊗ volume d t;
      })

  -- What a sale repays of the debt of its position.
  unfoldable pub repaid_debt : ClosingRates → Trade Val → Position d → Val
  repaid_debt r t p = min d p.margin (t.price ⊗ r.exchange_rate ⊗ volume d t ⊖ fees d t)

  unfoldable pub sell_margin : ClosingRates → Trade Val → Book d → Position d → Position d
  unfolding repaid_debt
  sell_margin r t b p =
      if is_nonzero d b.asset_margin.total_asset
      then record p { margin = p.margin ⊖ repaid_debt r t p ⊗ r.long_margin_ratio }
      else p

  -- `p` is the position after `sell_position`.
  unfoldable pub sell_assets : ClosingRates → Trade Val → Position d → Book d → Book d
  unfolding repaid_debt calculate_collateral_ratio
  sell_assets r t p b =
      let pnl = (t.price ⊖ p.avg_open_price) ⊗ volume d t in
      let amount = t.price ⊗ r.exchange_rate ⊗ volume d t in
      let repaid = repaid_debt r t p in
      let cash = amount ⊖ repaid ⊖ fees d t in
      let a = charge d (fees d t) b.asset in
      let m = b.asset_margin in
      record b {
        asset = record a {
          realized_pnl = a.realized_pnl ⊕ pnl ⊗ r.exchange_rate;
          unrealized_pnl = a.unrealized_pnl ⊖ pnl ⊗ r.exchange_rate;
          avail = a.avail ⊕ cash;
          market_value = a.market_value ⊖ amount;
        };
        asset_margin =
            if is_nonzero d m.total_asset
            then calculate_collateral_ratio d (record m {
              avail_margin =
                  m.avail_margin
                  ⊕ (cash ⊖ (amount ⊖ repaid) ⊗ r.conversion_rate ⊕ repaid ⊗ r.long_margin_ratio);
              margin = m.margin ⊖ repaid ⊗ r.long_margin_ratio;
              cash_margin = m.cash_margin ⊖ repaid ⊗ r.long_margin_ratio;
              cash_debt = m.cash_debt ⊖ repaid;
              total_asset = m.total_asset ⊕ (cash ⊖ amount);
              margin_market_value = m.margin_market_value ⊖ repaid;
            })
            else m;
      }

  -- apply_repaymargin
  abbrev income : ClosingRates → Trade Val → Val
  income r t = t.price ⊗ r.exchange_rate ⊗ volume d t ⊖ fees d t

  unfoldable pub repaymargin_position : ClosingRates → Trade Val → Book d → Position d → Position d
  repaymargin_position r t b p0 =
      let p = first_price d t.price p0 in
      record (close_volumes d t.volume p) {
        realized_pnl = p.realized_pnl ⊕ (t.price ⊖ p.avg_open_price) ⊗ volume d t;
        unrealized_pnl = p.unrealized_pnl ⊖ (p.last_price ⊖ p.avg_open_price) ⊗ volume d t;
        margin =
            if lt b.asset_margin.cash_debt (income r t)
            then zero_value d
            else max d (p.margin ⊖ income r t ⊗ r.long_margin_ratio) (zero_value d);
      }

  -- `p` is the position after the trade.
  unfoldable pub repaymargin_assets : ClosingRates → Trade Val → Position d → Book d → Book d
  unfolding calculate_collateral_ratio
  repaymargin_assets r t p b =
      let realized = (t.price ⊖ p.avg_open_price) ⊗ volume d t in
      let unrealized = (p.last_price ⊖ p.avg_open_price) ⊗ volume d t in
      let value = neg p.last_price ⊗ r.exchange_rate ⊗ volume d t in
      let gained = income r t in
      let a0 = charge d (fees d t) b.asset in
      let a = record a0 {
        realized_pnl = a0.realized_pnl ⊕ realized ⊗ r.exchange_rate;
        unrealized_pnl = a0.unrealized_pnl ⊖ unrealized ⊗ r.exchange_rate;
        market_value = a0.market_value ⊕ value;
      } in
      let m = b.asset_margin in
      let released = gained ⊗ r.long_margin_ratio in
      if lt m.cash_debt gained
      then record b {
        asset = record a { avail = a.avail ⊕ (gained ⊖ m.cash_debt) };
        asset_margin = calculate_collateral_ratio d (record m {
          avail_margin =
              m.avail_margin
              ⊕ (m.cash_margin ⊕ (gained ⊖ m.cash_debt) ⊗ (lit 1 0 ⊖ r.conversion_rate));
          total_asset = m.total_asset ⊖ m.cash_debt;
          cash_margin = zero_value d;
          cash_debt = zero_value d;
          margin = m.short_margin;
          margin_market_value = m.margin_market_value ⊕ value;
        });
      }
      else record b {
        asset = a;
        asset_margin = calculate_collateral_ratio d (record m {
          cash_debt = m.cash_debt ⊖ gained;
          cash_margin = m.cash_margin ⊖ released;
          margin = m.margin ⊖ released;
          avail_margin = m.avail_margin ⊕ (released ⊖ fees d t);
          total_asset = m.total_asset ⊕ (value ⊖ fees d t);
          margin_market_value = m.margin_market_value ⊕ value;
        });
      }

  -- apply_repaystock
  unfoldable pub repaystock_position : ClosingRates → Trade Val → Position d → Position d
  repaystock_position r t p =
      let realized = (p.avg_open_price ⊖ t.price) ⊗ volume d t in
      let last = if is_positive d p.last_price then p.last_price else t.price in
      record (close_volumes d t.volume p) {
        last_price = last;
        realized_pnl = p.realized_pnl ⊕ realized;
        unrealized_pnl = p.unrealized_pnl ⊖ realized;
        margin = p.margin ⊖ last ⊗ r.exchange_rate ⊗ volume d t ⊗ r.short_margin_ratio;
      }

  -- `p` is the position after the trade.
  unfoldable pub repaystock_assets : ClosingRates → Trade Val → Val → Position d → Book d → Book d
  unfolding calculate_collateral_ratio
  repaystock_assets r t frozen p b =
      let amount = t.price ⊗ r.exchange_rate ⊗ volume d t in
      let value = p.last_price ⊗ r.exchange_rate ⊗ volume d t in
      let cash = frozen ⊗ r.exchange_rate ⊗ volume d t in
      let released = value ⊗ r.short_margin_ratio in
      let a = charge d (fees d t) b.asset in
      let m = b.asset_margin in
      record b {
        asset = record a {
          frozen_cash = a.frozen_cash ⊖ cash;
          avail = a.avail ⊕ (cash ⊖ amount ⊖ fees d t);
        };
        asset_margin = calculate_collateral_ratio d (record m {
          margin = m.margin ⊖ released;
          avail_margin = m.avail_margin ⊕ (released ⊖ fees d t);
          short_margin = m.short_margin ⊖ released;
          short_market_value = m.short_market_value ⊖ value;
          short_cash = m.short_cash ⊖ amount;
          total_asset = m.total_asset ⊖ (amount ⊕ fees d t);
        });
      }

  -- The position after a trade, by side; a side that is none of the six leaves it.
  unfoldable pub trade_position : Side → ClosingRates → Trade Val → Book d → Position d → Position d
  unfolding sell_position sell_margin repaymargin_position repaystock_position buy_position
      shortsell_position margintrade_position
  trade_position sell r t b p = sell_margin r t b (sell_position t p)
  trade_position repay_margin r t b p = repaymargin_position r t b p
  trade_position repay_stock r t b p = repaystock_position r t p
  trade_position buy r t b p = buy_position d hash number short_ratio conversion r t p
  trade_position margin_trade r t b p =
      margintrade_position d hash number short_ratio conversion t p
  trade_position short_sell r t b p = shortsell_position d hash number short_ratio conversion r t p
  trade_position _ r t b p = p

  -- The book after a trade, by side; `p0` is the position before it and `p` after it.
  unfoldable pub trade_assets :
      Side → ClosingRates → Trade Val → Val → Position d → Position d → Book d → Book d
  unfolding sell_assets repaymargin_assets repaystock_assets buy_assets shortsell_assets
      margintrade_assets sell_position
  trade_assets sell r t frozen p0 p b = sell_assets r t (sell_position t p0) b
  trade_assets repay_margin r t frozen p0 p b = repaymargin_assets r t p b
  trade_assets repay_stock r t frozen p0 p b = repaystock_assets r t frozen p b
  trade_assets buy r t frozen p0 p b =
      buy_assets d hash number short_ratio conversion r t frozen p b
  trade_assets margin_trade r t frozen p0 p b =
      margintrade_assets d hash number short_ratio conversion r t frozen p b
  trade_assets short_sell r t frozen p0 p b =
      shortsell_assets d hash number short_ratio conversion r t frozen p0 p b
  trade_assets _ r t frozen p0 p b = b

  -- The book after a trade, whose position on the side `dir` is `p0`.
  unfoldable pub trade_applied : Direction → Book d → Trade Val → Position d → Book d
  unfolding put_position get_frozen_price get_instr_conversion_margin_rate trade_position
      trade_assets
  trade_applied dir b t p0 =
      let r = get_instr_conversion_margin_rate d hash number short_ratio conversion b p0 in
      let p = trade_position t.side r t b p0 in
      trade_assets t.side r t (get_frozen_price d b t.order_id) p0 p
        (put_position d hash number dir t.exchange_id t.instrument_id p b)

  -- The sides that `apply_trade` knows.
  abbrev pub trades : Side → Bool
  trades sell = true
  trades buy = true
  trades margin_trade = true
  trades short_sell = true
  trades repay_margin = true
  trades repay_stock = true
  trades _ = false

  -- `none` is the exception of `get_direction` or `get_position`.
  unfoldable pub apply_trade : Book d → Trade Val → Option (Book d)
  unfolding trade_applied get_position
  apply_trade b t =
      if trades t.side
      then (get_direction t.instrument_type t.side t.offset >>= λ dir.
          get_position d hash number dir t.exchange_id t.instrument_id b >>= λ p.
          some (trade_applied dir b t p))
      else some b

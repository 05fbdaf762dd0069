-- ===== src/Accounting/Trades.antt =====
-- Trades in the accounting of stocks: `apply_trade` of src/wingchun/book/accounting/stock.hpp and the
-- six functions that it calls by side. Each is what it does to the position, which the trade's direction
-- selects, followed by what it does to the assets. `fees` is commission + tax.
use Prim.Native.String.{String}
use kungfu_cpp.Base.{Option, ℕ, ◌+◌, ◌-◌, Bool, ◌&&◌, if◌then◌else◌, ltb}
use kungfu_cpp.Base.Double.{Double, min}
use kungfu_cpp.Wingchun.Orders.{Trade}
use kungfu_cpp.Wingchun.Prices.{is_nonzero, is_positive}
use kungfu_cpp.Accounting.Book.{Position, Asset, AssetMargin, Book}
use kungfu_cpp.Accounting.Stock.{Rates, update_position}

module _ (d : Double) where
  open d use {Val, lit, lt, neg, add as ◌⊕◌, sub as ◌⊖◌, mul as ◌⊗◌, div as ◌⊘◌}

  infixl 65 ◌⊕◌ ◌⊖◌
  infixl 70 ◌⊗◌ ◌⊘◌
  abbrev pub fees : Trade Val → Val
  fees t = t.commission ⊕ t.tax

  abbrev pub volume : Trade Val → Val
  volume t = lit t.volume 0

  abbrev pub max_collateral_ratio : Val
  max_collateral_ratio = lit 1000 0

  unfoldable pub calculate_collateral_ratio : AssetMargin d → AssetMargin d
  calculate_collateral_ratio m =
      let total_debt = m.cash_debt ⊕ m.short_market_value ⊕ m.margin_interest in
      let ratio =
        if is_positive d total_debt
        then (m.total_asset ⊕ m.settlement) ⊘ total_debt
        else max_collateral_ratio in
      record m { collateral_ratio = min d ratio max_collateral_ratio }

  -- `position.volume + trade.volume > 0 && trade.price > 0`
  abbrev averages : Position d → Trade Val → Bool
  averages p t = ltb 0 (p.volume + t.volume) && is_positive d t.price

  -- The average of the held value and an amount, over the volume after the trade.
  abbrev average : Val → Position d → Val → Trade Val → Val
  average held p amount t = (held ⊗ lit p.volume 0 ⊕ amount) ⊘ lit (p.volume + t.volume) 0

  -- The volumes after a trade that closes: what was frozen for it is no longer frozen.
  abbrev pub close_volumes : ℕ → Position d → Position d
  close_volumes n p = record p {
    frozen_total = p.frozen_total - n;
    frozen_yesterday = p.frozen_yesterday - n;
    yesterday_volume = p.yesterday_volume - n;
    volume = p.volume - n;
  }

  abbrev pub charge : Val → Asset d → Asset d
  charge x a = record a {
    intraday_fee = a.intraday_fee ⊕ x;
    accumulated_fee = a.accumulated_fee ⊕ x;
  }

  -- `not position.last_price`
  abbrev pub first_price : Val → Position d → Position d
  first_price price p = record p {
    last_price = if is_nonzero d p.last_price then p.last_price else price;
  }

  module _ (hash : String → String → ℕ) (number : String → Option ℕ)
      (short_ratio conversion : Val) where
    abbrev pub TradeRates : Type 0
    TradeRates = Rates d hash number short_ratio conversion

    abbrev pub update : Position d → Position d
    update p = update_position d hash number short_ratio conversion p

    -- apply_buy
    unfoldable pub buy_position : TradeRates → Trade Val → Position d → Position d
    buy_position r t p =
        let amount = t.price ⊗ volume t ⊗ r.exchange_rate ⊘ r.exchange_rate in
        let last = if is_positive d p.last_price then p.last_price else t.price in
        record p {
          last_price = last;
          avg_open_price =
              if averages p t then average p.avg_open_price p amount t else p.avg_open_price;
          position_cost_price =
              if averages p t
              then (p.position_cost_price ⊗ lit p.volume 0 ⊕ amount ⊕ t.commission ⊕ t.tax)
                ⊘ lit (p.volume + t.volume) 0
              else p.position_cost_price;
          volume = p.volume + t.volume;
          unrealized_pnl = p.unrealized_pnl ⊕ (last ⊖ t.price) ⊗ volume t;
        }

    -- `p` is the position after the trade.
    unfoldable pub buy_assets : TradeRates → Trade Val → Val → Position d → Book d → Book d
    unfolding calculate_collateral_ratio
    buy_assets r t frozen p b =
        let amount = t.price ⊗ volume t ⊗ r.exchange_rate in
        let released = frozen ⊗ r.exchange_rate ⊗ volume t in
        let pnl = (p.last_price ⊖ t.price) ⊗ volume t in
        let value = volume t ⊗ p.last_price ⊗ r.exchange_rate in
        let a = charge (fees t) b.asset in
        let m = b.asset_margin in
        record b {
          asset = record a {
            frozen_cash = a.frozen_cash ⊖ released;
            avail = a.avail ⊕ (released ⊖ amount ⊖ fees t);
            unrealized_pnl = a.unrealized_pnl ⊕ pnl ⊗ r.exchange_rate;
            market_value = a.market_value ⊕ value;
          };
          asset_margin =
              if is_nonzero d m.total_asset
              then calculate_collateral_ratio (record m {
                total_asset = m.total_asset ⊕ (value ⊖ amount ⊖ fees t);
                avail_margin = m.avail_margin ⊕ (value ⊗ r.conversion_rate ⊖ amount ⊖ fees t);
              })
              else m;
        }

    -- apply_shortsell
    unfoldable pub shortsell_position : TradeRates → Trade Val → Position d → Position d
    shortsell_position r t p =
        let amount = t.price ⊗ volume t ⊗ r.exchange_rate ⊘ r.exchange_rate in
        let n = p.volume + t.volume in
        record p {
          last_price = t.price;
          avg_open_price =
              if averages p t then average p.avg_open_price p amount t else p.avg_open_price;
          position_cost_price =
              if averages p t
              then (p.position_cost_price ⊗ lit p.volume 0 ⊕ amount ⊖ t.commission ⊖ t.tax)
                ⊘ lit n 0
              else p.position_cost_price;
          volume = n;
          margin = t.price ⊗ r.exchange_rate ⊗ lit n 0 ⊗ r.short_margin_ratio;
        }

    -- The last price before the trade; `p` is the position after it.
    abbrev shortsell_original_price : Trade Val → Position d → Position d → Val
    shortsell_original_price t p0 p =
        let last = if is_nonzero d p0.last_price then p0.last_price else t.price in
        if is_positive d last then last else p.avg_open_price

    -- `p0` is the position before the trade and `p` after it.
    unfoldable pub shortsell_assets :
        TradeRates → Trade Val → Val → Position d → Position d → Book d → Book d
    unfolding calculate_collateral_ratio
    shortsell_assets r t frozen p0 p b =
        let amount = t.price ⊗ volume t ⊗ r.exchange_rate in
        let released = frozen ⊗ r.exchange_rate ⊗ volume t ⊗ r.short_margin_ratio in
        let value_before = shortsell_original_price t p0 p ⊗ r.exchange_rate ⊗ lit p0.volume 0 in
        let value_after = t.price ⊗ r.exchange_rate ⊗ lit p.volume 0 in
        let margin_change =
          value_after ⊗ r.short_margin_ratio ⊖ value_before ⊗ r.short_margin_ratio in
        let delta = margin_change ⊖ released in
        let cash = amount ⊖ t.commission ⊖ t.tax in
        let a = charge (fees t) b.asset in
        let m = b.asset_margin in
        record b {
          asset = record a { frozen_margin = a.frozen_margin ⊖ released };
          asset_margin = calculate_collateral_ratio (record m {
            margin = m.margin ⊕ delta;
            total_asset = m.total_asset ⊕ cash;
            short_cash = m.short_cash ⊕ cash;
            short_margin = m.short_margin ⊕ delta;
            avail_margin = m.avail_margin ⊖ (delta ⊕ t.commission ⊕ t.tax);
            short_market_value = m.short_market_value ⊕ (value_after ⊖ value_before);
          });
        }

    -- apply_margintrade
    unfoldable pub margintrade_position : Trade Val → Position d → Position d
    margintrade_position t p0 =
        let p = first_price t.price p0 in
        let amount = t.price ⊗ volume t in
        record p {
          avg_open_price =
              if averages p t then average p.avg_open_price p amount t else p.avg_open_price;
          position_cost_price =
              if averages p t
              then (p.position_cost_price ⊗ lit p.volume 0 ⊕ amount ⊕ t.commission ⊕ t.tax)
                ⊘ lit (p.volume + t.volume) 0
              else p.position_cost_price;
          unrealized_pnl = p.unrealized_pnl ⊕ (p.last_price ⊖ t.price) ⊗ volume t;
          margin = p.margin ⊕ amount;
          volume = p.volume + t.volume;
        }

    unfoldable pub margintrade_assets : TradeRates → Trade Val → Val → Position d → Book d → Book d
    unfolding calculate_collateral_ratio
    margintrade_assets r t frozen p b =
        let amount = t.price ⊗ volume t in
        let value = volume t ⊗ p.last_price ⊗ r.exchange_rate in
        let pnl = (p.last_price ⊖ t.price) ⊗ volume t in
        let released = frozen ⊗ r.exchange_rate ⊗ volume t ⊗ r.long_margin_ratio in
        let delta = amount ⊗ r.long_margin_ratio ⊖ released in
        let a = charge (fees t) b.asset in
        let m = b.asset_margin in
        record b {
          asset = record a {
            market_value = a.market_value ⊕ value;
            frozen_margin = a.frozen_margin ⊖ released;
            unrealized_pnl = a.unrealized_pnl ⊕ pnl ⊗ r.exchange_rate;
          };
          asset_margin = calculate_collateral_ratio (record m {
            total_asset = m.total_asset ⊕ value;
            cash_debt = m.cash_debt ⊕ (amount ⊕ t.commission ⊕ t.tax);
            margin = m.margin ⊕ delta;
            cash_margin = m.cash_margin ⊕ delta;
            avail_margin = m.avail_margin ⊖ (delta ⊕ t.commission ⊕ t.tax);
            margin_market_value = m.margin_market_value ⊕ value;
          });
        }

-- ===== src/Accounting/Stock.antt =====
-- Freezing and releasing in the accounting of stocks, `apply_order_input` and `apply_order` of
-- src/wingchun/book/accounting/stock.hpp. `short_ratio` and `conversion` are the constants 0.6 and 0.7,
-- which the program rounds to float. A result of `none` is an exception, of
-- `get_direction` or of `get_position`.
use Prim.Native.String.{String}
use kungfu_cpp.Base.{ℕ, ◌+◌, ◌-◌, Option, none, some, if◌then◌else◌, leb}
use kungfu_cpp.Base.Chains.{◌>>=◌}
use kungfu_cpp.Base.Dict.{lookup, assign}
use kungfu_cpp.Base.Double.{Double}
use kungfu_cpp.Wingchun.Enums.{
  Direction, Side, long, short, buy, sell, repay_margin, repay_stock, margin_trade, short_sell,
}
use kungfu_cpp.Wingchun.Directions.{get_direction, is_final_status}
use kungfu_cpp.Wingchun.Orders.{OrderInput, Order}
use kungfu_cpp.Accounting.Book.{
  Position, Book, Instrument, get_position, put_position, get_frozen_price,
}
use kungfu_cpp.Wingchun.Prices.{zero_value, is_equal}

module _ (d : Double) (hash : String → String → ℕ) (number : String → Option ℕ)
    (short_ratio conversion : d.Val) where
  open d use {Val, lit, lt, add, sub, mul, neg}

  -- `contract_discount_and_margin_ratio`
  pub record Rates : Type 0 where
    pub contract_multiplier : ℕ
    pub long_margin_ratio : Val
    pub short_margin_ratio : Val
    pub margin_ratio : Val
    pub conversion_rate : Val
    pub exchange_rate : Val

  abbrev pub by_direction : Direction → Val → Val → Val
  by_direction long x y = x
  by_direction short x y = y

  abbrev default_rates : Position d → Rates
  default_rates p = record {
    contract_multiplier = 1;
    long_margin_ratio = lit 1 0;
    short_margin_ratio = short_ratio;
    margin_ratio = by_direction p.direction (lit 1 0) short_ratio;
    conversion_rate = conversion;
    exchange_rate = lit 1 0;
  }

  abbrev instrument_rates : Instrument d → Position d → Rates
  instrument_rates i p = record {
    contract_multiplier = i.contract_multiplier;
    long_margin_ratio = i.long_margin_ratio;
    short_margin_ratio = i.short_margin_ratio;
    margin_ratio = by_direction p.direction i.long_margin_ratio i.short_margin_ratio;
    conversion_rate = i.conversion_rate;
    exchange_rate = if is_equal d i.exchange_rate (zero_value d) then lit 1 0 else i.exchange_rate;
  }

  unfoldable pub get_instr_conversion_margin_rate : Book d → Position d → Rates
  get_instr_conversion_margin_rate b p =
      elim (lookup (hash p.exchange_id p.instrument_id) b.instruments) [
        | none ↦ default_rates p
        | some i ↦ instrument_rates i p
      ]

  -- The volume of an order that closes a position.
  abbrev pub freeze : ℕ → Position d → Position d
  freeze volume p = record p {
    frozen_total = p.frozen_total + volume;
    frozen_yesterday =
        if leb (volume + p.frozen_yesterday) p.yesterday_volume
        then p.frozen_yesterday + volume
        else p.yesterday_volume;
  }

  -- `std::max(… - volume_left, VOLUME_ZERO)`
  abbrev pub release : ℕ → Position d → Position d
  release volume_left p = record p {
    frozen_total = p.frozen_total - volume_left;
    frozen_yesterday = p.frozen_yesterday - volume_left;
  }

  abbrev freeze_cash : Val → Book d → Book d
  freeze_cash x b = record b {
    asset = record b.asset { frozen_cash = add b.asset.frozen_cash x; avail = sub b.asset.avail x };
  }

  abbrev release_cash : Val → Book d → Book d
  release_cash x b = record b {
    asset = record b.asset { frozen_cash = sub b.asset.frozen_cash x; avail = add b.asset.avail x };
  }

  -- What a margin trade and a short sale freeze, the second with a different account.
  abbrev freeze_margin : Side → Val → Book d → Book d
  freeze_margin side x b = record b {
    asset = record b.asset { frozen_margin = add b.asset.frozen_margin x };
    asset_margin = record b.asset_margin {
      avail_margin = sub b.asset_margin.avail_margin x;
      cash_margin = elim side [
        | margin_trade ↦ add b.asset_margin.cash_margin x
        | _ ↦ b.asset_margin.cash_margin
      ];
      short_margin = elim side [
        | margin_trade ↦ b.asset_margin.short_margin
        | _ ↦ add b.asset_margin.short_margin x
      ];
      margin = add b.asset_margin.margin x;
    };
  }

  -- The available margin is raised twice.
  abbrev pub release_margin : Side → Val → Book d → Book d
  release_margin side x b = record b {
    asset = record b.asset { frozen_margin = sub b.asset.frozen_margin x };
    asset_margin = record b.asset_margin {
      avail_margin = add (add b.asset_margin.avail_margin x) x;
      cash_margin = elim side [
        | margin_trade ↦ sub b.asset_margin.cash_margin x
        | _ ↦ b.asset_margin.cash_margin
      ];
      short_margin = elim side [
        | margin_trade ↦ b.asset_margin.short_margin
        | _ ↦ sub b.asset_margin.short_margin x
      ];
      margin = sub b.asset_margin.margin x;
    };
  }

  -- The amount that an input freezes; the fee in it is 0.
  abbrev input_amount : OrderInput Val → Rates → Val
  input_amount input r =
      add (mul (mul (lit input.volume 0) input.frozen_price) r.exchange_rate) (zero_value d)

  -- The position of an input, and the book, by side.
  unfoldable pub input_position : Side → ℕ → Position d → Position d
  input_position sell volume p = freeze volume p
  input_position repay_margin volume p = freeze volume p
  input_position repay_stock volume p = freeze volume p
  input_position _ volume p = p

  unfoldable pub input_book : Side → Val → Rates → Book d → Book d
  input_book buy amount r b = freeze_cash amount b
  input_book repay_stock amount r b = freeze_cash amount b
  input_book margin_trade amount r b = freeze_margin margin_trade (mul amount r.long_margin_ratio) b
  input_book short_sell amount r b = freeze_margin short_sell (mul amount r.short_margin_ratio) b
  input_book _ amount r b = b

  -- The book after an input, whose position on the side `dir` is `p`.
  unfoldable pub input_applied : Direction → Book d → OrderInput Val → Position d → Book d
  unfolding put_position get_instr_conversion_margin_rate input_position input_book
  input_applied dir b input p =
      let r = get_instr_conversion_margin_rate b p in
      input_book input.side (input_amount input r) r (
        put_position d hash number dir input.exchange_id input.instrument_id
          (input_position input.side input.volume p) b)

  unfoldable pub apply_order_input : Book d → OrderInput Val → Option (Book d)
  unfolding input_applied get_position
  apply_order_input b input = do
    dir ← get_direction input.instrument_type input.side input.offset
    p ← get_position d hash number dir input.exchange_id input.instrument_id b
    some (input_applied dir b input p)

  -- `update_position`: the unrealized profit at the last price.
  abbrev pub update_position : Position d → Position d
  update_position p =
      if lt (zero_value d) p.last_price
      then (let change = sub p.last_price p.avg_open_price in
          record p {
            unrealized_pnl = mul (by_direction p.direction change (neg change)) (lit p.volume 0);
          })
      else p

  unfoldable pub order_position : Side → ℕ → Position d → Position d
  order_position sell volume_left p = release volume_left p
  order_position repay_margin volume_left p = release volume_left p
  order_position repay_stock volume_left p = release volume_left p
  order_position _ volume_left p = p

  -- `cash` is what is left of the frozen cash, `held` the same in the order of the margin's product.
  unfoldable pub order_book : Side → Val → Val → Rates → Book d → Book d
  order_book buy cash held r b = release_cash cash b
  order_book repay_stock cash held r b = release_cash (add cash (zero_value d)) b
  order_book margin_trade cash held r b =
      release_margin margin_trade (add (mul held r.long_margin_ratio) (zero_value d)) b
  order_book short_sell cash held r b =
      release_margin short_sell (add (mul held r.short_margin_ratio) (zero_value d)) b
  order_book _ cash held r b = b

  -- An order that the book does not know is added.
  abbrev pub know_order : Order Val → Book d → Book d
  know_order o b = elim (lookup o.order_id b.orders) [
    | none ↦ record b { orders = assign o.order_id o b.orders }
    | some known ↦ b
  ]

  -- The book after the end of an order, whose position on the side `dir` is `p`.
  unfoldable pub order_finished : Direction → Book d → Order Val → Position d → Book d
  unfolding put_position get_instr_conversion_margin_rate get_frozen_price order_position order_book
  order_finished dir b o p =
      let r = get_instr_conversion_margin_rate b p in
      let price = get_frozen_price d b o.order_id in
      order_book o.side (mul (mul price (lit o.volume_left 0)) r.exchange_rate)
        (mul (mul price r.exchange_rate) (lit o.volume_left 0)) r
        (put_position d hash number dir o.exchange_id o.instrument_id
          (update_position (order_position o.side o.volume_left p)) b)

  unfoldable pub finish_order : Book d → Order Val → Option (Book d)
  unfolding order_finished get_position
  finish_order b o = do
    dir ← get_direction o.instrument_type o.side o.offset
    p ← get_position d hash number dir o.exchange_id o.instrument_id b
    some (order_finished dir b o p)

  unfoldable pub apply_order : Book d → Order Val → Option (Book d)
  unfolding finish_order
  apply_order b o =
      if is_final_status o.status then finish_order (know_order o b) o else some (know_order o b)

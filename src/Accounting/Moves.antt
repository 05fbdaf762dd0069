-- ===== src/Accounting/Moves.antt =====
-- What a trade of the accounting of stocks does to the volumes of its position.
use Prim.Native.String.{String}
use kungfu_cpp.Base.{
  Option, ℕ, ◌+◌, ◌-◌, ◌≡◌, refl, ◌∙◌, ap, inl, inr, true, false, some, arith, Bool-cases,
}
use kungfu_cpp.Base.Dict.{lookup}
use kungfu_cpp.Base.Double.{Double}
use kungfu_cpp.Wingchun.Enums.{
  Direction, Side, long, short, buy, sell, repay_margin, repay_stock, margin_trade, short_sell,
}
use kungfu_cpp.Wingchun.Directions.{get_direction}
use kungfu_cpp.Wingchun.Orders.{Trade}
use kungfu_cpp.Accounting.Book.{
  Position, Book, positions, get_position, put_position, get_frozen_price,
}
use kungfu_cpp.Accounting.Stock.{get_instr_conversion_margin_rate}
use kungfu_cpp.Accounting.Freezing.{lookup-put_position, get_position-lookup}
use kungfu_cpp.Accounting.Trades.{TradeRates}
use kungfu_cpp.Accounting.Closing.{trade_position, trade_assets, trade_applied, trades, apply_trade}

module _ (d : Double) (hash : String → String → ℕ) (number : String → Option ℕ)
    (short_ratio conversion : d.Val) where
  pub positions-trade_assets :
      (dir : Direction) (side : Side) (r : TradeRates d hash number short_ratio conversion)
      (t : Trade d.Val) (x : d.Val) (p q : Position d) (b : Book d)
      → positions d dir (trade_assets d hash number short_ratio conversion side r t x p q b)
        ≡ positions d dir b
  unfolding trade_assets
  positions-trade_assets long repay_margin r t x p q b = ground arith
  positions-trade_assets short repay_margin r t x p q b = ground arith
  positions-trade_assets long _ r t x p q b = refl
  positions-trade_assets short _ r t x p q b = refl

  -- The volume of a position after an order of the side has traded `n`.
  abbrev pub traded : Side → ℕ → ℕ → ℕ
  traded buy n v = v + n
  traded margin_trade n v = v + n
  traded short_sell n v = v + n
  traded sell n v = v - n
  traded repay_margin n v = v - n
  traded repay_stock n v = v - n
  traded _ n v = v

  -- What is frozen after an order of the side has traded `n`.
  abbrev pub thawed : Side → ℕ → ℕ → ℕ
  thawed sell n v = v - n
  thawed repay_margin n v = v - n
  thawed repay_stock n v = v - n
  thawed _ n v = v

  -- `q` is `p` after a trade of `n`: its volume, what is frozen, and of yesterday's volume.
  abbrev pub Moved : Side → ℕ → Position d → Position d → Type 0
  Moved side n p q =
      (q.volume ≡ traded side n p.volume)
      × (q.frozen_total ≡ thawed side n p.frozen_total)
      × (q.yesterday_volume ≡ thawed side n p.yesterday_volume)
      × (q.frozen_yesterday ≡ thawed side n p.frozen_yesterday)

  trade_position-Moved :
      (side : Side) (r : TradeRates d hash number short_ratio conversion) (t : Trade d.Val)
      (b : Book d) (p : Position d)
      → Moved side t.volume p (trade_position d hash number short_ratio conversion side r t b p)
  unfolding trade_position
  trade_position-Moved buy r t b p = (refl, refl, refl, refl)
  trade_position-Moved margin_trade r t b p = (refl, refl, refl, refl)
  trade_position-Moved short_sell r t b p = (refl, refl, refl, refl)
  trade_position-Moved sell r t b p = ground arith
  trade_position-Moved repay_margin r t b p = (refl, refl, refl, refl)
  trade_position-Moved repay_stock r t b p = (refl, refl, refl, refl)
  trade_position-Moved _ r t b p = (refl, refl, refl, refl)

  pub Moved-trans :
      (side : Side) (n m : ℕ) (p q s : Position d)
      → Moved side n p q
      → Moved side m q s
      → Moved side (n + m) p s
  Moved-trans buy n m p q s h k = omega arith
  Moved-trans margin_trade n m p q s h k = omega arith
  Moved-trans short_sell n m p q s h k = omega arith
  Moved-trans sell n m p q s h k = omega arith
  Moved-trans repay_margin n m p q s h k = omega arith
  Moved-trans repay_stock n m p q s h k = omega arith
  Moved-trans _ n m p q s h k = omega arith

  pub Moved-none : (side : Side) (p : Position d) → Moved side 0 p p
  Moved-none buy p = omega arith
  Moved-none margin_trade p = omega arith
  Moved-none short_sell p = omega arith
  Moved-none sell p = omega arith
  Moved-none repay_margin p = omega arith
  Moved-none repay_stock p = omega arith
  Moved-none _ p = omega arith

  pub apply_trade-eq :
      (b : Book d) (t : Trade d.Val) (dir : Direction) (p : Position d)
      → get_direction t.instrument_type t.side t.offset ≡ some dir
      → get_position d hash number dir t.exchange_id t.instrument_id b ≡ some p
      → trades d hash number short_ratio conversion t.side ≡ true
      → apply_trade d hash number short_ratio conversion b t
        ≡ some (trade_applied d hash number short_ratio conversion dir b t p)
  unfolding apply_trade
  apply_trade-eq b t dir p h l k = rw (k, h, l) refl

  pub apply_trade-skip :
      (b : Book d) (t : Trade d.Val)
      → trades d hash number short_ratio conversion t.side ≡ false
      → apply_trade d hash number short_ratio conversion b t ≡ some b
  unfolding apply_trade
  apply_trade-skip b t k = rw (k, apply_trade) refl

  skip-Moved :
      (side : Side) (n : ℕ) (p : Position d)
      → trades d hash number short_ratio conversion side ≡ false
      → Moved side n p p
  skip-Moved buy n p k = cc
  skip-Moved margin_trade n p k = cc
  skip-Moved short_sell n p k = cc
  skip-Moved sell n p k = cc
  skip-Moved repay_margin n p k = cc
  skip-Moved repay_stock n p k = cc
  skip-Moved _ n p k = (refl, refl, refl, refl)

  abbrev pub Holds : Direction → String → String → Book d → Position d → Type 0
  Holds dir e i b p = lookup (hash e i) (positions d dir b) ≡ some p

  trade_applied-Holds :
      (dir : Direction) (b : Book d) (t : Trade d.Val) (p : Position d)
      → (q : Position d) × Holds dir t.exchange_id t.instrument_id
          (trade_applied d hash number short_ratio conversion dir b t p)
          q
        × Moved t.side t.volume p q
  unfolding trade_applied
  trade_applied-Holds dir b t p =
      let r = get_instr_conversion_margin_rate d hash number short_ratio conversion b p in
      let q = trade_position d hash number short_ratio conversion t.side r t b p in
      (
        q,
        ap (lookup (hash t.exchange_id t.instrument_id)) (
              positions-trade_assets dir t.side r t (get_frozen_price d b t.order_id) p q
                (put_position d hash number dir t.exchange_id t.instrument_id q b))
            ∙ lookup-put_position d hash number short_ratio conversion dir t.exchange_id
                t.instrument_id q b,
        trade_position-Moved t.side r t b p,
      )

  -- A trade that `get_direction` accepts moves the position on its side, if its side moves any.
  pub apply_trade-Holds :
      (dir : Direction) (b : Book d) (t : Trade d.Val) (p : Position d)
      → get_direction t.instrument_type t.side t.offset ≡ some dir
      → Holds dir t.exchange_id t.instrument_id b p
      → (b' : Book d) × (q : Position d) × (apply_trade d hash number short_ratio conversion b t
          ≡ some b')
        × Holds dir t.exchange_id t.instrument_id b' q
        × Moved t.side t.volume p q
  apply_trade-Holds dir b t p h l =
      elim (Bool-cases (trades d hash number short_ratio conversion t.side)) [
        | inl k ↦
            let (q, l', m) = trade_applied-Holds dir b t p in
            let g =
              get_position-lookup d hash number short_ratio conversion dir t.exchange_id
                t.instrument_id p b l in
            (
              trade_applied d hash number short_ratio conversion dir b t p,
              q,
              apply_trade-eq b t dir p h g k,
              l',
              m,
            )
        | inr k ↦ (b, p, apply_trade-skip b t k, l, skip-Moved t.side t.volume p k)
      ]

-- ===== src/Accounting/Steps.antt =====
-- Trades, trading days and quotes keep the frozen volumes of positions within bounds.
use Prim.Native.String.{String}
use kungfu_cpp.Base.Chains.{◌>>=◌}
use kungfu_cpp.Base.{
  some, ℕ, not, ◌||◌, ◌==◌, ltb, ◌≡◌, refl, sym, subst, inl, inr, List, [], ◌∷◌, Option, none,
  arith, Bool-cases,
}
use kungfu_cpp.Base.Double.{Double}
use kungfu_cpp.Wingchun.Enums.{
  Direction, Side, long, short, buy, sell, repay_margin, repay_stock, margin_trade, short_sell,
}
use kungfu_cpp.Wingchun.Directions.{get_direction}
use kungfu_cpp.Wingchun.Orders.{Trade}
use kungfu_cpp.Wingchun.Quotes.{Quote}
use kungfu_cpp.Wingchun.Prices.{is_valid_price}
use kungfu_cpp.Accounting.Book.{Position, Book, positions, get_position, put_position}
use kungfu_cpp.Accounting.Stock.{get_instr_conversion_margin_rate}
use kungfu_cpp.Accounting.Trades.{TradeRates}
use kungfu_cpp.Accounting.Closing.{trade_position, trade_applied, trades, apply_trade}
use kungfu_cpp.Accounting.Days.{
  StockMethod, on_positions, apply_trading_day, calculate_marketvalue, quote_side, quote_position,
  quote_assets, quote_on, apply_quote,
}
use kungfu_cpp.Accounting.Moves.{positions-trade_assets}
use kungfu_cpp.Accounting.Bounds.{
  IsBounded, AllBounded, AreBounded, ResultBounded, get_position-IsBounded, put_position-AreBounded,
  update_position-IsBounded, ResultBounded-bind,
}

module _ (d : Double) (hash : String → String → ℕ) (number : String → Option ℕ)
    (short_ratio conversion : d.Val) where
  trade_position-IsBounded :
      (side : Side) (r : TradeRates d hash number short_ratio conversion) (t : Trade d.Val)
      (b : Book d) (p : Position d)
      → IsBounded d p
      → IsBounded d (trade_position d hash number short_ratio conversion side r t b p)
  unfolding trade_position
  trade_position-IsBounded buy r t b p h = h
  trade_position-IsBounded margin_trade r t b p h = h
  trade_position-IsBounded short_sell r t b p h = h
  trade_position-IsBounded sell r t b p h = ground (arith, h.0, h.1)
  trade_position-IsBounded repay_margin r t b p h = ground (arith, h.0, h.1)
  trade_position-IsBounded repay_stock r t b p h = ground (arith, h.0, h.1)
  trade_position-IsBounded _ r t b p h = h

  trade_applied-AreBounded :
      (dir : Direction) (b : Book d) (t : Trade d.Val) (p0 : Position d)
      → AreBounded d b
      → IsBounded d p0
      → AreBounded d (trade_applied d hash number short_ratio conversion dir b t p0)
  unfolding trade_applied
  trade_applied-AreBounded dir b t p0 h v = λ dir'.
      let r = get_instr_conversion_margin_rate d hash number short_ratio conversion b p0 in
      let p = trade_position d hash number short_ratio conversion t.side r t b p0 in
      subst (AllBounded d)
        (sym (positions-trade_assets d hash number short_ratio conversion dir' t.side r t _ p0 p _))
        (put_position-AreBounded d hash number dir t.exchange_id t.instrument_id p b
          (trade_position-IsBounded t.side r t b p0 v) h dir')

  -- `ResultBounded`, of a book that may be none.
  abbrev pub Bounded : Option (Book d) → Type 0
  Bounded = ResultBounded d hash number short_ratio conversion

  pub apply_trade-ResultBounded :
      (b : Book d) (t : Trade d.Val)
      → AreBounded d b
      → Bounded (apply_trade d hash number short_ratio conversion b t)
  unfolding apply_trade
  apply_trade-ResultBounded b t h =
      elim (Bool-cases (trades d hash number short_ratio conversion t.side)) [
        | inr k ↦ rw k h
        | inl k ↦ rw k (
            ResultBounded-bind d hash number short_ratio conversion
              (get_direction t.instrument_type t.side t.offset) _
              (λ dir _.
                ResultBounded-bind d hash number short_ratio conversion
                  (get_position d hash number dir t.exchange_id t.instrument_id b) _
                  (λ p e. trade_applied-AreBounded dir b t p h (
                    get_position-IsBounded d hash number dir t.exchange_id t.instrument_id b p h
                      e))))
      ]

  on_positions-AllBounded :
      (f : Position d → Position d) (ps : List (ℕ × Position d))
      → ((p : Position d) → IsBounded d p → IsBounded d (f p))
      → AllBounded d ps
      → AllBounded d (on_positions d hash number short_ratio conversion f ps)
  on_positions-AllBounded f [] k h = tt
  on_positions-AllBounded f ((j, p) ∷ ps) k h = (k p h.0, on_positions-AllBounded f ps k h.1)

  pub apply_trading_day-AreBounded :
      (strftime : ℕ → String) (day : ℕ) (b : Book d)
      → AreBounded d b
      → AreBounded d (apply_trading_day d hash number short_ratio conversion strftime day b)
  unfolding apply_trading_day
  apply_trading_day-AreBounded strftime day b h long =
      on_positions-AllBounded _ b.long_positions (λ p v. ground arith) (h long)
  apply_trading_day-AreBounded strftime day b h short =
      on_positions-AllBounded _ b.short_positions (λ p v. ground arith) (h short)

  calculate_marketvalue-AreBounded :
      (now : ℕ) (s : StockMethod d hash number short_ratio conversion) (b : Book d)
      → AreBounded d b
      → AreBounded d (calculate_marketvalue d hash number short_ratio conversion now (s, b)).1
  unfolding calculate_marketvalue
  calculate_marketvalue-AreBounded now s b h long =
      on_positions-AllBounded _ b.long_positions
        (λ p v.
          update_position-IsBounded d hash number short_ratio conversion
            (record p { update_time = now }) v)
        (h long)
  calculate_marketvalue-AreBounded now s b h short =
      on_positions-AllBounded _ b.short_positions
        (λ p v.
          update_position-IsBounded d hash number short_ratio conversion
            (record p { update_time = now }) v)
        (h short)

  quote_position-IsBounded :
      (dir : Direction) (q : Quote d.Val) (r : TradeRates d hash number short_ratio conversion)
      (p : Position d)
      → IsBounded d p
      → IsBounded d (quote_position d hash number short_ratio conversion dir q r p)
  unfolding quote_position
  quote_position-IsBounded long q r p h =
      update_position-IsBounded d hash number short_ratio conversion
        (record p { last_price = q.last_price }) h
  quote_position-IsBounded short q r p h = ground (arith, h.0, h.1)

  positions-quote_assets :
      (dir side : Direction) (q : Quote d.Val) (r : TradeRates d hash number short_ratio conversion)
      (p : Position d) (b : Book d)
      → positions d dir (quote_assets d hash number short_ratio conversion side q r p b)
        ≡ positions d dir b
  unfolding quote_assets
  positions-quote_assets long long q r p b = refl
  positions-quote_assets long short q r p b = refl
  positions-quote_assets short long q r p b = refl
  positions-quote_assets short short q r p b = refl

  quote_side-AreBounded :
      (now : ℕ) (dir : Direction) (q : Quote d.Val)
      (s : StockMethod d hash number short_ratio conversion) (b : Book d) (p : Position d)
      → AreBounded d b
      → IsBounded d p
      → AreBounded d (quote_side d hash number short_ratio conversion now dir q (s, b) p).1
  unfolding quote_side
  quote_side-AreBounded now dir q s b p h v =
      let e = q.exchange_id in
      let i = q.instrument_id in
      let r = get_instr_conversion_margin_rate d hash number short_ratio conversion b p in
      let p' = quote_position d hash number short_ratio conversion p.direction q r p in
      let put = put_position d hash number dir e i p' b in
      let quoted = quote_assets d hash number short_ratio conversion p.direction q r p put in
      let hq : AreBounded d quoted = λ dir'.
        subst (AllBounded d) (sym (positions-quote_assets dir' p.direction q r p put)) (
          put_position-AreBounded d hash number dir e i p' b
            (quote_position-IsBounded p.direction q r p v) h dir') in
      elim (Bool-cases (not (is_valid_price d q.last_price) || p.volume == 0)) [
        | inl t ↦ rw (t, quote_side) (put_position-AreBounded d hash number dir e i p b v h)
        | inr f ↦ elim (Bool-cases (ltb 20 s.counter)) [
          | inl t ↦
              rw (f, t, quote_side)
                (calculate_marketvalue-AreBounded now (record s { counter = 0 }) quoted hq)
          | inr g ↦ rw (f, g, quote_side) hq
        ]
      ]

  abbrev pub State : Type 0
  State = StockMethod d hash number short_ratio conversion × Book d

  -- What may have failed leaves bounded positions, if it leaves a state.
  abbrev pub StateBounded : Option State → Type 0
  StateBounded none = Unit {0}
  StateBounded (some sb) = AreBounded d sb.1

  StateBounded-bind :
      (r : Option State) (f : State → Option State)
      → StateBounded r
      → ((sb : State) → AreBounded d sb.1 → StateBounded (f sb))
      → StateBounded (r >>= f)
  StateBounded-bind none f h k = tt
  StateBounded-bind (some sb) f h k = k sb h

  quote_on-StateBounded :
      (now : ℕ) (dir : Direction) (q : Quote d.Val) (sb : State)
      → AreBounded d sb.1
      → StateBounded (quote_on d hash number short_ratio conversion now dir q sb)
  unfolding quote_on
  quote_on-StateBounded now dir q (s, b) h = created _ refl
    where
      created :
          (r : Option (Position d))
          → get_position d hash number dir q.exchange_id q.instrument_id b ≡ r
          → StateBounded
              (r >>= λ p. some (quote_side d hash number short_ratio conversion now dir q (s, b) p))
      created none n = tt
      created (some p) n =
          quote_side-AreBounded now dir q s b p h
            (get_position-IsBounded d hash number dir q.exchange_id q.instrument_id b p h n)

  pub apply_quote-StateBounded :
      (now : ℕ) (q : Quote d.Val) (sb : State)
      → AreBounded d sb.1
      → StateBounded (apply_quote d hash number short_ratio conversion now q sb)
  unfolding apply_quote
  apply_quote-StateBounded now q sb h =
      StateBounded-bind _ _ (quote_on-StateBounded now long q sb h) (λ long_done k.
        StateBounded-bind _ _ (quote_on-StateBounded now short q long_done k) (λ done g. g))

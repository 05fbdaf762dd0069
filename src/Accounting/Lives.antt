-- ===== src/Accounting/Lives.antt =====
-- The life of an order in the accounting of stocks: its input, its trades and its end.
use Prim.Native.String.{String}
use kungfu_cpp.Base.{
  ◌-◌, leb, if◌then◌else◌, ℕ, ◌+◌, ◌≡◌, refl, sym, ◌∙◌, ap, subst, true, List, [], ◌∷◌, map, Option,
  none, some, sum_by, arith,
}
use kungfu_cpp.Base.Dict.{lookup}
use kungfu_cpp.Base.Double.{Double}
use kungfu_cpp.Wingchun.Enums.{
  Direction, Side, OrderStatus, buy, sell, repay_margin, repay_stock, margin_trade, short_sell,
}
use kungfu_cpp.Wingchun.Directions.{get_direction, is_final_status}
use kungfu_cpp.Wingchun.Orders.{OrderInput, Order, Trade, order_from_input, trade_from_order}
use kungfu_cpp.Accounting.Book.{Position, Book, get_position}
use kungfu_cpp.Accounting.Stock.{
  apply_order_input, apply_order, update_position, input_position, order_position, input_applied,
  know_order, order_finished,
}
use kungfu_cpp.Accounting.Freezing.{
  get_position-lookup, lookup-input_applied, lookup-order_finished, know_order-positions,
  apply_order-eq, finish_order-eq,
}
use kungfu_cpp.Accounting.Closing.{apply_trade}
use kungfu_cpp.Accounting.Moves.{
  Moved, Holds, Moved-none, Moved-trans, apply_trade-Holds, traded, thawed,
}

module _ (d : Double) (hash : String → String → ℕ) (number : String → Option ℕ)
    (short_ratio conversion : d.Val) where
  pub apply_trades : Book d → List (Trade d.Val) → Option (Book d)
  apply_trades b [] = some b
  apply_trades b (t ∷ ts) = elim (apply_trade d hash number short_ratio conversion b t) [
    | none ↦ none
    | some b' ↦ apply_trades b' ts
  ]

  apply_trades-cons :
      (b b' : Book d) (t : Trade d.Val) (ts : List (Trade d.Val))
      → apply_trade d hash number short_ratio conversion b t ≡ some b'
      → apply_trades b (t ∷ ts) ≡ apply_trades b' ts
  unfolding apply_trades
  apply_trades-cons b b' t ts h = rw (h, apply_trades) refl

  -- The trades of an order: what the program copies from the order into each.
  abbrev pub fills : Order d.Val → List (Trade d.Val) → List (Trade d.Val)
  fills o ts = map (trade_from_order d.Val o) ts

  abbrev pub total : List (Trade d.Val) → ℕ
  total ts = sum_by (λ t. t.volume) ts

  apply_trades-Holds :
      (dir : Direction) (o : Order d.Val) (ts : List (Trade d.Val)) (b : Book d) (p : Position d)
      → get_direction o.instrument_type o.side o.offset ≡ some dir
      → Holds d hash number short_ratio conversion dir o.exchange_id o.instrument_id b p
      → (b' : Book d) × (q : Position d) × (apply_trades b (fills o ts) ≡ some b')
        × Holds d hash number short_ratio conversion dir o.exchange_id o.instrument_id b' q
        × Moved d hash number short_ratio conversion o.side (total ts) p q
  unfolding apply_trades
  apply_trades-Holds dir o [] b p h l =
      (b, p, refl, l, Moved-none d hash number short_ratio conversion o.side p)
  apply_trades-Holds dir o (t ∷ ts) b p h l =
      let (b', q, e, l', m) =
        apply_trade-Holds d hash number short_ratio conversion dir b (trade_from_order d.Val o t) p
          h l in
      let (b'', s, e', l'', m') = apply_trades-Holds dir o ts b' q h l' in
      (
        b'',
        s,
        apply_trades-cons b b' (trade_from_order d.Val o t) (fills o ts) e ∙ e',
        l'',
        Moved-trans d hash number short_ratio conversion o.side t.volume (total ts) p q s m m',
      )

  -- Input, trades and end.
  pub live : Book d → OrderInput d.Val → List (Trade d.Val) → Order d.Val → Option (Book d)
  live b input ts o = elim (apply_order_input d hash number short_ratio conversion b input) [
    | none ↦ none
    | some b1 ↦ elim (apply_trades b1 ts) [
      | none ↦ none
      | some b2 ↦ apply_order d hash number short_ratio conversion b2 o
    ]
  ]

  live-eq :
      (b b1 b2 : Book d) (input : OrderInput d.Val) (ts : List (Trade d.Val)) (o : Order d.Val)
      → apply_order_input d hash number short_ratio conversion b input ≡ some b1
      → apply_trades b1 ts ≡ some b2
      → live b input ts o ≡ apply_order d hash number short_ratio conversion b2 o
  unfolding live
  live-eq b b1 b2 input ts o h k = rw (h, k, live) refl

  apply_order_input-eq :
      (b : Book d) (input : OrderInput d.Val) (dir : Direction) (p : Position d)
      → get_direction input.instrument_type input.side input.offset ≡ some dir
      → get_position d hash number dir input.exchange_id input.instrument_id b ≡ some p
      → apply_order_input d hash number short_ratio conversion b input
        ≡ some (input_applied d hash number short_ratio conversion dir b input p)
  unfolding apply_order_input
  apply_order_input-eq b input dir p h k = rw (h, k) refl

  -- What is frozen of yesterday's volume after the life of an order of volume `n`.
  abbrev refrozen : ℕ → Position d → ℕ
  refrozen n p =
      if leb (n + p.frozen_yesterday) p.yesterday_volume
      then p.frozen_yesterday
      else p.yesterday_volume - n

  abbrev pub refrozen_by : Side → ℕ → Position d → ℕ
  refrozen_by sell n p = refrozen n p
  refrozen_by repay_margin n p = refrozen n p
  refrozen_by repay_stock n p = refrozen n p
  refrozen_by _ n p = p.frozen_yesterday

  -- `q` is `p` after an order of volume `n + m` that traded `n` and left `m`.
  abbrev pub Lived : Side → ℕ → ℕ → Position d → Position d → Type 0
  Lived side n m p q =
      (q.volume ≡ traded d hash number short_ratio conversion side n p.volume)
      × (q.frozen_total ≡ p.frozen_total)
      × (q.yesterday_volume ≡ thawed d hash number short_ratio conversion side n p.yesterday_volume)
      × (q.frozen_yesterday ≡ refrozen_by side (n + m) p)

  ended-Lived :
      (side : Side) (n m : ℕ) (p q : Position d)
      → Moved d hash number short_ratio conversion side n
          (input_position d hash number short_ratio conversion side (n + m) p)
          q
      → Lived side n m p (
          update_position d hash number short_ratio conversion
            (order_position d hash number short_ratio conversion side m q))
  unfolding input_position order_position
  ended-Lived buy n m p q h = ground (arith, h.0, h.1, h.2, h.3)
  ended-Lived margin_trade n m p q h = ground (arith, h.0, h.1, h.2, h.3)
  ended-Lived short_sell n m p q h = ground (arith, h.0, h.1, h.2, h.3)
  ended-Lived sell n m p q h = ground (arith, h.0, h.1, h.2, h.3)
  ended-Lived repay_margin n m p q h = ground (arith, h.0, h.1, h.2, h.3)
  ended-Lived repay_stock n m p q h = ground (arith, h.0, h.1, h.2, h.3)
  ended-Lived _ n m p q h = ground (arith, h.0, h.1, h.2, h.3)

  -- An order of a stock account, from its input through any trades to its end: where the side, the
  -- offset and the instrument type have a direction, the position on that side is there or can be made,
  -- the last state is final and the trades and the volume left make up the volume of the input, no step
  -- throws. Of the position, then: the volume has moved by the traded volume, up for an opening and down,
  -- not below 0, for a closing side; yesterday's volume has gone down as much for a closing side; what is
  -- frozen in all is what was frozen before; and of yesterday's volume as much is frozen as before, except
  -- for a closing order of more than was free of it, which leaves frozen what yesterday's volume exceeds
  -- the order's by.
  pub live-Lived :
      (b : Book d) (input : OrderInput d.Val) (blank : Order d.Val) (ts : List (Trade d.Val))
      (status : OrderStatus) (left : ℕ) (dir : Direction) (p : Position d)
      → get_direction input.instrument_type input.side input.offset ≡ some dir
      → get_position d hash number dir input.exchange_id input.instrument_id b ≡ some p
      → is_final_status status ≡ true
      → total ts + left ≡ input.volume
      → (b' : Book d) × (q : Position d) × (live b input
            (fills (order_from_input d.Val input blank) ts)
            (record (order_from_input d.Val input blank) { status = status; volume_left = left })
          ≡ some b')
        × (get_position d hash number dir input.exchange_id input.instrument_id b' ≡ some q)
        × Lived input.side (total ts) left p q
  live-Lived b input blank ts status left dir p h g f v =
      let o : Order d.Val = order_from_input d.Val input blank in
      let o' : Order d.Val = record o { status = status; volume_left = left } in
      let b1 = input_applied d hash number short_ratio conversion dir b input p in
      let (b2, q, e2, l2, m) =
        apply_trades-Holds dir o ts b1
          (input_position d hash number short_ratio conversion input.side input.volume p) h
          (lookup-input_applied d hash number short_ratio conversion dir b input p) in
      let k = know_order d hash number short_ratio conversion o' b2 in
      let l =
        ap (lookup (hash input.exchange_id input.instrument_id))
          (know_order-positions d hash number short_ratio conversion dir o' b2)
        ∙ l2 in
      let at =
        get_position-lookup d hash number short_ratio conversion dir input.exchange_id
          input.instrument_id in
      let ended =
        update_position d hash number short_ratio conversion
          (order_position d hash number short_ratio conversion input.side left q) in
      let b3 = order_finished d hash number short_ratio conversion dir k o' q in
      (
        b3,
        ended,
        live-eq b b1 b2 input (fills o ts) o' (apply_order_input-eq b input dir p h g) e2
            ∙ apply_order-eq d hash number short_ratio conversion b2 o' f
            ∙ finish_order-eq d hash number short_ratio conversion k o' dir q h (at q k l),
        at ended b3 (lookup-order_finished d hash number short_ratio conversion dir k o' q),
        ended-Lived input.side (total ts) left p q (
            subst
              (λ n.
                Moved d hash number short_ratio conversion input.side (total ts)
                  (input_position d hash number short_ratio conversion input.side n p) q)
              (sym v) m),
      )

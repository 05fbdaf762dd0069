-- ===== src/Sim/Trader/Volumes.antt =====
-- What the simulated trader makes of an order: whole volumes, one status, trades that add up.
use Prim.Native.String.{String}
use mathlib.Core.List.{map-append}
use kungfu_cpp.Base.{
  Option, sum_by-append, All-append, subst, ℕ, zero, suc, ◌+◌, ◌-◌, ◌≤◌, ◌<◌, ◌≡◌, refl, sym, ◌∙◌,
  ap, ◌↔◌, inl, inr, List, [], ◌∷◌, ◌++◌, append_assoc, append-nil, map, ltb, min, sum_by, All,
  arith, Bool-cases,
}
use kungfu_cpp.Wingchun.Enums.{InstrumentType, filled}
use kungfu_cpp.Wingchun.Orders.{Order, Trade}
use kungfu_cpp.Sim.Trader.{
  MatchMode, Event, Message, TraderSim, decide, get_min_volume, trade_of, write_trade, write_parts,
  write_trades, is_multiple, trade, reject, pend, cancel, partial_fill_and_cancel, partial_fill,
  fill, multiple,
}

pub get_min_volume-pos : (t : InstrumentType) → 0 < get_min_volume t
unfolding get_min_volume
get_min_volume-pos t = ground arith

-- Every mode trades no more than the order has, and fills it exactly if nothing is left.
pub decide_lem :
    (m : MatchMode) (k n : ℕ)
    → 0 < k
    → k ≤ n
    → ((decide m k n).0 ≤ n) × (((decide m k n).1 ≡ filled) ↔ (n - (decide m k n).0 ≡ 0))
unfolding decide
decide_lem reject k n p h = ground (arith, p, h)
decide_lem pend k n p h = ground (arith, p, h)
decide_lem cancel k n p h = ground (arith, p, h)
decide_lem partial_fill_and_cancel k n p h = ground (arith, p, h)
decide_lem partial_fill k n p h = ground (arith, p, h)
decide_lem fill k n p h = ground (arith, p, h)
decide_lem multiple k n p h = ground (arith, p, h)

module _ (Val : Type 0) (zero_price : Val) (number : String → Option ℕ) (decimal : ℕ → String)
    (uid : ℕ → List (ℕ × Message Val zero_price number decimal) → ℕ) where
  abbrev pub Sim : Type 0
  Sim = TraderSim Val zero_price number decimal

  abbrev pub trades_by : ℕ → List (Trade Val) → List (ℕ × Message Val zero_price number decimal)
  trades_by source ts = map (λ t. (source, trade t)) ts

  abbrev pub with_written : Sim → List (ℕ × Message Val zero_price number decimal) → Sim
  with_written s l = record s { written = l }

  abbrev pub add_trades : ℕ → List (Trade Val) → Sim → Sim
  add_trades source ts s = with_written s (s.written ++ trades_by source ts)

  -- The trades that writing a volume adds.
  pub record Traded (e : Event) (o : Order Val) (n : ℕ) (s s' : Sim) : Type 0 where
    pub trades : List (Trade Val)
    pub same : s' ≡ add_trades e.source trades s
    pub sum : sum_by (λ t. t.volume) trades ≡ n
    pub each : All (λ t. (0 < t.volume) × (t.order_id ≡ o.order_id)) trades

  Traded-none : (e : Event) (o : Order Val) (s : Sim) → Traded e o 0 s s
  Traded-none e o s = record {
    trades = [];
    same = ap (with_written s) (sym (append-nil s.written));
    sum = refl;
    each = tt;
  }

  Traded-one :
      (e : Event) (o : Order Val) (n : ℕ) (s : Sim)
      → 0 < n
      → Traded e o n s (write_trade Val zero_price number decimal uid e o n s)
  Traded-one e o n s p = record {
    trades = trade_of Val zero_price number decimal e o (uid e.source s.written) n ∷ [];
    same = refl;
    sum = omega arith;
    each = ((p, refl), tt);
  }

  Traded-more :
      (e : Event) (o : Order Val) (m n : ℕ) (s s' s'' : Sim)
      → Traded e o m s s'
      → Traded e o n s' s''
      → Traded e o (m + n) s s''
  Traded-more e o m n s s' s'' a b = record {
    trades = a.trades ++ b.trades;
    same =
        b.same
        ∙ ap (add_trades e.source b.trades) a.same
        ∙ ap (with_written s) (
            append_assoc s.written (trades_by e.source a.trades) (trades_by e.source b.trades)
            ∙ ap (λ l. s.written ++ l)
                (sym (map-append (λ t. (e.source, trade t)) a.trades b.trades)));
    sum = sum_by-append (λ t. t.volume) a.trades b.trades ∙ omega (arith, a.sum, b.sum);
    each = All-append _ a.trades b.trades a.each b.each;
  }

  write_parts_lem :
      (fuel : ℕ) (e : Event) (o : Order Val) (k n : ℕ) (s : Sim)
      → 0 < k
      → n ≤ fuel
      → Traded e o n s (write_parts Val zero_price number decimal uid fuel e o k n s)
  unfolding write_parts
  write_parts_lem zero e o k n s p h =
      subst (λ i. Traded e o i s s) (omega (arith, h)) (Traded-none e o s)
  write_parts_lem (suc fuel) e o k n s p h = elim (Bool-cases (ltb 0 n)) [
    | inl t ↦
        let v = min k n in
        let s' = write_trade Val zero_price number decimal uid e o v s in
        let pos : 0 < v = ground (arith, p, t) in
        let rest = write_parts_lem fuel e o k (n - v) s' p (omega (arith, h, pos)) in
        let z : v + (n - v) ≡ n = omega arith in
        let s'' = write_parts Val zero_price number decimal uid fuel e o k (n - v) s' in
        rw t (
          subst (λ i. Traded e o i s s'') z
            (Traded-more e o v (n - v) s s' s'' (Traded-one e o v s pos) rest))
    | inr f ↦ rw f (subst (λ i. Traded e o i s s) (ground (arith, f)) (Traded-none e o s))
  ]

  pub write_trades_lem :
      (e : Event) (o : Order Val) (k n : ℕ) (s : Sim)
      → 0 < k
      → Traded e o n s (write_trades Val zero_price number decimal uid e o k n s)
  unfolding write_trades
  write_trades_lem e o k n s p = elim (Bool-cases (ltb 0 n)) [
    | inl t ↦ elim (Bool-cases (is_multiple s.match_mode)) [
      | inl m ↦ rw (t, m) (write_parts_lem n e o k n s p (omega arith))
      | inr m ↦ rw (t, m) (Traded-one e o n s (ground (arith, t)))
    ]
    | inr f ↦ rw f (subst (λ i. Traded e o i s s) (ground (arith, f)) (Traded-none e o s))
  ]

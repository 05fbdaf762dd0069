-- ===== src/Service/Bars/Updates.antt =====
-- What a quote does to the bar of its instrument, and to the bars of the generator.
use native.Mathlib.Nat.{add-mod_right}
use Prim.Native.String.{String}
use kungfu_cpp.Base.{
  ℕ, ◌%◌, ◌<◌, ◌≤◌, ◌≡◌, refl, ◌∙◌, ap, inl, inr, true, false, Option, none, some, leb, List, arith,
  Bool-cases, Option-cases,
}
use kungfu_cpp.Base.Dict.{lookup, assign, Values, Values-lookup, Values-erase}
use kungfu_cpp.Base.Double.{Double}
use kungfu_cpp.Wingchun.Quotes.{Quote, Bar}
use kungfu_cpp.Service.Bars.{advance, next_bar, ticked, roll, update_bar, bar_of, on_quote}
use kungfu_cpp.Service.Bars.Rolling.{advance-Landed}
use kungfu_cpp.Service.Bars.Ranges.{
  IsBar, ticked-IsBar, ticked-times, next_bar-IsBar, new_bar-IsBar,
}

module _ (d : Double) (interval : ℕ) where
  abbrev pub Written : Option (Bar d.Val) → Type 0
  Written none = Unit {0}
  Written (some b) = IsBar d interval b

  -- What a quote makes of the bar `b`: `w` is written, if anything, and `c` is the bar from then on.
  pub record Updated (q : Quote d.Val) (b : Bar d.Val) (w : Option (Bar d.Val)) (c : Bar d.Val)
      : Type 0 where
    pub written : Written w
    pub valid : IsBar d interval c
    pub follows : b.start_time ≤ c.start_time
    pub covering :
        b.start_time ≤ q.data_time → (c.start_time ≤ q.data_time) × (q.data_time ≤ c.end_time)

  roll-stay :
      (fuel : ℕ) (q : Quote d.Val) (b : Bar d.Val)
      → leb b.end_time q.data_time ≡ false
      → roll d fuel interval q b ≡ some (none, b)
  unfolding roll
  roll-stay fuel q b f = rw (f, roll) refl

  roll-next :
      (fuel : ℕ) (q : Quote d.Val) (b : Bar d.Val) (s : ℕ)
      → leb b.end_time q.data_time ≡ true
      → advance fuel interval q.data_time b.end_time ≡ some s
      → roll d fuel interval q b ≡ some (some b, next_bar d interval q b s)
  unfolding roll
  roll-next fuel q b s t e = rw (t, e, roll) refl

  abbrev Rolled : Quote d.Val → Bar d.Val → Option (Option (Bar d.Val) × Bar d.Val) → Type 0
  Rolled q b r = (w : Option (Bar d.Val)) × (c : Bar d.Val) × (r ≡ some (w, c)) × Updated q b w c

  roll-Rolled :
      (fuel : ℕ) (q : Quote d.Val) (b : Bar d.Val)
      → 0 < interval
      → q.data_time < fuel
      → IsBar d interval b
      → Rolled q b (roll d fuel interval q b)
  roll-Rolled fuel q b p l h = elim (Bool-cases (leb b.end_time q.data_time)) [
    | inr f ↦ (
      none,
      b,
      roll-stay fuel q b f,
      record {
        written = tt;
        valid = h;
        follows = omega arith;
        covering = λ s. (s, ground (arith, f));
      },
    )
    | inl t ↦
        let ended : b.end_time ≤ q.data_time = ground (arith, t) in
        let (s, e, m) = advance-Landed interval q.data_time fuel b.end_time p (omega (arith, l)) in
        let before : s ≤ q.data_time = elim m.needed [
          | inl k ↦ omega (arith, k, ended)
          | inr k ↦ omega (arith, k)
        ] in
        let grid =
          m.aligned
          ∙ ap (λ x. x % interval) h.ends
          ∙ add-mod_right b.start_time interval
          ∙ h.aligned in
        let (v, vs, ve) = next_bar-IsBar d interval q b s before grid in
        (
          some b,
          next_bar d interval q b s,
          roll-next fuel q b s t e,
          record {
            written = h;
            valid = v;
            follows = omega (arith, vs, m.later, h.ends);
            covering = λ k. (omega (arith, vs, before), omega (arith, ve, m.reaches));
          },
        )
  ]

  update_bar-Rolled :
      (fuel : ℕ) (q : Quote d.Val) (b : Bar d.Val)
      → 0 < interval
      → q.data_time < fuel
      → IsBar d interval b
      → Rolled q b (update_bar d fuel interval q b)
  unfolding update_bar
  update_bar-Rolled fuel q b p l h =
      let (s, e) = ticked-times d interval q b in
      let (w, c, r, u) = roll-Rolled fuel q (ticked d q b) p l (ticked-IsBar d interval q b h) in
      (
        w,
        c,
        r,
        record {
          written = u.written;
          valid = u.valid;
          follows = omega (arith, s, u.follows);
          covering = λ k. u.covering (omega (arith, s, k));
        },
      )

  module _ (hash : String → String → ℕ) where
    bar_of-IsBar :
        (gen_time : ℕ) (q : Quote d.Val) (bars : List (ℕ × Bar d.Val))
        → Values (IsBar d interval) bars
        → IsBar d interval (bar_of d hash interval gen_time q bars)
    bar_of-IsBar gen_time q bars h =
        elim (Option-cases (lookup (hash q.exchange_id q.instrument_id) bars)) [
          | inl n ↦ rw (n, bar_of) (new_bar-IsBar d interval gen_time q)
          | inr (b, n) ↦
              rw (n, bar_of)
                (Values-lookup (IsBar d interval) (hash q.exchange_id q.instrument_id) bars b h n)
        ]

    on_quote-eq :
        (fuel gen_time : ℕ) (q : Quote d.Val) (bars : List (ℕ × Bar d.Val)) (w : Option (Bar d.Val))
        (c : Bar d.Val)
        → update_bar d fuel interval q (bar_of d hash interval gen_time q bars) ≡ some (w, c)
        → on_quote d hash fuel interval gen_time q bars
          ≡ some (w, assign (hash q.exchange_id q.instrument_id) c bars)
    unfolding on_quote
    on_quote-eq fuel gen_time q bars w c e = rw (e, on_quote) refl

    -- With an interval of 1 or more and more fuel than the time of the quote, a quote never leaves the
    -- generator in its loop: from bars whose end is an interval after a start on the grid, and whose
    -- prices, after a first tick, lie between the lowest and the highest, it goes to such bars again,
    -- and what it writes is such a bar. A quote that is not older than the bar of its instrument lies
    -- within that bar afterwards, and no bar goes back in time.
    pub on_quote-Updated :
        (fuel gen_time : ℕ) (q : Quote d.Val) (bars : List (ℕ × Bar d.Val))
        → 0 < interval
        → q.data_time < fuel
        → Values (IsBar d interval) bars
        → (w : Option (Bar d.Val)) × (c : Bar d.Val) × (on_quote d hash fuel interval gen_time q
              bars
            ≡ some (w, assign (hash q.exchange_id q.instrument_id) c bars))
          × Updated q (bar_of d hash interval gen_time q bars) w c
          × Values (IsBar d interval) (assign (hash q.exchange_id q.instrument_id) c bars)
    on_quote-Updated fuel gen_time q bars p l h =
        let (w, c, e, u) =
          update_bar-Rolled fuel q (bar_of d hash interval gen_time q bars) p l
            (bar_of-IsBar gen_time q bars h) in
        (
          w,
          c,
          on_quote-eq fuel gen_time q bars w c e,
          u,
          (u.valid, Values-erase (IsBar d interval) (hash q.exchange_id q.instrument_id) bars h),
        )

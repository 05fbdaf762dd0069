-- ===== src/Service/Bars/Ranges.antt =====
-- What holds of every bar of the generator, and of those that it writes.
use native.Mathlib.Nat.{mod-add-div, mul-mod_right}
use kungfu_cpp.Base.{
  ℕ, ◌+◌, ◌-◌, ◌*◌, ◌/◌, ◌%◌, ◌<◌, ◌≤◌, ◌≡◌, refl, ◌∙◌, ap, sym, inl, inr, true, leb, ◌==◌, arith,
  Bool-cases,
}
use kungfu_cpp.Base.Double.{Double}
use kungfu_cpp.Base.Extremes.{AtMost, AtMost-refl, max-right, min-right, max_mono, min_mono}
use kungfu_cpp.Wingchun.Quotes.{Quote, Bar}
use kungfu_cpp.Service.Bars.{new_bar, at_price, first_tick, tick, covers, next_bar, ticked}

module _ (d : Double) (interval : ℕ) where
  -- The opening and the closing price lie between the lowest and the highest.
  abbrev pub Ranged : Bar d.Val → Type 0
  Ranged b =
      AtMost d b.low b.«open»
      × AtMost d b.«open» b.high
      × AtMost d b.low b.close
      × AtMost d b.close b.high

  pub record IsBar (b : Bar d.Val) : Type 0 where
    pub ends : b.end_time ≡ b.start_time + interval
    pub aligned : b.start_time % interval ≡ 0
    pub ranged : 0 < b.tick_count → Ranged b

  at_price-Ranged : (q : Quote d.Val) (b : Bar d.Val) → Ranged (at_price d q b)
  at_price-Ranged q b = let r = AtMost-refl d q.last_price in (r, r, r, r)

  first_tick-Ranged :
      (q : Quote d.Val) (b : Bar d.Val) → (0 < b.tick_count → Ranged b) → Ranged (first_tick d q b)
  first_tick-Ranged q b h = elim (Bool-cases (b.tick_count == 0)) [
    | inl t ↦ rw t (at_price-Ranged q b)
    | inr f ↦ rw f (h (ground (arith, f)))
  ]

  tick-Ranged :
      (q : Quote d.Val) (b : Bar d.Val) → (0 < b.tick_count → Ranged b) → Ranged (tick d q b)
  unfolding tick
  tick-Ranged q b h =
      let f = first_tick d q b in
      let r = first_tick-Ranged q b h in
      (
        min_mono d f.«open» f.low q.last_price r.0,
        max_mono d f.«open» f.high q.last_price r.1,
        min-right d f.low q.last_price,
        max-right d f.high q.last_price,
      )

  -- A tick leaves the times alone.
  tick-times :
      (q : Quote d.Val) (b : Bar d.Val)
      → ((tick d q b).start_time ≡ b.start_time) × ((tick d q b).end_time ≡ b.end_time)
  unfolding tick
  tick-times q b = ground arith

  pub ticked-IsBar : (q : Quote d.Val) (b : Bar d.Val) → IsBar b → IsBar (ticked d q b)
  ticked-IsBar q b h = elim (Bool-cases (covers d b q.data_time)) [
    | inr f ↦ rw f h
    | inl t ↦
        let (s, e) = tick-times q b in
        rw t (record {
          ends = e ∙ h.ends ∙ ap (λ x. x + interval) (sym s);
          aligned = ap (λ x. x % interval) s ∙ h.aligned;
          ranged = λ p. tick-Ranged q b h.ranged;
        })
  ]

  pub ticked-times :
      (q : Quote d.Val) (b : Bar d.Val)
      → ((ticked d q b).start_time ≡ b.start_time) × ((ticked d q b).end_time ≡ b.end_time)
  ticked-times q b = elim (Bool-cases (covers d b q.data_time)) [
    | inr f ↦ rw f (refl, refl)
    | inl t ↦ rw t (tick-times q b)
  ]

  pub next_bar-IsBar :
      (q : Quote d.Val) (b : Bar d.Val) (start : ℕ)
      → start ≤ q.data_time
      → start % interval ≡ 0
      → IsBar (next_bar d interval q b start)
        × ((next_bar d interval q b start).start_time ≡ start)
        × ((next_bar d interval q b start).end_time ≡ start + interval)
  unfolding next_bar
  next_bar-IsBar q b start h a =
      let t : leb start q.data_time ≡ true = ground (arith, h) in
      rw t (record { ends = refl; aligned = a; ranged = λ p. at_price-Ranged q b }, refl, refl)

  pub new_bar-IsBar : (gen_time : ℕ) (q : Quote d.Val) → IsBar (new_bar d interval gen_time q)
  new_bar-IsBar gen_time q = record {
    ends = refl;
    aligned = ap (λ x. x % interval) rounded ∙ mul-mod_right interval (gen_time / interval);
    ranged = λ p. absurd (omega arith);
  }
    where
      rounded : gen_time - gen_time % interval ≡ interval * (gen_time / interval)
      rounded = omega (arith, mod-add-div gen_time interval)

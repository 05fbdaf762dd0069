-- ===== src/Service/Bars/Tests.antt =====
-- Runs of the generator of bars, in cents, and its theorems at concrete quotes.
use Prim.Native.String.{String}
use kungfu_cpp.Base.{List, ℕ, ◌+◌, ◌≡◌, refl, Option, none, some, [], ◌∷◌, arith}
use kungfu_cpp.Base.Dict.{Values, lookup, assign, erase}
use kungfu_cpp.Base.Int.{ℤ, pos}
use kungfu_cpp.Base.Cents.{cents}
use kungfu_cpp.Wingchun.Enums.{stock}
use kungfu_cpp.Wingchun.Products.{codes}
use kungfu_cpp.Wingchun.Quotes.{Quote, Bar}
use kungfu_cpp.Service.Bars.{
  advance, parse_time_interval, first_digits, leading_digits, on_quote, update_bar, roll, tick,
  next_bar, bar_of,
}
use kungfu_cpp.Service.Bars.Rolling.{Landed, advance-Landed}
use kungfu_cpp.Service.Bars.Ranges.{IsBar}
use kungfu_cpp.Service.Bars.Updates.{Updated, on_quote-Updated}

ten_minutes : parse_time_interval (codes "10m") ≡ some 600_000_000_000
unfolding parse_time_interval first_digits leading_digits
ten_minutes = refl

-- The interval of no time is let through.
no_time : parse_time_interval (codes "0s") ≡ some 0
unfolding parse_time_interval first_digits leading_digits
no_time = refl

no_number : parse_time_interval (codes "min") ≡ none
unfolding parse_time_interval first_digits leading_digits
no_number = refl

no_unit : parse_time_interval (codes "7") ≡ none
unfolding parse_time_interval first_digits leading_digits
no_unit = refl

advance-Landed_example : (s : ℕ) × (advance 1000 60 257 120 ≡ some s) × Landed 60 257 120 s
advance-Landed_example = advance-Landed 60 257 1000 120 (omega arith) (omega arith)

abbrev quote_at : ℕ → ℤ → ℤ → Quote ℤ
quote_at time price volume = record {
  trading_day = "20240102";
  data_time = time;
  instrument_id = "600000";
  exchange_id = "SSE";
  instrument_type = stock;
  pre_close_price = pos 900;
  pre_settlement_price = pos 0;
  last_price = price;
  volume = volume;
  close_price = pos 0;
  settlement_price = pos 0;
}

abbrev bar : ℕ → ℕ → Bar ℤ
bar start ticks = record {
  instrument_id = "600000";
  exchange_id = "SSE";
  start_time = start;
  end_time = start + 60;
  «open» = pos 1000;
  close = pos 1010;
  low = pos 990;
  high = pos 1020;
  volume = pos 300;
  start_volume = pos 100;
  tick_count = ticks;
}

abbrev one_hash : String → String → ℕ
one_hash e i = 1

-- A quote at 257 closes the bar of 120 to 180 unchanged and opens that of 240.
rolled :
    on_quote cents one_hash 1000 60 250 (quote_at 257 (pos 1005) (pos 700)) ((1, bar 120 3) ∷ [])
    ≡ some (
      some (bar 120 3),
      (
        1,
        record (bar 240 1) {
          «open» = pos 1005;
          close = pos 1005;
          low = pos 1005;
          high = pos 1005;
          volume = pos 0;
          start_volume = pos 700;
        },
      )
          ∷ [],
    )
unfolding on_quote update_bar roll tick next_bar advance lookup erase
rolled = refl

bar-IsBar : IsBar cents 60 (bar 120 3)
bar-IsBar = record { ends = refl; aligned = refl; ranged = λ p. (refl, refl, refl, refl) }

on_quote-Updated_example :
    let bars : List (ℕ × Bar ℤ) = (1, bar 120 3) ∷ [] in
    let q = quote_at 257 (pos 1005) (pos 700) in
    (w : Option (Bar ℤ)) × (c : Bar ℤ) × (on_quote cents one_hash 1000 60 250 q bars
      ≡ some (w, assign 1 c bars))
    × Updated cents 60 q (bar_of cents one_hash 60 250 q bars) w c
    × Values (IsBar cents 60) (assign 1 c bars)
on_quote-Updated_example =
    on_quote-Updated cents 60 one_hash 1000 250 (quote_at 257 (pos 1005) (pos 700))
      ((1, bar 120 3) ∷ []) (omega arith) (omega arith) (bar-IsBar, tt)

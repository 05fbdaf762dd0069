-- ===== src/Service/Bars.antt =====
-- The generator of bars, include/kungfu/wingchun/service/bar.h and src/wingchun/service/bar.cpp: the parsing
-- of its interval and what it does at a quote. `hash` is hash_instrument. Times are natural numbers, in
-- nanoseconds.
mod Rolling
mod Ranges
mod Updates
mod Tests
use Prim.Native.String.{String}
use kungfu_cpp.Base.{
  ℕ, zero, suc, ◌+◌, ◌-◌, ◌*◌, ◌%◌, Bool, ◌&&◌, Option, none, some, List, [], ◌∷◌, length,
  if◌then◌else◌, ltb, leb, ◌==◌,
}
use kungfu_cpp.Base.Dict.{lookup, assign}
use kungfu_cpp.Base.Double.{Double, max, min}
use kungfu_cpp.Base.Int.{ℤ, pos, ◌-ℤ◌}
use kungfu_cpp.Wingchun.Prices.{zero_value}
use kungfu_cpp.Wingchun.Products.{codes, is_digit, same}
use kungfu_cpp.Wingchun.Quotes.{Quote, Bar}

abbrev pub nanoseconds_per_second : ℕ
nanoseconds_per_second = 1_000_000_000

abbrev pub nanoseconds_per_minute : ℕ
nanoseconds_per_minute = nanoseconds_per_second * 60

abbrev pub nanoseconds_per_hour : ℕ
nanoseconds_per_hour = nanoseconds_per_minute * 60

abbrev pub nanoseconds_per_day : ℕ
nanoseconds_per_day = nanoseconds_per_hour * 24

-- What is left from position `n` on.
abbrev pub drop : ℕ → List ℕ → List ℕ
drop zero s = s
drop (suc n) [] = []
drop (suc n) (c ∷ s) = drop n s

abbrev pub endswith : List ℕ → List ℕ → Bool
endswith str suffix =
    leb (length suffix) (length str) && same (drop (length str - length suffix) str) suffix

-- The first digits of a text, `[0-9]+`, as the regular expression finds them.
unfoldable pub leading_digits : List ℕ → List ℕ
leading_digits [] = []
leading_digits (c ∷ s) = let rest = leading_digits s in if is_digit c then c ∷ rest else []

unfoldable pub first_digits : List ℕ → List ℕ
unfolding leading_digits
first_digits [] = []
first_digits (c ∷ s) =
    let rest = first_digits s in if is_digit c then leading_digits (c ∷ s) else rest

-- std::stoi of digits, without its bound
abbrev pub decimal : ℕ → List ℕ → ℕ
decimal n [] = n
decimal n (c ∷ s) = decimal (n * 10 + (c - b'0')) s

abbrev pub max_int : ℕ
max_int = 2_147_483_647

abbrev stoi : List ℕ → Option ℕ
stoi s = if leb (decimal 0 s) max_int then some (decimal 0 s) else none

abbrev unit_of : List ℕ → Option ℕ
unit_of s =
    if endswith s (codes "s")
    then some nanoseconds_per_second
    else if endswith s (codes "m")
    then some nanoseconds_per_minute
    else if endswith s (codes "h")
    then some nanoseconds_per_hour
    else if endswith s (codes "d")
    then some nanoseconds_per_day
    else none

-- `none` is an exception: no digits, a number too large for an int, or another unit. The product of
-- number and unit is not cut to the 64 bits that the program has for it.
unfoldable pub parse_time_interval : List ℕ → Option ℕ
unfolding first_digits
parse_time_interval s = elim (first_digits s) [
  | [] ↦ none
  | c ∷ m ↦ elim (stoi (c ∷ m)) [
    | none ↦ none
    | some n ↦ elim (unit_of s) [ none ↦ none | some unit ↦ some (n * unit) ]
  ]
]

-- `while (bar.start_time + time_interval_ < quote.data_time)`; `none` means that the fuel ran out.
unfoldable pub advance : ℕ → ℕ → ℕ → ℕ → Option ℕ
advance zero interval time start = none
advance (suc fuel) interval time start =
    let rest = advance fuel interval time (start + interval) in
    if ltb (start + interval) time then rest else some start

module _ (d : Double) where
  open d use {Val}

  -- A bar that `try_emplace` makes, for an event at `gen_time`.
  abbrev pub new_bar : ℕ → ℕ → Quote Val → Bar Val
  new_bar interval gen_time q = record {
    instrument_id = q.instrument_id;
    exchange_id = q.exchange_id;
    start_time = gen_time - gen_time % interval;
    end_time = gen_time - gen_time % interval + interval;
    «open» = zero_value d;
    close = zero_value d;
    low = zero_value d;
    high = zero_value d;
    volume = pos 0;
    start_volume = pos 0;
    tick_count = 0;
  }

  -- The prices of a quote as those of a bar.
  abbrev pub at_price : Quote Val → Bar Val → Bar Val
  at_price q b = record b {
    high = q.last_price;
    low = q.last_price;
    «open» = q.last_price;
    close = q.last_price;
  }

  abbrev pub first_tick : Quote Val → Bar Val → Bar Val
  first_tick q b =
      if b.tick_count == 0 then record (at_price q b) { start_volume = q.volume } else b

  unfoldable pub tick : Quote Val → Bar Val → Bar Val
  tick q b0 =
      let b = first_tick q b0 in
      record b {
        tick_count = b.tick_count + 1;
        volume = q.volume -ℤ b.start_volume;
        high = max d b.high q.last_price;
        low = min d b.low q.last_price;
        close = q.last_price;
      }

  -- `quote.data_time >= bar.start_time && quote.data_time <= bar.end_time`
  abbrev pub covers : Bar Val → ℕ → Bool
  covers b time = leb b.start_time time && leb time b.end_time

  -- The bar that follows one that is written, from its start time.
  unfoldable pub next_bar : ℕ → Quote Val → Bar Val → ℕ → Bar Val
  next_bar interval q b start =
      let timed = record b { start_time = start; end_time = start + interval } in
      if leb start q.data_time
      then record (at_price q timed) { tick_count = 1; start_volume = q.volume; volume = pos 0 }
      else record timed {
        tick_count = 0;
        start_volume = pos 0;
        volume = pos 0;
        high = zero_value d;
        low = zero_value d;
        «open» = zero_value d;
        close = zero_value d;
      }

  abbrev pub ticked : Quote Val → Bar Val → Bar Val
  ticked q b = if covers b q.data_time then tick q b else b

  -- A bar that has come to its end is written, and followed by another.
  unfoldable pub roll : ℕ → ℕ → Quote Val → Bar Val → Option (Option (Bar Val) × Bar Val)
  unfolding advance next_bar
  roll fuel interval q b =
      if leb b.end_time q.data_time
      then (elim (advance fuel interval q.data_time b.end_time) [
        | none ↦ none
        | some start ↦ some (some b, next_bar interval q b start)
      ])
      else some (none, b)

  unfoldable pub update_bar : ℕ → ℕ → Quote Val → Bar Val → Option (Option (Bar Val) × Bar Val)
  unfolding tick roll
  update_bar fuel interval q b = roll fuel interval q (ticked q b)

  module _ (hash : String → String → ℕ) where
    abbrev pub bar_of : ℕ → ℕ → Quote Val → List (ℕ × Bar Val) → Bar Val
    bar_of interval gen_time q bars = elim (lookup (hash q.exchange_id q.instrument_id) bars) [
      | none ↦ new_bar interval gen_time q
      | some b ↦ b
    ]

    -- What the generator does at a quote: the bar that it writes, if any, and its bars.
    unfoldable pub on_quote :
        ℕ → ℕ → ℕ → Quote Val → List (ℕ × Bar Val) → Option (Option (Bar Val) × List (ℕ × Bar Val))
    unfolding update_bar lookup
    on_quote fuel interval gen_time q bars =
        elim (update_bar fuel interval q (bar_of interval gen_time q bars)) [
          | none ↦ none
          | some (written, b) ↦ some (written, assign (hash q.exchange_id q.instrument_id) b bars)
        ]

-- ===== src/Sim/Trader/Cancelling.antt =====
-- Cancelling in the simulated trader, and the names of its modes.
use Prim.Native.String.{String}
use kungfu_cpp.Base.{Option, ℕ, ◌≡◌, refl, Bool, true, none, List, ◌==◌, if◌then◌else◌}
use kungfu_cpp.Base.Dict.{lookup}
use kungfu_cpp.Sim.Trader.{
  MatchMode, match_mode_from_string, match_mode_to_string, Event, Message, TraderSim, cancel_order,
  reject, pend, cancel, partial_fill_and_cancel, partial_fill, fill, multiple,
}

-- The name of a mode reads back as the mode.
pub match_mode_from_string-match_mode_to_string :
    (m : MatchMode) → match_mode_from_string (match_mode_to_string m) ≡ m
unfolding match_mode_from_string match_mode_to_string
match_mode_from_string-match_mode_to_string reject = refl
match_mode_from_string-match_mode_to_string pend = refl
match_mode_from_string-match_mode_to_string cancel = refl
match_mode_from_string-match_mode_to_string partial_fill_and_cancel = refl
match_mode_from_string-match_mode_to_string partial_fill = refl
match_mode_from_string-match_mode_to_string fill = refl
match_mode_from_string-match_mode_to_string multiple = refl

module _ (Val : Type 0) (zero_price : Val) (number : String → Option ℕ) (decimal : ℕ → String)
    (uid : ℕ → List (ℕ × Message Val zero_price number decimal) → ℕ) where
  abbrev Sim : Type 0
  Sim = TraderSim Val zero_price number decimal

  abbrev cancel_it : Event → ℕ → Sim → Bool × Sim
  cancel_it e id s = cancel_order Val zero_price number decimal uid e id s

  abbrev Forgotten : Event → ℕ → Sim → Bool × Sim → Type 0
  Forgotten e' id s (r, s') =
      (r ≡ true)
      × ((j : ℕ) → lookup j s'.orders ≡ (if id == j then none else lookup j s.orders))
      × (cancel_order Val zero_price number decimal uid e' id s' ≡ (true, s'))

-- ===== src/Sim/Trader/Inserting.antt =====
-- An order that the simulated trader is given is refused or accepted, and its volume is accounted for.
use Prim.Native.String.{String}
use text.Mathlib.Text.{◌==◌ as str_eq}
use kungfu_cpp.Base.{
  Option, ℕ, ◌+◌, ◌<◌, ◌≡◌, ◌↔◌, ◌⊎◌, Bool, true, false, some, List, [], ◌∷◌, ◌++◌, ◌==◌, sum_by,
  All,
}
use kungfu_cpp.Base.Dict.{lookup}
use kungfu_cpp.Wingchun.Enums.{error, filled}
use kungfu_cpp.Wingchun.Orders.{OrderInput, Order, Trade}
use kungfu_cpp.Sim.Trader.{Event, Message, TraderSim, order}
use kungfu_cpp.Sim.Trader.Volumes.{trades_by}

module _ (Val : Type 0) (zero_price : Val) (number : String → Option ℕ) (decimal : ℕ → String)
    (uid : ℕ → List (ℕ × Message Val zero_price number decimal) → ℕ) where
  abbrev Sim : Type 0
  Sim = TraderSim Val zero_price number decimal

  -- One order is written, and it is in error; nothing is traded or kept.
  pub record Refused (e : Event) (input : OrderInput Val) (s s' : Sim) : Type 0 where
    pub placed : Order Val
    pub written : s'.written ≡ s.written ++ (e.source, order placed) ∷ []
    pub id : placed.order_id ≡ input.order_id
    pub failed : placed.status ≡ error
    pub kept : s'.orders ≡ s.orders

  -- One order is written and kept, and then its trades: what they trade and what is left of the order
  -- make its volume, and the order is filled exactly if nothing is left.
  pub record Accepted (e : Event) (input : OrderInput Val) (s s' : Sim) : Type 0 where
    pub placed : Order Val
    pub trades : List (Trade Val)
    pub written :
        s'.written
        ≡ s.written
          ++ (e.source, order placed) ∷ trades_by Val zero_price number decimal uid e.source trades
    pub kept : lookup input.order_id s'.orders ≡ some placed
    pub others : (k : ℕ) → (input.order_id == k) ≡ false → lookup k s'.orders ≡ lookup k s.orders
    pub whole : placed.volume ≡ input.volume
    pub sum : sum_by (λ t. t.volume) trades + placed.volume_left ≡ placed.volume
    pub done : (placed.status ≡ filled) ↔ (placed.volume_left ≡ 0)
    pub each : All (λ t. (0 < t.volume) × (t.order_id ≡ input.order_id)) trades

  -- What has become of an input whose instrument has a type.
  abbrev pub Outcome : Event → OrderInput Val → Sim → Bool × Sim → Type 0
  Outcome e input s (r, s') =
      ((r ≡ true) × Accepted e input s s') ⊎ ((r ≡ false) × Refused e input s s')

-- ===== src/Basket/Engine.antt =====
-- The class BasketOrderEngine, include/kungfu/wingchun/basketorder/basketorderengine.h and
-- src/wingchun/basketorder/basketorderengine.cpp: basket orders by their ids, and what is written of them.
-- none is an exception. `Home` is what the engine asks of its apprentice.
use Prim.Native.Nat.{bit_xor}
use Prim.Native.String.{String}
use kungfu_cpp.Base.{
  ℕ, Bool, true, false, not, Option, none, some, List, [], ◌∷◌, ◌++◌, if◌then◌else◌, ◌==◌,
}
use kungfu_cpp.Base.Chains.{◌>>=◌}
use kungfu_cpp.Base.Dict.{lookup, assign}
use kungfu_cpp.Base.Int.{ℤ}
use kungfu_cpp.Wingchun.Enums.{InstrumentType, Direction, BasketType, BasketVolumeType}
use kungfu_cpp.Wingchun.Orders.{Order}
use kungfu_cpp.Basket.{BasketOrder, BasketOrderState, update}

pub record Home : Type 0 where
  pub home_uid : ℕ
  pub now : ℕ
  pub has_writer : ℕ → Bool

pub record Basket : Type 0 where
  pub id : ℕ
  pub name : String
  pub volume_type : BasketVolumeType
  pub total_amount : ℤ
  pub type : BasketType

module _ (Val : Type 0) where
  pub record BasketInstrument : Type 0 where
    pub basket_uid : ℕ
    pub instrument_id : String
    pub exchange_id : String
    pub instrument_type : InstrumentType
    pub direction : Direction
    pub volume : ℤ
    pub rate : Val

  pub record BasketOrderEngine : Type 0 where
    pub baskets : List (ℕ × Basket)
    pub basket_instruments : List (ℕ × BasketInstrument)
    pub basket_order_states : List (ℕ × BasketOrderState Val)

  -- A basket order that is written to a location.
  pub record Report : Type 0 where
    pub dest : ℕ
    pub time : ℕ
    pub basket_order : BasketOrder Val

  abbrev pub new_state : ℕ → BasketOrder Val → BasketOrderState Val
  new_state trigger_time b = record {
    source = b.source_id;
    dest = b.dest_id;
    update_time = trigger_time;
    basket_order = b;
    orders = [];
    last_orders = [];
  }

  -- The state that is known, or else a new one.
  abbrev pub started : ℕ → BasketOrder Val → Option (BasketOrderState Val) → BasketOrderState Val
  started trigger_time b none = new_state trigger_time b
  started trigger_time b (some s) = s

  -- `make_basket_order_state`; a known state is stored again, which changes nothing.
  unfoldable pub make_basket_order_state :
      ℕ → BasketOrder Val → BasketOrderEngine → BasketOrderEngine
  make_basket_order_state trigger_time b e = record e {
    basket_order_states =
        assign b.order_id (started trigger_time b (lookup b.order_id e.basket_order_states))
          e.basket_order_states;
  }

  abbrev pub report : Home → ℕ → BasketOrderState Val → Report
  report home dest s = record { dest = dest; time = home.now; basket_order = s.basket_order }

  -- The report of a basket order that is inserted here; without a writer, an exception.
  abbrev pub first_report : Home → BasketOrder Val → BasketOrderState Val → Option (List Report)
  first_report home b s =
      if home.home_uid == b.source_id
      then (if home.has_writer b.dest_id then some (report home b.dest_id s ∷ []) else none)
      else some []

  abbrev pub Result : Type 0
  Result = Option (List Report × BasketOrderEngine)

  unfoldable pub insert_basket_order : Home → ℕ → BasketOrder Val → BasketOrderEngine → Result
  unfolding make_basket_order_state
  insert_basket_order home trigger_time b e = do
    rs ← first_report home b (started trigger_time b (lookup b.order_id e.basket_order_states))
    some (rs, make_basket_order_state trigger_time b e)

  -- The report after an update, if the basket order is this process's own.
  abbrev pub next_report : Home → BasketOrderState Val → List Report
  next_report home s =
      if not (home.has_writer s.basket_order.dest_id)
      then []
      else if home.home_uid == s.basket_order.source_id
      then report home s.basket_order.dest_id s ∷ []
      else []

  abbrev pub reports_of : Home → Option (BasketOrderState Val) → List Report
  reports_of home none = []
  reports_of home (some s) = next_report home s

  abbrev pub update_basket : Basket → BasketOrderEngine → BasketOrderEngine
  update_basket b e = record e { baskets = assign b.id b e.baskets }

  -- The events of `on_start`, and `inserts`, a call of the strategy's side.
  pub data Event : Type 0 where
    arrives inserts : ℕ → BasketOrder Val → Event
    order : Order Val → Event
    basket : Basket → Event
    basket_instrument : BasketInstrument → Event

  module _ (hash : String → String → ℕ) where
    abbrev pub update_basket_instrument : BasketInstrument → BasketOrderEngine → BasketOrderEngine
    update_basket_instrument i e = record e {
      basket_instruments =
          assign (bit_xor i.basket_uid (hash i.exchange_id i.instrument_id)) i e.basket_instruments;
    }

    abbrev pub update_known :
        Order Val
        → Option (BasketOrderState Val)
        → BasketOrderEngine
        → Option (Bool × BasketOrderEngine)
    update_known o none e = some (false, e)
    update_known o (some s) e = do
      s' ← update Val hash o s
      some (true, record e { basket_order_states = assign o.parent_id s' e.basket_order_states })

    unfoldable pub try_update_basket_order :
        Order Val → BasketOrderEngine → Option (Bool × BasketOrderEngine)
    unfolding update
    try_update_basket_order o e =
        if o.parent_id == 0
        then some (false, e)
        else update_known o (lookup o.parent_id e.basket_order_states) e

    unfoldable pub update_basket_order : Home → Order Val → BasketOrderEngine → Result
    unfolding try_update_basket_order
    update_basket_order home o e = do
      r ← try_update_basket_order o e
      some (if r.0 then reports_of home (lookup o.parent_id r.1.basket_order_states) else [], r.1)

    unfoldable pub step : Home → Event → BasketOrderEngine → Result
    unfolding make_basket_order_state insert_basket_order update_basket_order
    step home (arrives trigger_time b) e = some ([], make_basket_order_state trigger_time b e)
    step home (inserts trigger_time b) e = insert_basket_order home trigger_time b e
    step home (order o) e = update_basket_order home o e
    step home (basket b) e = some ([], update_basket b e)
    step home (basket_instrument i) e = some ([], update_basket_instrument i e)

    unfoldable pub run : List (Home × Event) → BasketOrderEngine → Result
    unfolding step
    run [] e = some ([], e)
    run ((home, event) ∷ events) e = do
      r ← step home event e
      s ← run events r.1
      some (r.0 ++ s.0, s.1)

    -- `restore`: the four loops over the bank, each over the values of a map.
    unfoldable pub restore_orders : List (Order Val) → BasketOrderEngine → Option BasketOrderEngine
    unfolding try_update_basket_order
    restore_orders [] e = some e
    restore_orders (o ∷ os) e = try_update_basket_order o e >>= λ r. restore_orders os r.1

    abbrev pub restore_basket_orders :
        List (ℕ × BasketOrder Val) → BasketOrderEngine → BasketOrderEngine
    restore_basket_orders [] e = e
    restore_basket_orders ((t, b) ∷ bs) e = restore_basket_orders bs (make_basket_order_state t b e)

    abbrev pub restore_baskets : List Basket → BasketOrderEngine → BasketOrderEngine
    restore_baskets [] e = e
    restore_baskets (b ∷ bs) e = restore_baskets bs (update_basket b e)

    abbrev pub restore_instruments : List BasketInstrument → BasketOrderEngine → BasketOrderEngine
    restore_instruments [] e = e
    restore_instruments (i ∷ is) e = restore_instruments is (update_basket_instrument i e)

    unfoldable pub restore :
        List (ℕ × BasketOrder Val)
        → List (Order Val)
        → List Basket
        → List BasketInstrument
        → BasketOrderEngine
        → Option BasketOrderEngine
    unfolding restore_orders make_basket_order_state
    restore basket_orders orders baskets instruments e = do
      e' ← restore_orders orders (restore_basket_orders basket_orders e)
      some (restore_instruments instruments (restore_baskets baskets e'))

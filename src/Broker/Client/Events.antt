-- ===== src/Broker/Client/Events.antt =====
-- The events of a client and its subscriptions, src/wingchun/broker/client.cpp, each as one step, and runs
-- of them. Every step has the apprentice as it is at that time.
use Prim.Native.String.{String}
use kungfu_cpp.Base.{
  ℕ, Bool, true, false, not, ◌&&◌, Option, none, some, List, [], ◌∷◌, ◌++◌, if◌then◌else◌,
}
use kungfu_cpp.Base.Chains.{◌>>=◌}
use kungfu_cpp.Base.Dict.{lookup, assign, erase}
use kungfu_cpp.Base.Sets.{member, add_id, remove}
use kungfu_cpp.Base.Int.{ℤ}
use kungfu_cpp.Wingchun.Enums.{
  InstrumentType, BrokerState, ready, connected, disconnected, Category, md, td,
}
use kungfu_cpp.Wingchun.Instruments.{get_instrument_type}
use kungfu_cpp.Broker.Client.{
  Location, App, Register, InstrumentKey, CustomSubscribe, Kind, passive, Client,
  request_read_from_source_to_dest,
}
use kungfu_cpp.Broker.Client.Queries.{is_md, is_some, should_connect_md, is_custom_subscribed}
use kungfu_cpp.Broker.Client.Calls.{
  emplace, emplace_exchange, subscribe_key, renew, sync, try_renew, try_sync, Result,
  connect_register,
}

-- `connect` with a band, at the event's time.
unfoldable pub connect_band : App → ℤ → ℕ → ℕ → Client → Result
unfolding should_connect_md
connect_band app gen_time source_id dest_id c = do
  l ← app.location source_id
  some (
    if is_md l.category && should_connect_md c.kind l.uid c
        then request_read_from_source_to_dest gen_time l dest_id ∷ []
        else [],
    c,
  )

abbrev pub is_ready_state : BrokerState → Bool
is_ready_state ready = true
is_ready_state _ = false

abbrev pub is_reset_state : BrokerState → Bool
is_reset_state connected = true
is_reset_state disconnected = true
is_reset_state _ = false

-- `switch_broker_state`: the new set of ready brokers, and whether this one has just become ready.
abbrev pub becomes_ready : App → ℕ → BrokerState → List ℕ → Bool
becomes_ready app uid state readies =
    is_ready_state state && app.has_writer uid && not (member uid readies)

abbrev pub switched : App → ℕ → BrokerState → List ℕ → List ℕ
switched app uid state readies =
    if is_reset_state state && member uid readies
    then remove uid readies
    else if becomes_ready app uid state readies
    then add_id uid readies
    else readies

abbrev pub switch_md : App → Location → BrokerState → Client → Client
switch_md app l state c = record c { ready_md = switched app l.uid state c.ready_md }

abbrev pub switch_td : App → Location → BrokerState → Client → Client
switch_td app l state c = record c { ready_td = switched app l.uid state c.ready_td }

-- The switch by the category of the broker, with what it writes.
unfoldable pub switch_state : App → ℤ → Location → BrokerState → Category → Client → Result
unfolding renew sync
switch_state app gen_time l state md c = do
  os ←
      if becomes_ready app l.uid state c.ready_md
      then renew c.kind app gen_time l (switch_md app l state c)
      else some []
  some (os, switch_md app l state c)
switch_state app gen_time l state td c = do
  os ← if becomes_ready app l.uid state c.ready_td then sync c.kind app gen_time l else some []
  some (os, switch_td app l state c)
switch_state app gen_time l state _ c = some ([], c)

abbrev pub with_state : ℕ → BrokerState → Client → Client
with_state uid state c = record c { broker_states = emplace uid state c.broker_states }

unfoldable pub update_broker_state : App → ℤ → ℕ → BrokerState → Client → Result
unfolding switch_state
update_broker_state app gen_time uid state c = do
  l ← app.location uid
  r ← switch_state app gen_time l state l.category c
  some (r.0, with_state l.uid state r.1)

-- `update_broker_state` with a Deregister.
unfoldable pub deregister : App → ℕ → Client → Result
deregister app uid c = do
  l ← app.location uid
  some (
    [],
    record (with_state uid disconnected c) {
      ready_md = remove uid c.ready_md;
      ready_td = remove uid c.ready_td;
      connected = remove uid c.connected;
    },
  )

abbrev pub enroll_md : ℕ → Client → Client
enroll_md uid c = record c { enrolled_md = emplace uid false c.enrolled_md }

abbrev pub subs_or_new : Option (List CustomSubscribe) → List CustomSubscribe
subs_or_new none = []
subs_or_new (some ss) = ss

unfoldable pub subscribe_all : ℕ → CustomSubscribe → Client → Client
subscribe_all uid s c = record c {
  enrolled_md = assign uid true c.enrolled_md;
  custom_subs = assign uid (subs_or_new (lookup uid c.custom_subs) ++ s ∷ []) c.custom_subs;
}

-- `subscribe_all` and `enroll_account` are calls of a passive client.
pub data Call : Type 0 where
  registers : Register → Call
  band : ℤ → ℕ → ℕ → Call
  state_update : ℤ → ℕ → BrokerState → Call
  deregisters : ℕ → Call
  subscribes_key : InstrumentKey → Call
  subscribes unsubscribes : String → String → Call
  subscribes_at unsubscribes_at : Location → String → String → Call
  subscribes_all : Location → CustomSubscribe → Call
  enrolls_account enrolls_system : Location → Call
  tries_renew tries_sync : ℤ → Location → Call

abbrev pub silently : Client → Result
silently c = some ([], c)

module _ (hash : String → String → ℕ) (number : String → Option ℕ) where
  abbrev pub key_of : String → String → InstrumentType → InstrumentKey
  key_of exchange_id instrument_id instrument_type = record {
    key = hash exchange_id instrument_id;
    instrument_id = instrument_id;
    exchange_id = exchange_id;
    instrument_type = instrument_type;
  }

  -- An instrument that is not yet subscribed is asked for its type, which may throw.
  unfoldable pub subscribe : String → String → Client → Option Client
  unfolding get_instrument_type
  subscribe exchange_id instrument_id c =
      if is_some (lookup (hash exchange_id instrument_id) c.instrument_keys)
      then some c
      else (get_instrument_type number exchange_id instrument_id >>= λ t.
          some (subscribe_key (key_of exchange_id instrument_id t) c))

  abbrev pub with_source : Location → String → String → Client → Client
  with_source l exchange_id instrument_id c = record c {
    exchange_md = emplace_exchange exchange_id l c.exchange_md;
    instrument_md = emplace (hash exchange_id instrument_id) l c.instrument_md;
  }

  -- `Client::subscribe` with the location of the market data.
  unfoldable pub base_subscribe_at : Location → String → String → Client → Option Client
  unfolding subscribe emplace emplace_exchange
  base_subscribe_at l exchange_id instrument_id c = subscribe exchange_id instrument_id c >>= λ c'.
      some (with_source l exchange_id instrument_id c')

  unfoldable pub subscribe_at : Kind → App → Location → String → String → Client → Option Client
  unfolding base_subscribe_at is_custom_subscribed
  subscribe_at passive app l exchange_id instrument_id c = do
    custom ← is_custom_subscribed passive app l.uid c
    base_subscribe_at l exchange_id instrument_id (if custom then c else enroll_md l.uid c)
  subscribe_at _ app l exchange_id instrument_id c = base_subscribe_at l exchange_id instrument_id c

  unfoldable pub unsubscribe : String → String → Client → Client
  unsubscribe exchange_id instrument_id c = record c {
    instrument_keys = erase (hash exchange_id instrument_id) c.instrument_keys;
  }

  unfoldable pub unsubscribe_at : String → String → Client → Client
  unfolding unsubscribe
  unsubscribe_at exchange_id instrument_id c =
      let c' = unsubscribe exchange_id instrument_id c in
      record c' { instrument_md = erase (hash exchange_id instrument_id) c'.instrument_md }

  unfoldable pub step : App → Call → Client → Result
  unfolding connect_register connect_band update_broker_state deregister subscribe subscribe_at
      unsubscribe unsubscribe_at subscribe_all try_renew try_sync
  step app (registers r) c = connect_register app r c
  step app (band time source_id dest_id) c = connect_band app time source_id dest_id c
  step app (state_update time uid state) c = update_broker_state app time uid state c
  step app (deregisters uid) c = deregister app uid c
  step app (subscribes_key k) c = silently (subscribe_key k c)
  step app (subscribes e i) c = subscribe e i c >>= silently
  step app (unsubscribes e i) c = silently (unsubscribe e i c)
  step app (subscribes_at l e i) c = subscribe_at c.kind app l e i c >>= silently
  step app (unsubscribes_at l e i) c = silently (unsubscribe_at e i c)
  step app (subscribes_all l s) c = silently (subscribe_all l.uid s c)
  step app (enrolls_account l) c = silently (record c { enrolled_td = add_id l.uid c.enrolled_td })
  step app (enrolls_system l) c =
      silently (record c { enrolled_system = add_id l.uid c.enrolled_system })
  step app (tries_renew time l) c = try_renew app time l c >>= λ os. some (os, c)
  step app (tries_sync time l) c = try_sync app time l c >>= λ os. some (os, c)

  unfoldable pub run : List (App × Call) → Client → Result
  unfolding step
  run [] c = some ([], c)
  run ((app, call) ∷ calls) c = do r ← step app call c; s ← run calls r.1; some (r.0 ++ s.0, s.1)

-- ===== src/Broker/Client/Calls.antt =====
-- What changes a client, src/wingchun/broker/client.cpp: subscriptions, the events that `on_start`
-- subscribes, and what is then written to the brokers.
use Prim.Native.String.{String}
use text.Mathlib.Text.{◌==◌ as str_eq}
use kungfu_cpp.Base.{ℕ, Bool, false, Option, none, some, List, [], ◌∷◌, if◌then◌else◌, ◌==◌}
use kungfu_cpp.Base.Chains.{◌>>=◌}
use kungfu_cpp.Base.Dict.{lookup}
use kungfu_cpp.Base.Sets.{member, add_id}
use kungfu_cpp.Base.Int.{ℤ}
use kungfu_cpp.Wingchun.Enums.{Category, md, td, strategy, system}
use kungfu_cpp.Broker.Client.{
  Location, App, Register, get_connect_time, InstrumentKey, CustomSubscribe, Kind, auto, silent,
  passive, Client, Output, request_write_to, request_read_from, request_read_from_public,
  request_read_from_sync, write_key, write_custom, mark_asset_request, mark_position_request,
  mark_order_trade_request,
}
use kungfu_cpp.Broker.Client.Queries.{
  is_some, get_resume_policy, should_connect_md, should_connect_td, should_connect_strategy,
  should_connect_system, is_custom_subscribed,
}

-- `emplace` keeps what a map holds for a key.
module _ {ℓ} {V : Type ℓ} where
  abbrev pub emplace_new : Option V → ℕ → V → List (ℕ × V) → List (ℕ × V)
  emplace_new none k v m = (k, v) ∷ m
  emplace_new (some u) k v m = m

  unfoldable pub emplace : ℕ → V → List (ℕ × V) → List (ℕ × V)
  emplace k v m = emplace_new (lookup k m) k v m

-- The same map with strings for keys.
unfoldable pub find_exchange : String → List (String × Location) → Option Location
find_exchange e [] = none
find_exchange e ((x, l) ∷ m) = let rest = find_exchange e m in if str_eq x e then some l else rest

unfoldable pub emplace_exchange :
    String → Location → List (String × Location) → List (String × Location)
unfolding find_exchange
emplace_exchange e l m = if is_some (find_exchange e m) then m else (e, l) ∷ m

-- `subscribe(instrument_key)`
abbrev pub subscribe_key : InstrumentKey → Client → Client
subscribe_key k c = record c { instrument_keys = emplace k.key k c.instrument_keys }

-- The source of an instrument: its own one, or else the one of its exchange.
abbrev pub or_else {ℓ} : {A : Type ℓ} → Option A → Option A → Option A
or_else none b = b
or_else (some a) b = some a

abbrev pub is_location : ℕ → Option Location → Bool
is_location uid none = false
is_location uid (some l) = uid == l.uid

unfoldable pub is_source : ℕ → InstrumentKey → Client → Bool
unfolding find_exchange
is_source uid k c =
    is_location uid
      (or_else (lookup k.key c.instrument_md) (find_exchange k.exchange_id c.exchange_md))

unfoldable pub renew_keys : ℤ → ℕ → List (ℕ × InstrumentKey) → Client → List Output
unfolding is_source
renew_keys time uid [] c = []
renew_keys time uid ((j, k) ∷ ks) c =
    let rest = renew_keys time uid ks c in
    if is_source uid k c then write_key uid time k ∷ rest else rest

-- `Client::renew`
unfoldable pub base_renew : App → ℤ → Location → Client → Option (List Output)
unfolding renew_keys
base_renew app time l c =
    if app.has_writer l.uid then some (renew_keys time l.uid c.instrument_keys c) else none

unfoldable pub write_customs : App → ℤ → ℕ → List CustomSubscribe → Option (List Output)
write_customs app time uid [] = some []
write_customs app time uid (s ∷ ss) = do
  rest ← write_customs app time uid ss
  if app.has_writer uid then some (write_custom uid time s ∷ rest) else none

-- `PassiveClient::renew`
unfoldable pub passive_renew : App → ℤ → Location → Client → Option (List Output)
unfolding is_custom_subscribed base_renew write_customs
passive_renew app time l c = do
  custom ← is_custom_subscribed passive app l.uid c
  if custom
      then (lookup l.uid c.custom_subs >>= write_customs app time l.uid)
      else base_renew app time l c

unfoldable pub renew : Kind → App → ℤ → Location → Client → Option (List Output)
unfolding base_renew passive_renew
renew auto app time l c = base_renew app time l c
renew silent app time l c = some []
renew passive app time l c = passive_renew app time l c

unfoldable pub sync : Kind → App → ℤ → Location → Option (List Output)
sync auto app time l =
    if app.has_writer l.uid
    then some (
        mark_asset_request l.uid time
        ∷ mark_position_request l.uid time
        ∷ mark_order_trade_request l.uid time
        ∷ [])
    else none
sync _ app time l = some []

-- `try_renew` and `try_sync`; none stands for an exception.
unfoldable pub try_renew : App → ℤ → Location → Client → Option (List Output)
unfolding renew
try_renew app time l c = if member l.uid c.ready_md then renew c.kind app time l c else some []

unfoldable pub try_sync : App → ℤ → Location → Client → Option (List Output)
unfolding sync
try_sync app time l c = if member l.uid c.ready_td then sync c.kind app time l else some []

-- The channels that `connect` asks for, where it connects.
unfoldable pub channels : App → Location → ℕ → ℤ → Category → Client → Option (List Output)
unfolding should_connect_md should_connect_td should_connect_strategy should_connect_system
channels app l uid from md c =
    if should_connect_md c.kind l.uid c
    then some (request_write_to app.now uid ∷ request_read_from_public app.now uid from ∷ [])
    else none
channels app l uid from td c =
    if should_connect_td c.kind l.uid c
    then some (
        request_write_to app.now uid
        ∷ request_read_from app.now uid from
        ∷ request_read_from_public app.now uid from
        ∷ request_read_from_sync app.now uid from
        ∷ [])
    else none
channels app l uid from strategy c =
    if should_connect_strategy c.kind
    then some (
        request_write_to app.now l.uid
        ∷ request_read_from app.now l.uid from
        ∷ request_read_from_public app.now l.uid from
        ∷ [])
    else none
channels app l uid from system c =
    if should_connect_system l.uid c
    then some (
        request_write_to app.now uid
        ∷ request_read_from app.now uid from
        ∷ request_read_from_public app.now uid from
        ∷ request_read_from_sync app.now uid from
        ∷ [])
    else none

abbrev pub connected_by : Option (List Output) → ℕ → Client → List Output × Client
connected_by none uid c = ([], c)
connected_by (some os) uid c = (os, record c { connected = add_id uid c.connected })

abbrev pub Result : Type 0
Result = Option (List Output × Client)

unfoldable pub connect_register : App → Register → Client → Result
unfolding channels get_connect_time
connect_register app r c = if member r.location_uid c.connected then some ([], c) else do
  l ← app.location r.location_uid
  let from = get_connect_time (get_resume_policy c.kind) app r
  some (connected_by (channels app l r.location_uid from l.category c) r.location_uid c)

-- ===== src/Broker/Client/Tests.antt =====
-- A passive client with one source of market data and one account, and its theorems at concrete calls.
use Prim.Native.String.{String}
use text.Mathlib.Text.{◌==◌ as str_eq}
use mathlib.Core.Option.{none-ne-some}
use kungfu_cpp.Base.{
  Option, ℕ, ◌≡◌, refl, true, false, ◌||◌, none, some, List, [], ◌∷◌, ◌==◌, if◌then◌else◌, sum_by,
  All,
}
use kungfu_cpp.Base.Chains.{◌>>=◌}
use kungfu_cpp.Base.Sets.{remove}
use kungfu_cpp.Base.Int.{pos}
use kungfu_cpp.Base.Dict.{lookup}
use kungfu_cpp.Wingchun.Enums.{ready, md, td, stock}
use kungfu_cpp.Wingchun.Instruments.{HasType, get_instrument_type, sze_type}
use kungfu_cpp.Broker.Client.{Location, App, Register, CustomSubscribe, passive, Client, Output}
use kungfu_cpp.Broker.Client.Queries.{any_covers, is_own, is_all_subscribed}
use kungfu_cpp.Broker.Client.Events.{
  Call, registers, state_update, deregisters, subscribes_at, unsubscribes, subscribes_all,
  tries_renew, run,
}
use kungfu_cpp.Broker.Client.Renewing.{opens, IsWell, Located}
use kungfu_cpp.Broker.Client.Connecting.{Counted}
use kungfu_cpp.Broker.Client.Runs.{Answerable, departed, run-Counted}
use kungfu_cpp.Broker.Client.Owning.{IsUntold, customs_after, wanted_after, run-is_own}

abbrev source : Location
source = record { uid = 10; category = md }

abbrev account : Location
account = record { uid = 20; category = td }

abbrev app : App
app = record {
  now = pos 100;
  checkin_time = pos 50;
  last_active_time = pos 40;
  location = λ uid. if uid == 10 then some source else if uid == 20 then some account else none;
  has_writer = λ uid. uid == 10 || uid == 20;
}

abbrev fresh : Client
fresh = record {
  kind = passive;
  enrolled_system = [];
  broker_states = [];
  instrument_keys = [];
  exchange_md = [];
  instrument_md = [];
  ready_md = [];
  ready_td = [];
  connected = [];
  custom_subs = [];
  enrolled_md = [];
  enrolled_td = [];
}

abbrev hash : String → String → ℕ
hash e i = if str_eq i "600000" then 1 else 2

abbrev number : String → Option ℕ
number i = some 600000

abbrev registration : Register
registration = record { location_uid = 10; last_active_time = pos 60; checkin_time = pos 60 }

-- Snapshots of all instruments of the market SSE.
abbrev snapshots : CustomSubscribe
snapshots = record { market_type = 7; instrument_type = 0; data_type = 1 }

abbrev calls : List (App × Call)
calls =
    (app, subscribes_all source snapshots)
    ∷ (app, subscribes_at source "SZE" "000001")
    ∷ (app, registers registration)
    ∷ (app, registers registration)
    ∷ (app, state_update (pos 70) 10 ready)
    ∷ (app, deregisters 10)
    ∷ (app, registers registration)
    ∷ (app, unsubscribes "SZE" "000001")
    ∷ (app, tries_renew (pos 80) source)
    ∷ []

fresh-IsWell : IsWell fresh
unfolding lookup
fresh-IsWell uid h = absurd (none-ne-some true h)

calls-Answerable : All (λ ac. Answerable number ac.0 ac.1) calls
unfolding get_instrument_type
calls-Answerable =
    (tt, ((known, typed), (known, (known, (known, (known, (known, (tt, ((known, refl), tt)))))))))
  where
    known : Located app 10
    known = (source, refl, refl)

    typed : HasType number "SZE" "000001"
    typed = (stock, refl)

run-Counted_example : Counted (λ uid. departed uid calls) fresh (run hash number calls fresh)
run-Counted_example = run-Counted hash number calls fresh fresh-IsWell calls-Answerable

fresh-IsUntold : IsUntold fresh
fresh-IsUntold = record { is_passive = refl; no_customs = refl; no_enrolled = refl; no_keys = refl }

run-is_own_example :
    (os : List Output) × (c' : Client) × (run hash number calls fresh ≡ some (os, c'))
    × (is_own hash app 10 1 "SSE" "600000" stock c'
        ≡ some (
            any_covers (customs_after 10 calls []) 1 "SSE" stock
            || wanted_after hash (hash "SSE" "600000") calls false))
run-is_own_example =
    run-is_own hash number calls fresh app 10 1 "SSE" "600000" stock fresh-IsUntold calls-Answerable
      (source, refl, refl)

-- Snapshots from SSE are the client's own, other kinds of data are not.
snapshot_own : any_covers (customs_after 10 calls []) 1 "SSE" stock ≡ true
unfolding any_covers
snapshot_own = refl

entrust_not_own : any_covers (customs_after 10 calls []) 2 "SSE" stock ≡ false
unfolding any_covers
entrust_not_own = refl

-- A source that is enrolled for single instruments only has no custom subscriptions, and the question
-- whether all is subscribed is an exception.
single_only :
    (run hash number ((app, subscribes_at source "SZE" "000001") ∷ []) fresh >>= λ r.
    is_all_subscribed passive app 10 r.1)
    ≡ none
unfolding run is_all_subscribed lookup get_instrument_type sze_type
single_only = refl

-- Of the two registrations before the departure the second asks for nothing.
connects_twice : (run hash number calls fresh >>= λ r. some (sum_by (opens 10) r.0)) ≡ some 2
unfolding run lookup remove get_instrument_type sze_type
connects_twice = refl

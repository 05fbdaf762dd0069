-- ===== src/Broker/Client.antt =====
-- The classes Client, AutoClient, SilentAutoClient and PassiveClient, include/kungfu/wingchun/broker/client.h
-- and src/wingchun/broker/client.cpp: which brokers and strategies a process connects to, and which
-- instruments it subscribes. The process (the apprentice) is what its functions answer; none is an
-- exception. A set of uids stands for a map whose values are only tested for presence.
pub mod Queries
pub mod Calls
pub mod Events
mod Renewing
mod Connecting
mod Requests
mod Runs
mod Told
mod Telling
mod Owning
mod Tests
use Prim.Native.Nat.{bit_and}
use Prim.Native.String.{String}
use text.Mathlib.Text.{◌==◌ as str_eq}
use kungfu_cpp.Base.{
  ℕ, Bool, true, false, not, ◌&&◌, ◌||◌, Option, none, some, List, [], ◌∷◌, ◌++◌, if◌then◌else◌,
  ◌==◌, ◌-◌, ◌^◌,
}
use kungfu_cpp.Base.Dict.{lookup, assign, erase}
use kungfu_cpp.Base.Sets.{member, add_id, remove}
use kungfu_cpp.Base.Int.{ℤ, negsuc, leb_ℤ, eq_ℤ}
use kungfu_cpp.Wingchun.Enums.{
  InstrumentType, SubscribeInstrumentType, BrokerState, ready, connected, disconnected, Category,
  md, td, strategy, system, all, stock, future, bond, stock_option, future_option, fund, index, hkt,
}
use kungfu_cpp.Wingchun.Instruments.{
  get_instrument_type, instrument_type_to_subscribe_instrument_type,
}

pub record Location : Type 0 where
  pub uid : ℕ
  pub category : Category

-- What the client asks of its apprentice: the clock, the two times of its start, its locations, and
-- whether it has a writer to a location.
pub record App : Type 0 where
  pub now : ℤ
  pub checkin_time : ℤ
  pub last_active_time : ℤ
  pub location : ℕ → Option Location
  pub has_writer : ℕ → Bool

pub record Register : Type 0 where
  pub location_uid : ℕ
  pub last_active_time : ℤ
  pub checkin_time : ℤ

pub data ResumePolicy : Type 0 where
  stateless continuous from_now : ResumePolicy

unfoldable pub get_resume_time : ResumePolicy → App → Register → ℤ
get_resume_time stateless app broker = broker.checkin_time
get_resume_time continuous app broker = app.last_active_time
get_resume_time from_now app broker = app.now

-- `INT64_MIN`
abbrev pub int64_min : ℤ
int64_min = negsuc (2 ^ 63 - 1)

-- `ResumePolicy::get_connect_time`
unfoldable pub resume_connect_time : ResumePolicy → App → Register → ℤ
unfolding get_resume_time
resume_connect_time p app broker =
    if eq_ℤ app.last_active_time int64_min
    then broker.checkin_time
    else if leb_ℤ app.checkin_time broker.checkin_time
        && leb_ℤ app.checkin_time broker.last_active_time
    then broker.checkin_time
    else if leb_ℤ app.checkin_time broker.checkin_time
        && leb_ℤ broker.last_active_time app.last_active_time
    then broker.checkin_time
    else if leb_ℤ broker.checkin_time app.last_active_time
    then app.last_active_time
    else get_resume_time p app broker

unfoldable pub get_connect_time : ResumePolicy → App → Register → ℤ
unfolding resume_connect_time get_resume_time
get_connect_time from_now app broker =
    if leb_ℤ app.checkin_time broker.checkin_time
    then broker.checkin_time
    else get_resume_time from_now app broker
get_connect_time p app broker = resume_connect_time p app broker

pub record InstrumentKey : Type 0 where
  pub key : ℕ
  pub instrument_id : String
  pub exchange_id : String
  pub instrument_type : InstrumentType

-- The market is its number, since `subscribe_all` casts any byte; so are the sets of instrument types
-- and of data types, whose bits are the flags.
pub record CustomSubscribe : Type 0 where
  pub market_type : ℕ
  pub instrument_type : ℕ
  pub data_type : ℕ

-- The three classes that are used.
pub data Kind : Type 0 where
  auto silent passive : Kind

-- `custom_subs`, `enrolled_md` and `enrolled_td` are members of the passive client alone.
pub record Client : Type 0 where
  pub kind : Kind
  pub enrolled_system : List ℕ
  pub broker_states : List (ℕ × BrokerState)
  pub instrument_keys : List (ℕ × InstrumentKey)
  pub exchange_md : List (String × Location)
  pub instrument_md : List (ℕ × Location)
  pub ready_md : List ℕ
  pub ready_td : List ℕ
  pub connected : List ℕ
  pub custom_subs : List (ℕ × List CustomSubscribe)
  pub enrolled_md : List (ℕ × Bool)
  pub enrolled_td : List ℕ

-- What a client gives to its apprentice, or writes, to a location at a time.
pub data Output : Type 0 where
  request_write_to : ℤ → ℕ → Output
  request_read_from request_read_from_public request_read_from_sync : ℤ → ℕ → ℤ → Output
  request_read_from_source_to_dest : ℤ → Location → ℕ → Output
  write_key : ℕ → ℤ → InstrumentKey → Output
  write_custom : ℕ → ℤ → CustomSubscribe → Output
  mark_asset_request mark_position_request mark_order_trade_request : ℕ → ℤ → Output

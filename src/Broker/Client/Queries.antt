-- ===== src/Broker/Client/Queries.antt =====
-- What a client tells of its subscriptions, src/wingchun/broker/client.cpp, and the filter `is_own` of
-- market data, include/kungfu/wingchun/broker/client.h. The virtual functions go by the kind of client.
use Prim.Native.Nat.{bit_and}
use Prim.Native.String.{String}
use text.Mathlib.Text.{◌==◌ as str_eq}
use kungfu_cpp.Base.{
  ℕ, Bool, true, false, not, ◌&&◌, ◌||◌, Option, none, some, List, [], ◌∷◌, if◌then◌else◌, ◌==◌,
}
use kungfu_cpp.Base.Chains.{◌>>=◌}
use kungfu_cpp.Base.Dict.{lookup}
use kungfu_cpp.Base.Sets.{member}
use kungfu_cpp.Wingchun.Enums.{
  InstrumentType, SubscribeInstrumentType, Category, md, td, all, stock, future, bond, stock_option,
  future_option, fund, index, hkt,
}
use kungfu_cpp.Wingchun.Instruments.{instrument_type_to_subscribe_instrument_type}
use kungfu_cpp.Broker.Client.{
  Location, App, ResumePolicy, stateless, from_now, CustomSubscribe, Kind, passive, Client,
}

abbrev pub is_some {ℓ} : {A : Type ℓ} → Option A → Bool
is_some none = false
is_some (some a) = true

abbrev pub is_md : Category → Bool
is_md md = true
is_md _ = false

abbrev pub is_td : Category → Bool
is_td td = true
is_td _ = false

abbrev pub get_resume_policy : Kind → ResumePolicy
get_resume_policy passive = from_now
get_resume_policy _ = stateless

unfoldable pub should_connect_md : Kind → ℕ → Client → Bool
should_connect_md passive uid c = is_some (lookup uid c.enrolled_md)
should_connect_md _ uid c = true

unfoldable pub should_connect_td : Kind → ℕ → Client → Bool
should_connect_td passive uid c = member uid c.enrolled_td
should_connect_td _ uid c = true

unfoldable pub should_connect_strategy : Kind → Bool
should_connect_strategy passive = false
should_connect_strategy _ = true

unfoldable pub should_connect_system : ℕ → Client → Bool
should_connect_system uid c = member uid c.enrolled_system

abbrev pub ready_at : Location → Client → Bool
ready_at l c =
    is_md l.category && member l.uid c.ready_md || is_td l.category && member l.uid c.ready_td

abbrev pub is_ready_at : Option Location → Client → Bool
is_ready_at none c = false
is_ready_at (some l) c = ready_at l c

unfoldable pub is_ready : App → ℕ → Client → Bool
is_ready app uid c =
    if is_some (app.location uid) && app.has_writer uid
    then is_ready_at (app.location uid) c
    else false

unfoldable pub is_connected : App → ℕ → Bool
is_connected app uid = is_some (app.location uid) && app.has_writer uid

-- The flag of an instrument type in a set of them.
abbrev pub subscribe_value : SubscribeInstrumentType → ℕ
subscribe_value all = 0
subscribe_value stock = 1
subscribe_value future = 2
subscribe_value bond = 4
subscribe_value stock_option = 8
subscribe_value future_option = 16
subscribe_value fund = 32
subscribe_value index = 64
subscribe_value hkt = 128

-- The exchange of a market, by the market's number: 0 is the market All.
unfoldable pub custom_exchange : ℕ → String
custom_exchange m =
    if m == 0
    then ""
    else if m == 1
    then "BSE"
    else if m == 2
    then "SHFE"
    else if m == 3
    then "CFFEX"
    else if m == 4
    then "DCE"
    else if m == 5
    then "CZCE"
    else if m == 6
    then "INE"
    else if m == 7
    then "SSE"
    else if m == 8
    then "SZE"
    else "Unknown"

-- Whether a custom subscription covers data: its kind, its exchange and its type of instrument.
unfoldable pub custom_covers : CustomSubscribe → ℕ → String → InstrumentType → Bool
unfolding custom_exchange instrument_type_to_subscribe_instrument_type
custom_covers s data_type exchange_id instrument_type =
    let custom_type =
      subscribe_value (instrument_type_to_subscribe_instrument_type instrument_type) in
    (s.data_type == 0 || not (bit_and s.data_type data_type == 0))
    && (str_eq (custom_exchange s.market_type) ""
        || str_eq (custom_exchange s.market_type) exchange_id)
    && (s.instrument_type == 0 || not (bit_and custom_type s.instrument_type == 0))

unfoldable pub any_covers : List CustomSubscribe → ℕ → String → InstrumentType → Bool
unfolding custom_covers
any_covers [] data_type exchange_id instrument_type = false
any_covers (s ∷ ss) data_type exchange_id instrument_type =
    custom_covers s data_type exchange_id instrument_type
    || any_covers ss data_type exchange_id instrument_type

-- `should_connect_md(app_.get_location(uid)) and enrolled_md_locations_.at(uid)`
unfoldable pub is_custom_enrolled : App → ℕ → Client → Option Bool
unfolding should_connect_md
is_custom_enrolled app uid c = do
  l ← app.location uid
  if should_connect_md passive l.uid c then lookup uid c.enrolled_md else some false

unfoldable pub is_custom_subscribed : Kind → App → ℕ → Client → Option Bool
unfolding is_custom_enrolled
is_custom_subscribed passive app uid c = is_custom_enrolled app uid c
is_custom_subscribed _ app uid c = some false

abbrev pub covered_by : Option (List CustomSubscribe) → ℕ → String → InstrumentType → Option Bool
covered_by none data_type exchange_id instrument_type = none
covered_by (some ss) data_type exchange_id instrument_type =
    some (any_covers ss data_type exchange_id instrument_type)

unfoldable pub is_custom_subscribed_all :
    Kind → App → ℕ → ℕ → String → InstrumentType → Client → Option Bool
unfolding is_custom_enrolled any_covers
is_custom_subscribed_all passive app uid data_type exchange_id instrument_type c = do
  enrolled ← is_custom_enrolled app uid c
  if enrolled
      then covered_by (lookup uid c.custom_subs) data_type exchange_id instrument_type
      else some false
is_custom_subscribed_all _ app uid data_type exchange_id instrument_type c = some false

-- The test of one subscription: all markets, all types of instruments and all kinds of data.
abbrev pub has_all : List CustomSubscribe → Bool
has_all [] = false
has_all (s ∷ ss) = s.market_type == 0 && s.instrument_type == 0 && s.data_type == 0 || has_all ss

abbrev pub all_of : Option (List CustomSubscribe) → Option Bool
all_of none = none
all_of (some ss) = some (has_all ss)

unfoldable pub is_all_subscribed : Kind → App → ℕ → Client → Option Bool
unfolding should_connect_md
is_all_subscribed passive app uid c = do
  l ← app.location uid
  if should_connect_md passive l.uid c then all_of (lookup uid c.custom_subs) else some false
is_all_subscribed _ app uid c = some false

module _ (hash : String → String → ℕ) where
  unfoldable pub is_subscribed : String → String → Client → Bool
  is_subscribed exchange_id instrument_id c =
      is_some (lookup (hash exchange_id instrument_id) c.instrument_keys)

  -- `is_own` of market data of a kind (the flag of `SubscribeDataType`) from a source.
  unfoldable pub is_own : App → ℕ → ℕ → String → String → InstrumentType → Client → Option Bool
  unfolding is_custom_subscribed is_custom_subscribed_all is_subscribed
  is_own app source data_type exchange_id instrument_id instrument_type c = do
    custom ← is_custom_subscribed c.kind app source c
    covered ←
        if custom
        then is_custom_subscribed_all c.kind app source data_type exchange_id instrument_type c
        else some false
    some (covered || is_subscribed exchange_id instrument_id c)

-- ===== src/Wingchun/Tests.antt =====
-- Runs of the rules, and the theorems at concrete arguments.
use Prim.Native.String.{String}
use kungfu_cpp.Base.{ℕ, Option, some, ◌≡◌, ◌↔◌, refl, arith, true, false, none}
use kungfu_cpp.Wingchun.Enums.{future, bond, lock, «open»}
use kungfu_cpp.Wingchun.Directions.{is_shortable, get_direction, is_directed, get_direction-none}
use kungfu_cpp.Wingchun.HkCodes.{
  get_instrument_type_by_exchange_hk, get_instrument_type_by_exchange_hk-rule, hk_code_type_def,
}
use kungfu_cpp.Wingchun.Instruments.{get_instrument_type}
use kungfu_cpp.Wingchun.Products.{
  codes, get_exchange_id_from_future_instrument_id, get_exchange_id-toupper, before_digit,
  exchange_of_product,
}
use kungfu_cpp.Wingchun.Repos.{
  get_repo_commission_rate, get_repo_expire_days, get_repo_commission_rate_lem,
}

get_direction-none_example :
    (get_direction future lock «open» ≡ none)
    ↔ ((is_shortable future ≡ true) × (is_directed lock ≡ false))
get_direction-none_example = get_direction-none future lock «open»

get_instrument_type_by_exchange_hk-rule_example : get_instrument_type_by_exchange_hk 5000 ≡ bond
unfolding hk_code_type_def
get_instrument_type_by_exchange_hk-rule_example =
    get_instrument_type_by_exchange_hk-rule 5000 8 (record { beg = 5000; end = 6029; type = bond })
      refl (omega arith) (omega arith)

abbrev no_number : String → Option ℕ
no_number s = none

-- An id of the Hong Kong exchange that is no number is an exception; elsewhere it is not read.
not_numeric : get_instrument_type no_number "HK" "ABC" ≡ none
unfolding get_instrument_type
not_numeric = refl

numeric_or_not : get_instrument_type no_number "SHFE" "ag2406" ≡ some future
unfolding get_instrument_type
numeric_or_not = refl

get_exchange_id-toupper_example :
    get_exchange_id_from_future_instrument_id (codes "RB2410") ≡ "SHFE"
unfolding get_exchange_id_from_future_instrument_id before_digit exchange_of_product
get_exchange_id-toupper_example = get_exchange_id-toupper (codes "rb2410")

get_repo_commission_rate_lem_example : get_repo_commission_rate "131801" ≡ 5
unfolding get_repo_expire_days
get_repo_commission_rate_lem_example = get_repo_commission_rate_lem "131801"

-- The code of the 28-day repurchase is 204028.
repo_28 : get_repo_expire_days "204028" ≡ 0
unfolding get_repo_expire_days
repo_28 = refl

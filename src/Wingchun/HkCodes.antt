-- ===== src/Wingchun/HkCodes.antt =====
-- The type of an instrument of the Hong Kong exchange. include/kungfu/wingchun/common.h. An id is a
-- number here: `std::stoi` reads it.
use kungfu_cpp.Base.{
  ℕ, some, get_elem?, zero, suc, ◌≤◌, ◌≡◌, refl, Bool, true, ◌&&◌, ◌||◌, List, [], ◌∷◌, leb, ltb,
  if◌then◌else◌, arith,
}
use kungfu_cpp.Wingchun.Enums.{InstrumentType, stock, bond, fund, stock_option, warrant}

pub record HkCodeRule : Type 0 where
  pub beg : ℕ
  pub end : ℕ
  pub type : InstrumentType

abbrev rule : ℕ → ℕ → InstrumentType → HkCodeRule
rule beg end type = record { beg = beg; end = end; type = type }

unfoldable pub hk_code_type_def : List HkCodeRule
hk_code_type_def =
    rule 1 2799 stock
    ∷ rule 2800 2849 fund
    ∷ rule 3000 3199 fund
    ∷ rule 3400 3499 fund
    ∷ rule 4000 4199 bond
    ∷ rule 4200 4299 bond
    ∷ rule 4300 4329 bond
    ∷ rule 4400 4599 bond
    ∷ rule 5000 6029 bond
    ∷ rule 40000 40999 bond
    ∷ rule 4600 4699 stock
    ∷ rule 4700 4799 bond
    ∷ rule 4800 4999 stock
    ∷ rule 6200 6299 stock
    ∷ rule 6300 6399 stock
    ∷ rule 6750 6799 bond
    ∷ rule 7200 7399 stock
    ∷ rule 7500 7599 stock
    ∷ rule 7800 7999 stock
    ∷ rule 8000 8999 stock
    ∷ rule 9000 9199 fund
    ∷ rule 9400 9499 fund
    ∷ rule 9800 9849 fund
    ∷ rule 9200 9399 stock
    ∷ rule 9500 9599 stock
    ∷ rule 10000 29999 stock_option
    ∷ rule 30000 39999 stock
    ∷ rule 41000 46999 stock
    ∷ rule 47000 48999 warrant
    ∷ rule 49000 49999 stock
    ∷ rule 50000 69999 warrant
    ∷ rule 70000 79999 stock
    ∷ rule 82800 82849 fund
    ∷ rule 83000 83199 fund
    ∷ rule 83400 83499 fund
    ∷ rule 84300 84329 bond
    ∷ rule 84400 84599 bond
    ∷ rule 85000 85743 bond
    ∷ rule 85901 86029 bond
    ∷ rule 84600 84699 stock
    ∷ rule 85744 85900 stock
    ∷ rule 86600 86799 bond
    ∷ rule 87000 87099 fund
    ∷ rule 87200 87399 stock
    ∷ rule 87500 87599 stock
    ∷ rule 89000 89999 stock_option
    ∷ rule 90000 99999 stock
    ∷ []

unfoldable pub find_rule : ℕ → List HkCodeRule → InstrumentType
find_rule n [] = stock
find_rule n (r ∷ rs) = if leb r.beg n && leb n r.end then r.type else find_rule n rs

unfoldable pub get_instrument_type_by_exchange_hk : ℕ → InstrumentType
unfolding find_rule hk_code_type_def
get_instrument_type_by_exchange_hk n = find_rule n hk_code_type_def

apart : HkCodeRule → HkCodeRule → Bool
apart r s = ltb r.end s.beg || ltb s.end r.beg

apart_from : HkCodeRule → List HkCodeRule → Bool
unfolding apart
apart_from r [] = true
apart_from r (s ∷ rs) = apart r s && apart_from r rs

all_apart : List HkCodeRule → Bool
unfolding apart_from
all_apart [] = true
all_apart (r ∷ rs) = apart_from r rs && all_apart rs

apart-get_elem? :
    (r s : HkCodeRule) (rs : List HkCodeRule) (i : ℕ)
    → apart_from r rs ≡ true
    → get_elem? rs i ≡ some s
    → apart r s ≡ true
unfolding apart_from
apart-get_elem? r s [] i h e = ground (arith, e)
apart-get_elem? r s (x ∷ rs) zero h e = ground (arith, h, e)
apart-get_elem? r s (x ∷ rs) (suc i) h e = apart-get_elem? r s rs i (ground (arith, h)) e

find_rule-get_elem? :
    (n : ℕ) (rs : List HkCodeRule) (i : ℕ) (r : HkCodeRule)
    → all_apart rs ≡ true
    → get_elem? rs i ≡ some r
    → r.beg ≤ n
    → n ≤ r.end
    → find_rule n rs ≡ r.type
unfolding find_rule all_apart apart
find_rule-get_elem? n [] i r h e l u = ground (arith, e)
find_rule-get_elem? n (x ∷ rs) zero r h e l u = ground (arith, e, l, u)
find_rule-get_elem? n (x ∷ rs) (suc i) r h e l u =
    let a : apart x r ≡ true = apart-get_elem? x r rs i (ground (arith, h)) e in
    let ih = find_rule-get_elem? n rs i r (ground (arith, h)) e l u in ground (arith, a, ih, l, u)

hk_rules_apart : all_apart hk_code_type_def ≡ true
unfolding all_apart hk_code_type_def
hk_rules_apart = refl

-- Whatever rule of the table an id lies in gives its type: no id lies in two rules, so that the order
-- of the table does not matter.
pub get_instrument_type_by_exchange_hk-rule :
    (n i : ℕ) (r : HkCodeRule)
    → get_elem? hk_code_type_def i ≡ some r
    → r.beg ≤ n
    → n ≤ r.end
    → get_instrument_type_by_exchange_hk n ≡ r.type
unfolding get_instrument_type_by_exchange_hk
get_instrument_type_by_exchange_hk-rule n i r e l u =
    find_rule-get_elem? n hk_code_type_def i r hk_rules_apart e l u

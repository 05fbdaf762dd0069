-- ===== src/Wingchun/Instruments.antt =====
-- The type of an instrument by its exchange and its id. include/kungfu/wingchun/common.h.
use Prim.Native.String.{String, len}
use text.Mathlib.Text.{starts_with}
use text.Mathlib.Text.{◌==◌ as str_eq}
use mathlib.Core.Bool.{true≢false}
use text.Mathlib.TextEquality.{eq_iff}
use kungfu_cpp.Base.{
  ◌≡◌, refl, sym, subst, ◌∙◌, ◌⊎◌, inl, inr, true, not, Bool-cases, Option, ℕ, Bool, false, ◌||◌,
  Option, none, some, List, [], ◌∷◌, if◌then◌else◌, ◌==◌,
}
use kungfu_cpp.Wingchun.Enums.{
  InstrumentType, SubscribeInstrumentType, unknown, stock, future, bond, stock_option, tech_stock,
  fund, index, repo, warrant, iopt, crypto, all,
}
use kungfu_cpp.Wingchun.HkCodes.{get_instrument_type_by_exchange_hk}

-- `string_equals` with one of several texts.
abbrev pub equals_any : String → List String → Bool
equals_any s [] = false
equals_any s (t ∷ ts) = str_eq s t || equals_any s ts

-- The exchanges of the three long tests, and the two of the test before them.
abbrev pub home_futures : List String
home_futures = "DCE" ∷ "SHFE" ∷ "CFFEX" ∷ "CZCE" ∷ "INE" ∷ "GFEX" ∷ []

abbrev pub crypto_exchanges : List String
crypto_exchanges = "BINANCE" ∷ "HB" ∷ []

abbrev pub foreign_futures : List String
foreign_futures =
    "HKFUT" ∷ "USFUT" ∷ "SGXFUT" ∷ "LONFUT" ∷ "AEXFUT" ∷ "AUXFUT" ∷ "HEXSFUT" ∷ "IDXFUT" ∷ "KORC"
    ∷ "LME" ∷ "MYSFUT" ∷ "ABB" ∷ "PRXFUT" ∷ "SIXFUT" ∷ "TAXFUT" ∷ "JPFUT" ∷ "TSEFUT" ∷ "XETRA"
    ∷ "EURFUT" ∷ []

abbrev pub foreign_stocks : List String
foreign_stocks =
    "US" ∷ "SGX" ∷ "LON" ∷ "AEX" ∷ "AUX" ∷ "HEXS" ∷ "IDX" ∷ "MYS" ∷ "PRX" ∷ "SIX" ∷ "TAX" ∷ "JP"
    ∷ "TSE" ∷ "EUR" ∷ []

unfoldable pub sse_type : ℕ → String → InstrumentType
sse_type length i =
    if length == 8
    then stock_option
    else if starts_with i "00"
    then index
    else if starts_with i "0"
    then bond
    else if starts_with i "1"
    then bond
    else if starts_with i "2"
    then repo
    else if starts_with i "5"
    then fund
    else if starts_with i "688" || starts_with i "787" || starts_with i "789"
    then tech_stock
    else stock

unfoldable pub sze_type : ℕ → String → InstrumentType
sze_type length i =
    if length == 8
    then stock_option
    else if starts_with i "15" || starts_with i "16" || starts_with i "18"
    then fund
    else if starts_with i "131"
    then repo
    else if starts_with i "1"
    then bond
    else stock

abbrev pub hk_type : Option ℕ → Option InstrumentType
hk_type none = none
hk_type (some n) = some (get_instrument_type_by_exchange_hk n)

-- `number` is what `std::stoi` reads from an id; none is the exception that it throws for an id that
-- does not start with a number, or with one that is no int.
module _ (number : String → Option ℕ) where
  unfoldable pub get_instrument_type : String → String → Option InstrumentType
  unfolding sse_type sze_type get_instrument_type_by_exchange_hk
  get_instrument_type e i =
      if str_eq e "SSE"
      then some (sse_type (len i) i)
      else if str_eq e "SZE"
      then some (sze_type (len i) i)
      else if str_eq e "BSE"
      then some stock
      else if equals_any e home_futures
      then some future
      else if equals_any e crypto_exchanges
      then some crypto
      else if str_eq e "HK"
      then hk_type (number i)
      else if equals_any e foreign_futures
      then some future
      else if equals_any e foreign_stocks
      then some stock
      else some unknown

unfoldable pub str_from_instrument_type : InstrumentType → String
str_from_instrument_type unknown = "Unknown"
str_from_instrument_type stock = "Stock"
str_from_instrument_type future = "Future"
str_from_instrument_type bond = "Bond"
str_from_instrument_type stock_option = "StockOption"
str_from_instrument_type tech_stock = "TechStock"
str_from_instrument_type fund = "Fund"
str_from_instrument_type index = "Index"
str_from_instrument_type repo = "Repo"
str_from_instrument_type warrant = "Warrant"
str_from_instrument_type iopt = "Iopt"
str_from_instrument_type crypto = "Crypto"

unfoldable pub instrument_type_to_subscribe_instrument_type :
    InstrumentType → SubscribeInstrumentType
instrument_type_to_subscribe_instrument_type stock = stock
instrument_type_to_subscribe_instrument_type future = future
instrument_type_to_subscribe_instrument_type bond = bond
instrument_type_to_subscribe_instrument_type repo = bond
instrument_type_to_subscribe_instrument_type stock_option = stock_option
instrument_type_to_subscribe_instrument_type tech_stock = stock
instrument_type_to_subscribe_instrument_type fund = fund
instrument_type_to_subscribe_instrument_type index = index
instrument_type_to_subscribe_instrument_type _ = all

abbrev pub is_some {ℓ} : {A : Type ℓ} → Option A → Bool
is_some none = false
is_some (some a) = true

hk_type-cases :
    (o : Option ℕ)
    → ((o ≡ none) × (hk_type o ≡ none))
      ⊎ ((is_some o ≡ true) × ((t : InstrumentType) × (hk_type o ≡ some t)))
hk_type-cases none = inl (refl, refl)
hk_type-cases (some n) = inr (refl, (get_instrument_type_by_exchange_hk n, refl))

-- "HK" is in no list that is tested before it.
before_hk :
    (number : String → Option ℕ) (e i : String)
    → str_eq e "HK" ≡ true
    → get_instrument_type number e i ≡ hk_type (number i)
unfolding get_instrument_type
before_hk number e i h =
    subst (λ x. get_instrument_type number x i ≡ hk_type (number i)) (sym ((eq_iff e "HK").0 h))
      refl

other_type :
    (a b c d f g h k : Bool) (x y : InstrumentType) (z : Option InstrumentType)
    → g ≡ false
    → (t : InstrumentType) × ((if a
          then some x
          else if b
          then some y
          else if c
          then some stock
          else if d
          then some future
          else if f
          then some crypto
          else if g
          then z
          else if h
          then some future
          else if k
          then some stock
          else some unknown)
        ≡ some t)
other_type true b c d f g h k x y z e = (x, refl)
other_type false true c d f g h k x y z e = (y, refl)
other_type false false true d f g h k x y z e = (stock, refl)
other_type false false false true f g h k x y z e = (future, refl)
other_type false false false false true g h k x y z e = (crypto, refl)
other_type false false false false false true h k x y z e = absurd (true≢false e)
other_type false false false false false false true k x y z e = (future, refl)
other_type false false false false false false false true x y z e = (stock, refl)
other_type false false false false false false false false x y z e = (unknown, refl)

-- `get_instrument_type` does not throw.
abbrev pub HasType : (String → Option ℕ) → String → String → Type 0
HasType number e i = (t : InstrumentType) × (get_instrument_type number e i ≡ some t)

-- `get_instrument_type` throws exactly for an id of the Hong Kong exchange that is no number.
pub get_instrument_type-cases :
    (number : String → Option ℕ) (e i : String)
    → (((str_eq e "HK" ≡ true) × (number i ≡ none)) × (get_instrument_type number e i ≡ none))
      ⊎ ((not (str_eq e "HK") || is_some (number i) ≡ true)
          × ((t : InstrumentType) × (get_instrument_type number e i ≡ some t)))
unfolding get_instrument_type
get_instrument_type-cases number e i = elim (Bool-cases (str_eq e "HK")) [
  | inr f ↦ inr (
    rw f refl,
    other_type (str_eq e "SSE") (str_eq e "SZE") (str_eq e "BSE") (equals_any e home_futures)
        (equals_any e crypto_exchanges) (str_eq e "HK") (equals_any e foreign_futures)
        (equals_any e foreign_stocks) (sse_type (len i) i) (sze_type (len i) i) (hk_type (number i))
        f,
  )
  | inl t ↦
      let q = before_hk number e i t in
      elim (hk_type-cases (number i)) [
        | inl (n, h) ↦ inl ((t, n), q ∙ h)
        | inr (n, (u, h)) ↦ inr (rw (t, n) refl, (u, q ∙ h))
      ]
]

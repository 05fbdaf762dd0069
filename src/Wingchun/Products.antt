-- ===== src/Wingchun/Products.antt =====
-- The product of an instrument and the exchange of a future. include/kungfu/wingchun/common.h. A text
-- is the list of its characters, in the "C" locale.
use Prim.Native.Char.{code}
use Prim.Native.String.{String}
use kungfu_cpp.Base.{
  ℕ, ◌+◌, ◌-◌, ◌≡◌, refl, ap, ap₂, Bool, true, false, ◌&&◌, ◌||◌, List, [], ◌∷◌, map, leb, ◌==◌,
  if◌then◌else◌, arith, Bool-cases, inl, inr,
}

abbrev pub codes : String → List ℕ
codes String.[] = []
codes (String.◌∷◌ c s) = code c ∷ codes s

abbrev pub is_digit : ℕ → Bool
is_digit c = leb b'0' c && leb c b'9'

abbrev pub toupper : ℕ → ℕ
toupper c = if leb b'a' c && leb c b'z' then c - 32 else c

abbrev pub tolower : ℕ → ℕ
tolower c = if leb b'A' c && leb c b'Z' then c + 32 else c

unfoldable pub get_instrument_product : List ℕ → List ℕ
get_instrument_product [] = []
get_instrument_product (c ∷ s) =
    let rest = get_instrument_product s in if is_digit c then rest else toupper c ∷ rest

-- What stands before the first digit.
unfoldable pub before_digit : List ℕ → List ℕ
before_digit [] = []
before_digit (c ∷ s) = let rest = before_digit s in if is_digit c then [] else c ∷ rest

abbrev pub same : List ℕ → List ℕ → Bool
same [] [] = true
same (x ∷ xs) (y ∷ ys) = x == y && same xs ys
same _ _ = false

abbrev pub any_product : List ℕ → List String → Bool
any_product p [] = false
any_product p (t ∷ ts) = same p (codes t) || any_product p ts

abbrev pub dce_products : List String
dce_products =
    "c" ∷ "cs" ∷ "a" ∷ "b" ∷ "m" ∷ "y" ∷ "p" ∷ "fb" ∷ "bb" ∷ "jd" ∷ "rr" ∷ "l" ∷ "v" ∷ "pp" ∷ "j"
    ∷ "jm" ∷ "i" ∷ "eg" ∷ "eb" ∷ "pg" ∷ "lh" ∷ []

abbrev pub czce_products : List String
czce_products =
    "wh" ∷ "pm" ∷ "cf" ∷ "sr" ∷ "oi" ∷ "ri" ∷ "rs" ∷ "rm" ∷ "jr" ∷ "lr" ∷ "cy" ∷ "ap" ∷ "cj" ∷ "ta"
    ∷ "ma" ∷ "zc" ∷ "sf" ∷ "sm" ∷ "ur" ∷ "fg" ∷ "sa" ∷ "pf" ∷ "pk" ∷ []

abbrev pub shfe_products : List String
shfe_products =
    "cu" ∷ "al" ∷ "zn" ∷ "pb" ∷ "ni" ∷ "sn" ∷ "au" ∷ "ag" ∷ "rb" ∷ "wr" ∷ "hc" ∷ "ss" ∷ "fu" ∷ "bu"
    ∷ "ru" ∷ "sp" ∷ "ao" ∷ "br" ∷ []

abbrev pub cffex_products : List String
cffex_products = "if" ∷ "ic" ∷ "ih" ∷ "ts" ∷ "tf" ∷ "tl" ∷ "t" ∷ "im" ∷ []

abbrev pub ine_products : List String
ine_products = "sc" ∷ "bc" ∷ "lu" ∷ "nr" ∷ []

abbrev pub gfex_products : List String
gfex_products = "si" ∷ "lc" ∷ []

unfoldable pub exchange_of_product : List ℕ → String
exchange_of_product p =
    if any_product p dce_products
    then "DCE"
    else if any_product p czce_products
    then "CZCE"
    else if any_product p shfe_products
    then "SHFE"
    else if any_product p cffex_products
    then "CFFEX"
    else if any_product p ine_products
    then "INE"
    else if any_product p gfex_products
    then "GFEX"
    else ""

unfoldable pub get_exchange_id_from_future_instrument_id : List ℕ → String
unfolding before_digit exchange_of_product
get_exchange_id_from_future_instrument_id i = exchange_of_product (map tolower (before_digit i))

digit-toupper : (c : ℕ) → is_digit (toupper c) ≡ is_digit c
digit-toupper c = ground arith

tolower-toupper : (c : ℕ) → tolower (toupper c) ≡ tolower c
tolower-toupper c = ground arith

before_digit-toupper :
    (s : List ℕ) → map tolower (before_digit (map toupper s)) ≡ map tolower (before_digit s)
unfolding before_digit
before_digit-toupper [] = refl
before_digit-toupper (c ∷ s) = elim (Bool-cases (is_digit c)) [
  | inl t ↦ rw (digit-toupper c, t) refl
  | inr f ↦
      rw (digit-toupper c, f) (ap₂ (λ x xs. x ∷ xs) (tolower-toupper c) (before_digit-toupper s))
]

-- The exchange of a future does not depend on the case of its id.
pub get_exchange_id-toupper :
    (i : List ℕ)
    → get_exchange_id_from_future_instrument_id (map toupper i)
      ≡ get_exchange_id_from_future_instrument_id i
unfolding get_exchange_id_from_future_instrument_id
get_exchange_id-toupper i = ap exchange_of_product (before_digit-toupper i)

toupper-toupper : (c : ℕ) → toupper (toupper c) ≡ toupper c
toupper-toupper c = ground arith

-- The product of an instrument has no digits and no small letters, so that it is its own product.
pub get_instrument_product_idem :
    (s : List ℕ) → get_instrument_product (get_instrument_product s) ≡ get_instrument_product s
unfolding get_instrument_product
get_instrument_product_idem [] = refl
get_instrument_product_idem (c ∷ s) = elim (Bool-cases (is_digit c)) [
  | inl t ↦ rw t (get_instrument_product_idem s)
  | inr f ↦
      rw (f, digit-toupper c, f)
        (ap₂ (λ x xs. x ∷ xs) (toupper-toupper c) (get_instrument_product_idem s))
]

-- ===== src/Wingchun/Repos.antt =====
-- Reverse repurchases: their commission and their days. include/kungfu/wingchun/common.h. A rate is
-- counted in hundred-thousandths.
use Prim.Native.String.{String}
use text.Mathlib.Text.{starts_with}
use text.Mathlib.Text.{◌==◌ as str_eq}
use kungfu_cpp.Base.{ℕ, ◌≡◌, refl, ◌==◌, Bool, true, false, ◌||◌, ◌&&◌, if◌then◌else◌}

unfoldable pub is_repo : String → String → Bool
is_repo i e = (starts_with i "204" && str_eq e "SSE") || (starts_with i "1318" && str_eq e "SZE")

unfoldable pub get_repo_commission_rate : String → ℕ
get_repo_commission_rate i =
    if str_eq i "204001" || str_eq i "131810"
    then 1
    else if str_eq i "204002" || str_eq i "131811"
    then 2
    else if str_eq i "204003" || str_eq i "131800"
    then 3
    else if str_eq i "204004" || str_eq i "131809"
    then 4
    else if str_eq i "204007" || str_eq i "131801"
    then 5
    else if str_eq i "204014" || str_eq i "131802"
    then 10
    else if str_eq i "204029" || str_eq i "131803"
    then 20
    else if str_eq i "204091" || str_eq i "131805"
    then 30
    else if str_eq i "204182" || str_eq i "131806"
    then 30
    else 0

unfoldable pub get_repo_expire_days : String → ℕ
get_repo_expire_days i =
    if str_eq i "204001" || str_eq i "131810"
    then 1
    else if str_eq i "204002" || str_eq i "131811"
    then 2
    else if str_eq i "204003" || str_eq i "131800"
    then 3
    else if str_eq i "204004" || str_eq i "131809"
    then 4
    else if str_eq i "204007" || str_eq i "131801"
    then 7
    else if str_eq i "204014" || str_eq i "131802"
    then 14
    else if str_eq i "204029" || str_eq i "131803"
    then 28
    else if str_eq i "204091" || str_eq i "131805"
    then 91
    else if str_eq i "204182" || str_eq i "131806"
    then 182
    else 0

-- The commission that goes with a number of days.
abbrev pub rate_of_days : ℕ → ℕ
rate_of_days n =
    if n == 1
    then 1
    else if n == 2
    then 2
    else if n == 3
    then 3
    else if n == 4
    then 4
    else if n == 7
    then 5
    else if n == 14
    then 10
    else if n == 28
    then 20
    else if n == 91
    then 30
    else if n == 182
    then 30
    else 0

same_chain :
    (b1 b2 b3 b4 b5 b6 b7 b8 b9 : Bool)
    → (if b1
        then 1
        else if b2
        then 2
        else if b3
        then 3
        else if b4
        then 4
        else if b5
        then 5
        else if b6
        then 10
        else if b7
        then 20
        else if b8
        then 30
        else if b9
        then 30
        else 0)
      ≡ rate_of_days (
          if b1
          then 1
          else if b2
          then 2
          else if b3
          then 3
          else if b4
          then 4
          else if b5
          then 7
          else if b6
          then 14
          else if b7
          then 28
          else if b8
          then 91
          else if b9
          then 182
          else 0)
same_chain true b2 b3 b4 b5 b6 b7 b8 b9 = refl
same_chain false true b3 b4 b5 b6 b7 b8 b9 = refl
same_chain false false true b4 b5 b6 b7 b8 b9 = refl
same_chain false false false true b5 b6 b7 b8 b9 = refl
same_chain false false false false true b6 b7 b8 b9 = refl
same_chain false false false false false true b7 b8 b9 = refl
same_chain false false false false false false true b8 b9 = refl
same_chain false false false false false false false true b9 = refl
same_chain false false false false false false false false true = refl
same_chain false false false false false false false false false = refl

-- The commission rate of an instrument goes by the number of its days alone; an instrument without
-- days has none.
pub get_repo_commission_rate_lem :
    (i : String) → get_repo_commission_rate i ≡ rate_of_days (get_repo_expire_days i)
unfolding get_repo_expire_days get_repo_commission_rate
get_repo_commission_rate_lem i =
    same_chain (str_eq i "204001" || str_eq i "131810") (str_eq i "204002" || str_eq i "131811")
      (str_eq i "204003" || str_eq i "131800") (str_eq i "204004" || str_eq i "131809")
      (str_eq i "204007" || str_eq i "131801") (str_eq i "204014" || str_eq i "131802")
      (str_eq i "204029" || str_eq i "131803") (str_eq i "204091" || str_eq i "131805")
      (str_eq i "204182" || str_eq i "131806")

-- ===== src/Wingchun/Prices.antt =====
-- Comparisons of prices with a tolerance, include/kungfu/wingchun/common.h.
use kungfu_cpp.Base.{Bool, not, ◌&&◌, ◌||◌}
use kungfu_cpp.Base.Double.{Double}

module _ (d : Double) where
  open d use {Val, lit, lt, sub, mul, neg, abs}

  abbrev pub zero_value : Val
  zero_value = lit 0 0

  abbrev pub epsilon : Val
  epsilon = lit 1 6

  abbrev pub double_max : Val
  double_max = lit 10_000_000_000_000_000 0

  unfoldable pub is_greater : Val → Val → Bool
  is_greater x y = lt epsilon (sub x y)

  unfoldable pub is_less : Val → Val → Bool
  is_less x y = lt (sub x y) (mul epsilon (neg (lit 1 0)))

  -- std::abs(x - y) <= EPSILON * std::abs(x)
  abbrev pub is_equal : Val → Val → Bool
  is_equal x y = not (lt (mul epsilon (abs x)) (abs (sub x y)))

  unfoldable pub is_greater_equal : Val → Val → Bool
  unfolding is_greater
  is_greater_equal x y = is_greater x y || is_equal x y

  unfoldable pub is_less_equal : Val → Val → Bool
  unfolding is_less
  is_less_equal x y = is_less x y || is_equal x y

  unfoldable pub is_zero : Val → Bool
  is_zero x = is_equal x zero_value

  unfoldable pub is_too_large : Val → Bool
  unfolding is_greater
  is_too_large x = is_greater x double_max

  unfoldable pub is_valid_price : Val → Bool
  unfolding is_less_equal is_too_large
  is_valid_price price = not (is_less_equal price zero_value) && not (is_too_large price)

  -- The conversion of a number to a condition: any value but 0.
  abbrev pub is_nonzero : Val → Bool
  is_nonzero x = lt zero_value x || lt x zero_value

  -- `position.last_price > 0`
  abbrev pub is_positive : Val → Bool
  is_positive x = lt zero_value x

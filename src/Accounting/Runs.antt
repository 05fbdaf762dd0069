-- ===== src/Accounting/Runs.antt =====
-- Runs of the accounting of stocks: what holds of the positions of a book after any calls.
use Prim.Native.String.{String}
use kungfu_cpp.Base.{
  ℕ, ◌≡◌, refl, sym, subst, inl, inr, List, [], ◌∷◌, Option, none, some, Option-cases,
}
use kungfu_cpp.Base.Double.{Double}
use kungfu_cpp.Wingchun.Orders.{OrderInput, Order, Trade}
use kungfu_cpp.Wingchun.Quotes.{Quote}
use kungfu_cpp.Accounting.Book.{Book}
use kungfu_cpp.Accounting.Stock.{apply_order_input, apply_order}
use kungfu_cpp.Accounting.Closing.{apply_trade}
use kungfu_cpp.Accounting.Days.{StockMethod, apply_trading_day, apply_quote}
use kungfu_cpp.Accounting.Bounds.{
  AreBounded, apply_order_input-ResultBounded, apply_order-ResultBounded,
}
use kungfu_cpp.Accounting.Steps.{
  Bounded, apply_trade-ResultBounded, apply_quote-StateBounded, State, StateBounded,
  apply_trading_day-AreBounded,
}

module _ (d : Double) (hash : String → String → ℕ) (number : String → Option ℕ)
    (short_ratio conversion : d.Val) where
  -- The calls of an accounting method.
  pub data Call : Type 0 where
    input : OrderInput d.Val → Call
    order : Order d.Val → Call
    trade : Trade d.Val → Call
    quote : ℕ → Quote d.Val → Call
    trading_day : ℕ → Call

  abbrev with_book :
      StockMethod d hash number short_ratio conversion
      → Option (Book d)
      → Option (State d hash number short_ratio conversion)
  with_book s none = none
  with_book s (some b) = some (s, b)

  unfoldable pub call :
      (ℕ → String)
      → Call
      → State d hash number short_ratio conversion
      → Option (State d hash number short_ratio conversion)
  call strftime (input i) (s, b) =
      with_book s (apply_order_input d hash number short_ratio conversion b i)
  call strftime (order o) (s, b) =
      with_book s (apply_order d hash number short_ratio conversion b o)
  call strftime (trade t) (s, b) =
      with_book s (apply_trade d hash number short_ratio conversion b t)
  call strftime (quote now q) sb = apply_quote d hash number short_ratio conversion now q sb
  call strftime (trading_day day) (s, b) =
      some (s, apply_trading_day d hash number short_ratio conversion strftime day b)

  -- The calls in turn; one that throws leaves no state to go on with.
  unfoldable pub calls :
      (ℕ → String)
      → List Call
      → State d hash number short_ratio conversion
      → Option (State d hash number short_ratio conversion)
  unfolding call
  calls strftime [] sb = some sb
  calls strftime (c ∷ cs) sb = elim (call strftime c sb) [
    | none ↦ none
    | some sb' ↦ calls strftime cs sb'
  ]

  with_book-StateBounded :
      (s : StockMethod d hash number short_ratio conversion) (b : Option (Book d))
      → Bounded d hash number short_ratio conversion b
      → StateBounded d hash number short_ratio conversion (with_book s b)
  with_book-StateBounded s none h = tt
  with_book-StateBounded s (some b) h = h

  call-StateBounded :
      (strftime : ℕ → String) (c : Call) (sb : State d hash number short_ratio conversion)
      → AreBounded d sb.1
      → StateBounded d hash number short_ratio conversion (call strftime c sb)
  unfolding call
  call-StateBounded strftime (input i) (s, b) h =
      with_book-StateBounded s _
        (apply_order_input-ResultBounded d hash number short_ratio conversion b i h)
  call-StateBounded strftime (order o) (s, b) h =
      with_book-StateBounded s _
        (apply_order-ResultBounded d hash number short_ratio conversion b o h)
  call-StateBounded strftime (trade t) (s, b) h =
      with_book-StateBounded s _
        (apply_trade-ResultBounded d hash number short_ratio conversion b t h)
  call-StateBounded strftime (quote now q) (s, b) h =
      apply_quote-StateBounded d hash number short_ratio conversion now q (s, b) h
  call-StateBounded strftime (trading_day day) (s, b) h =
      apply_trading_day-AreBounded d hash number short_ratio conversion strftime day b h

  calls-next :
      (strftime : ℕ → String) (c : Call) (cs : List Call)
      (sb sb' : State d hash number short_ratio conversion)
      → call strftime c sb ≡ some sb'
      → calls strftime (c ∷ cs) sb ≡ calls strftime cs sb'
  unfolding calls
  calls-next strftime c cs sb sb' h = rw (h, calls) refl

  calls-stop :
      (strftime : ℕ → String) (c : Call) (cs : List Call)
      (sb : State d hash number short_ratio conversion)
      → call strftime c sb ≡ none
      → calls strftime (c ∷ cs) sb ≡ none
  unfolding calls
  calls-stop strftime c cs sb h = rw (h, calls) refl

  -- On a book where of no position more of yesterday's volume is frozen than there is and than is
  -- frozen in all, any sequence of order inputs, orders, trades, quotes and trading days leaves all
  -- positions so, unless one of them throws.
  pub calls-StateBounded :
      (strftime : ℕ → String) (cs : List Call) (sb : State d hash number short_ratio conversion)
      → AreBounded d sb.1
      → StateBounded d hash number short_ratio conversion (calls strftime cs sb)
  unfolding calls
  calls-StateBounded strftime [] sb h = h
  calls-StateBounded strftime (c ∷ cs) sb h = elim (Option-cases (call strftime c sb)) [
    | inl n ↦
        subst (StateBounded d hash number short_ratio conversion)
          (sym (calls-stop strftime c cs sb n)) tt
    | inr (sb', n) ↦
        subst (StateBounded d hash number short_ratio conversion)
          (sym (calls-next strftime c cs sb sb' n))
          (calls-StateBounded strftime cs sb' (
            subst (StateBounded d hash number short_ratio conversion) n
              (call-StateBounded strftime c sb h)))
  ]

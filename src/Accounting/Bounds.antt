-- ===== src/Accounting/Bounds.antt =====
-- The frozen volumes of positions stay within bounds.
use Prim.Native.String.{String}
use mathlib.Core.Option.{none-ne-some, some-injective}
use kungfu_cpp.Base.Chains.{◌>>=◌}
use kungfu_cpp.Wingchun.Enums.{InstrumentType}
use kungfu_cpp.Wingchun.Instruments.{get_instrument_type}
use kungfu_cpp.Base.{
  ap, Bool-cases, none, some, Option, List, sym, ◌≤◌, All, subst, ℕ, ◌≡◌, refl, ◌∙◌, inl, inr,
  arith,
}
use kungfu_cpp.Base.Dict.{lookup, Values-lookup, Values-erase}
use kungfu_cpp.Base.Double.{Double}
use kungfu_cpp.Wingchun.Enums.{Direction, Side, long, short, sell, repay_margin, repay_stock}
use kungfu_cpp.Wingchun.Directions.{get_direction, is_final_status}
use kungfu_cpp.Wingchun.Orders.{OrderInput, Order}
use kungfu_cpp.Accounting.Book.{Position, Book, positions, new_position, get_position, put_position}
use kungfu_cpp.Accounting.Stock.{
  input_position, order_position, update_position, know_order, apply_order_input, apply_order,
  finish_order, input_applied, order_finished,
}
use kungfu_cpp.Accounting.Freezing.{
  positions-input_book, positions-order_book, know_order-positions,
}

module _ (d : Double) where
  -- No more of yesterday's volume is frozen than there is, and than is frozen in all.
  abbrev pub IsBounded : Position d → Type 0
  IsBounded p = (p.frozen_yesterday ≤ p.yesterday_volume) × (p.frozen_yesterday ≤ p.frozen_total)

  abbrev pub AllBounded : List (ℕ × Position d) → Type 0
  AllBounded ps = All (λ kp. IsBounded kp.1) ps

  -- Every position of the book is bounded.
  abbrev pub AreBounded : Book d → Type 0
  AreBounded b = (dir : Direction) → All (λ kp. IsBounded kp.1) (positions d dir b)

  module _ (hash : String → String → ℕ) (number : String → Option ℕ) where
    pub get_position-IsBounded :
        (dir : Direction) (e i : String) (b : Book d) (p : Position d)
        → AreBounded b
        → get_position d hash number dir e i b ≡ some p
        → IsBounded p
    unfolding get_position
    get_position-IsBounded dir e i b p h g = known (lookup (hash e i) (positions d dir b)) refl g
      where
        created :
            (t : Option InstrumentType)
            → (t >>= λ t'. some (new_position d hash number dir e i b t')) ≡ some p
            → IsBounded p
        created none q = absurd (none-ne-some p q)
        created (some t) q =
            subst IsBounded (some-injective (new_position d hash number dir e i b t) p q)
              (omega arith, omega arith)

        known :
            (o : Option (Position d))
            → lookup (hash e i) (positions d dir b) ≡ o
            → elim o [
              | none ↦
                  (get_instrument_type number e i >>= λ t.
                  some (new_position d hash number dir e i b t))
              | some q ↦ some q
            ]
              ≡ some p
            → IsBounded p
        known none n q = created (get_instrument_type number e i) q
        known (some r) n q =
            Values-lookup IsBounded (hash e i) (positions d dir b) p (h dir)
              (n ∙ ap some (some-injective r p q))

    pub put_position-AreBounded :
        (dir : Direction) (e i : String) (p : Position d) (b : Book d)
        → IsBounded p
        → AreBounded b
        → AreBounded (put_position d hash number dir e i p b)
    unfolding put_position
    put_position-AreBounded long e i p b v h long =
        (v, Values-erase IsBounded (hash e i) b.long_positions (h long))
    put_position-AreBounded long e i p b v h short = h short
    put_position-AreBounded short e i p b v h long = h long
    put_position-AreBounded short e i p b v h short =
        (v, Values-erase IsBounded (hash e i) b.short_positions (h short))

  module _ (hash : String → String → ℕ) (number : String → Option ℕ)
      (short_ratio conversion : d.Val) where
    input_position-IsBounded :
        (side : Side) (n : ℕ) (p : Position d)
        → IsBounded p
        → IsBounded (input_position d hash number short_ratio conversion side n p)
    unfolding input_position
    input_position-IsBounded sell n p h = ground (arith, h.0, h.1)
    input_position-IsBounded repay_margin n p h = ground (arith, h.0, h.1)
    input_position-IsBounded repay_stock n p h = ground (arith, h.0, h.1)
    input_position-IsBounded _ n p h = h

    order_position-IsBounded :
        (side : Side) (n : ℕ) (p : Position d)
        → IsBounded p
        → IsBounded (order_position d hash number short_ratio conversion side n p)
    unfolding order_position
    order_position-IsBounded sell n p h = ground (arith, h.0, h.1)
    order_position-IsBounded repay_margin n p h = ground (arith, h.0, h.1)
    order_position-IsBounded repay_stock n p h = ground (arith, h.0, h.1)
    order_position-IsBounded _ n p h = h

    pub update_position-IsBounded :
        (p : Position d)
        → IsBounded p
        → IsBounded (update_position d hash number short_ratio conversion p)
    update_position-IsBounded p h = ground (arith, h.0, h.1)

    input_applied-AreBounded :
        (dir : Direction) (b : Book d) (input : OrderInput d.Val) (p : Position d)
        → AreBounded b
        → IsBounded p
        → AreBounded (input_applied d hash number short_ratio conversion dir b input p)
    unfolding input_applied
    input_applied-AreBounded dir b input p h v = λ dir'.
        let p' = input_position d hash number short_ratio conversion input.side input.volume p in
        subst AllBounded
          (sym (positions-input_book d hash number short_ratio conversion dir' input.side _ _ _))
          (put_position-AreBounded hash number dir input.exchange_id input.instrument_id p' b
            (input_position-IsBounded input.side input.volume p v) h dir')

    order_finished-AreBounded :
        (dir : Direction) (b : Book d) (o : Order d.Val) (p : Position d)
        → AreBounded b
        → IsBounded p
        → AreBounded (order_finished d hash number short_ratio conversion dir b o p)
    unfolding order_finished
    order_finished-AreBounded dir b o p h v = λ dir'.
        let p' = order_position d hash number short_ratio conversion o.side o.volume_left p in
        subst AllBounded
          (sym (positions-order_book d hash number short_ratio conversion dir' o.side _ _ _ _))
          (put_position-AreBounded hash number dir o.exchange_id o.instrument_id
            (update_position d hash number short_ratio conversion p') b
            (update_position-IsBounded p' (order_position-IsBounded o.side o.volume_left p v)) h
            dir')

    -- What may have failed leaves a book with bounded positions, if it leaves one.
    abbrev pub ResultBounded : Option (Book d) → Type 0
    ResultBounded none = Unit {0}
    ResultBounded (some b) = AreBounded b

    pub ResultBounded-bind :
        {A : Type 0} (o : Option A) (f : A → Option (Book d))
        → ((a : A) → o ≡ some a → ResultBounded (f a))
        → ResultBounded (o >>= f)
    ResultBounded-bind none f h = tt
    ResultBounded-bind (some a) f h = h a refl

    -- On a book where of no position more of yesterday's volume is frozen than there is and than is
    -- frozen in all, an order input leaves all positions so, unless it throws.
    pub apply_order_input-ResultBounded :
        (b : Book d) (input : OrderInput d.Val)
        → AreBounded b
        → ResultBounded (apply_order_input d hash number short_ratio conversion b input)
    unfolding apply_order_input
    apply_order_input-ResultBounded b input h =
        ResultBounded-bind (get_direction input.instrument_type input.side input.offset) _ (λ dir _.
          ResultBounded-bind
            (get_position d hash number dir input.exchange_id input.instrument_id b) _
            (λ p e. input_applied-AreBounded dir b input p h (
              get_position-IsBounded hash number dir input.exchange_id input.instrument_id b p h
                e)))

    know_order-AreBounded :
        (b : Book d) (o : Order d.Val)
        → AreBounded b
        → AreBounded (know_order d hash number short_ratio conversion o b)
    know_order-AreBounded b o h = λ dir.
        subst AllBounded (sym (know_order-positions d hash number short_ratio conversion dir o b))
          (h dir)

    finish_order-ResultBounded :
        (b : Book d) (o : Order d.Val)
        → AreBounded b
        → ResultBounded (finish_order d hash number short_ratio conversion b o)
    unfolding finish_order
    finish_order-ResultBounded b o h =
        ResultBounded-bind (get_direction o.instrument_type o.side o.offset) _ (λ dir _.
          ResultBounded-bind (get_position d hash number dir o.exchange_id o.instrument_id b) _
            (λ p e.
              order_finished-AreBounded dir b o p h
                (get_position-IsBounded hash number dir o.exchange_id o.instrument_id b p h e)))

    -- On a book where of no position more of yesterday's volume is frozen than there is and than is
    -- frozen in all, an order in whatever state leaves all positions so, unless it throws.
    pub apply_order-ResultBounded :
        (b : Book d) (o : Order d.Val)
        → AreBounded b
        → ResultBounded (apply_order d hash number short_ratio conversion b o)
    unfolding apply_order
    apply_order-ResultBounded b o h =
        let v = know_order-AreBounded b o h in
        elim (Bool-cases (is_final_status o.status)) [
          | inr f ↦ rw f v
          | inl t ↦
              rw t (
                finish_order-ResultBounded (know_order d hash number short_ratio conversion o b) o
                  v)
        ]

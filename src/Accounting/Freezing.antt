-- ===== src/Accounting/Freezing.antt =====
-- The position of an order, when its input is applied and when it ends.
use Prim.Native.String.{String}
use kungfu_cpp.Base.{Option, ℕ, ◌≡◌, refl, ◌∙◌, ap, inl, inr, true, some, arith, Option-cases}
use kungfu_cpp.Base.Dict.{lookup, lookup-assign}
use kungfu_cpp.Base.Double.{Double}
use kungfu_cpp.Wingchun.Enums.{Direction, Side, long, short, buy}
use kungfu_cpp.Wingchun.Directions.{get_direction, is_final_status}
use kungfu_cpp.Wingchun.Orders.{OrderInput, Order}
use kungfu_cpp.Accounting.Book.{Position, Book, positions, get_position, put_position}
use kungfu_cpp.Accounting.Stock.{
  Rates, input_position, input_book, order_position, order_book, update_position, know_order,
  apply_order, finish_order, input_applied, order_finished,
}

module _ (d : Double) (hash : String → String → ℕ) (number : String → Option ℕ)
    (short_ratio conversion : d.Val) where
  pub positions-input_book :
      (dir : Direction) (side : Side) (x : d.Val) (r : Rates d hash number short_ratio conversion)
      (b : Book d)
      → positions d dir (input_book d hash number short_ratio conversion side x r b)
        ≡ positions d dir b
  unfolding input_book
  positions-input_book long buy x r b = refl
  positions-input_book long _ x r b = refl
  positions-input_book short buy x r b = refl
  positions-input_book short _ x r b = refl

  pub positions-order_book :
      (dir : Direction) (side : Side) (x y : d.Val) (r : Rates d hash number short_ratio conversion)
      (b : Book d)
      → positions d dir (order_book d hash number short_ratio conversion side x y r b)
        ≡ positions d dir b
  unfolding order_book
  positions-order_book long buy x y r b = refl
  positions-order_book long _ x y r b = refl
  positions-order_book short buy x y r b = refl
  positions-order_book short _ x y r b = refl

  pub lookup-put_position :
      (dir : Direction) (e i : String) (p : Position d) (b : Book d)
      → lookup (hash e i) (positions d dir (put_position d hash number dir e i p b)) ≡ some p
  unfolding put_position
  lookup-put_position long e i p b =
      lookup-assign (hash e i) (hash e i) p b.long_positions ∙ ground arith
  lookup-put_position short e i p b =
      lookup-assign (hash e i) (hash e i) p b.short_positions ∙ ground arith

  pub get_position-lookup :
      (dir : Direction) (e i : String) (p : Position d) (b : Book d)
      → lookup (hash e i) (positions d dir b) ≡ some p
      → get_position d hash number dir e i b ≡ some p
  unfolding get_position
  get_position-lookup dir e i p b h = rw (h, get_position) refl

  pub know_order-positions :
      (dir : Direction) (o : Order d.Val) (b : Book d)
      → positions d dir (know_order d hash number short_ratio conversion o b) ≡ positions d dir b
  know_order-positions long o b = elim (Option-cases (lookup o.order_id b.orders)) [
    | inl n ↦ rw (n, know_order) refl
    | inr (k, n) ↦ rw (n, know_order) refl
  ]
  know_order-positions short o b = elim (Option-cases (lookup o.order_id b.orders)) [
    | inl n ↦ rw (n, know_order) refl
    | inr (k, n) ↦ rw (n, know_order) refl
  ]

  pub lookup-input_applied :
      (dir : Direction) (b : Book d) (input : OrderInput d.Val) (p : Position d)
      → lookup
          (hash input.exchange_id input.instrument_id)
          (positions d dir (input_applied d hash number short_ratio conversion dir b input p))
        ≡ some (input_position d hash number short_ratio conversion input.side input.volume p)
  unfolding input_applied
  lookup-input_applied dir b input p =
      ap (lookup (hash input.exchange_id input.instrument_id))
        (positions-input_book dir input.side _ _ _)
      ∙ lookup-put_position dir input.exchange_id input.instrument_id _ b

  pub lookup-order_finished :
      (dir : Direction) (b : Book d) (o : Order d.Val) (p : Position d)
      → lookup
          (hash o.exchange_id o.instrument_id)
          (positions d dir (order_finished d hash number short_ratio conversion dir b o p))
        ≡ some (
            update_position d hash number short_ratio conversion
              (order_position d hash number short_ratio conversion o.side o.volume_left p))
  unfolding order_finished
  lookup-order_finished dir b o p =
      ap (lookup (hash o.exchange_id o.instrument_id)) (positions-order_book dir o.side _ _ _ _)
      ∙ lookup-put_position dir o.exchange_id o.instrument_id _ b

  pub finish_order-eq :
      (b : Book d) (o : Order d.Val) (dir : Direction) (p : Position d)
      → get_direction o.instrument_type o.side o.offset ≡ some dir
      → get_position d hash number dir o.exchange_id o.instrument_id b ≡ some p
      → finish_order d hash number short_ratio conversion b o
        ≡ some (order_finished d hash number short_ratio conversion dir b o p)
  unfolding finish_order
  finish_order-eq b o dir p h k = rw (h, k) refl

  pub apply_order-eq :
      (b : Book d) (o : Order d.Val)
      → is_final_status o.status ≡ true
      → apply_order d hash number short_ratio conversion b o
        ≡ finish_order d hash number short_ratio conversion
            (know_order d hash number short_ratio conversion o b)
            o
  unfolding apply_order
  apply_order-eq b o h = rw (h, apply_order) refl

-- ===== src/Sim/OrderBook/Placing.antt =====
-- An order joins its side of the book: the level that it adds to or makes, and the trim to the
-- depth limit.
use kungfu_cpp.Base.{
  suc, ◌+◌, ◌≤◌, ◌<◌, ◌≡◌, inl, inr, Bool, true, List, [], ◌∷◌, some, arith, length, Bool-cases,
  Option-cases, min, ltb,
}
use kungfu_cpp.Sim.OrderBook.Levels.{Level, insert, find, erase, drop_last}
use kungfu_cpp.Sim.OrderBook.Sorted.{
  StrictWeak, IsSorted, After, insert-All, erase-All, find-All, length-insert-le,
  length-erase_found, insert-IsSorted, erase-IsSorted, drop_last-All, drop_last-IsSorted,
  length-drop_last,
}
use kungfu_cpp.Sim.OrderBook.{max_level_qty, max_depth, add_level, trim}
use kungfu_cpp.Sim.OrderBook.Matching.{depth_qty, IsPositive}

depth_qty-drop_last-le :
    {P : Type 0} (xs : List (Level P)) → depth_qty (drop_last xs) ≤ depth_qty xs
unfolding drop_last
depth_qty-drop_last-le [] = omega arith
depth_qty-drop_last-le (x ∷ []) = omega arith
depth_qty-drop_last-le (x ∷ y ∷ ys) = omega (arith, depth_qty-drop_last-le (y ∷ ys))

module _ {P : Type 0} (before : P → P → Bool) where
  depth_qty-insert-le :
      (v : Level P) (xs : List (Level P)) → depth_qty (insert before v xs) ≤ v.qty + depth_qty xs
  unfolding insert
  depth_qty-insert-le v [] = omega arith
  depth_qty-insert-le v (x ∷ xs) = ground (arith, depth_qty-insert-le v xs)

  depth_qty-erase :
      (p : P) (xs : List (Level P)) (v : Level P)
      → find before p xs ≡ some v
      → depth_qty (erase before p xs) + v.qty ≡ depth_qty xs
  unfolding find erase
  depth_qty-erase p [] v e = absurd (cc)
  depth_qty-erase p (x ∷ xs) v e = ground (arith, depth_qty-erase p xs v)

  -- The found level is found again by its own price.
  find_again :
      StrictWeak before
      → (p : P) (xs : List (Level P)) (v : Level P) → IsSorted before xs
      → find before p xs ≡ some v
      → find before v.price xs ≡ some v
  unfolding find
  find_again order p [] v s e = absurd (cc)
  find_again order p (x ∷ xs) v s e = elim (Bool-cases (before p x.price)) [
    | inl a ↦ absurd (ground (arith, a))
    | inr a ↦ elim (Bool-cases (before x.price p)) [
      | inl b ↦
          let e' : find before p xs ≡ some v = rw (a, b) at e in
          let ahead : before x.price v.price ≡ true =
            find-All before (After before x.price) p xs v s.0 e' in
          ground (
            arith,
            find_again order p xs v s.1 e',
            ahead,
            order.trans v.price x.price v.price,
            order.irrefl v.price,
          )
      | inr b ↦ ground (arith, a, b, order.irrefl x.price)
    ]
  ]

  -- What joining a side does to it.
  pub record Joined (v : Level P) (xs ys : List (Level P)) : Type 0 where
    pub sorted : IsSorted before ys
    pub positive : IsPositive ys
    pub length_le : length ys ≤ suc (length xs)
    pub qty_le : depth_qty ys ≤ depth_qty xs + v.qty

  module _ (order : StrictWeak before) (v : Level P) (xs : List (Level P)) where
    pub add_level-Joined :
        IsSorted before xs → IsPositive xs → 0 < v.qty → Joined v xs (add_level before v xs)
    unfolding add_level
    add_level-Joined s p h = elim (Option-cases (find before v.price xs)) [
      | inl e ↦
          rw (e, add_level)
            (record {
              sorted = insert-IsSorted before order v xs s;
              positive = insert-All before (λ w. 0 < w.qty) v xs h p;
              length_le = length-insert-le before v xs;
              qty_le = omega (arith, depth_qty-insert-le v xs);
            })
      | inr (old, e) ↦
          let again = find_again order v.price xs old s e in
          let merged : Level P = record old {
            qty = min (old.qty + v.qty) max_level_qty;
            order_count = old.order_count + 1;
          } in
          rw (e, add_level)
            (record {
              sorted =
                  insert-IsSorted before order merged _
                    (erase-IsSorted before order old.price xs s);
              positive =
                  insert-All before (λ w. 0 < w.qty) merged _ (omega arith)
                    (erase-All before (λ w. 0 < w.qty) old.price xs p);
              length_le = omega (
                arith,
                length-insert-le before merged (erase before old.price xs),
                length-erase_found before old.price old.price xs old again,
              );
              qty_le = omega (
                arith,
                depth_qty-insert-le merged (erase before old.price xs),
                depth_qty-erase old.price xs old again,
              );
            })
    ]

    pub trim-Joined :
        IsSorted before xs
        → IsPositive xs
        → 0 < v.qty
        → length xs ≤ max_depth
        → Joined v xs (trim (add_level before v xs))
          × (length (trim (add_level before v xs)) ≤ max_depth)
    unfolding trim
    trim-Joined s p h b =
        let ys = add_level before v xs in
        let j : Joined v xs ys = add_level-Joined s p h in
        elim (Bool-cases (ltb max_depth (length ys))) [
          | inl deep ↦ rw deep (
            record {
              sorted = drop_last-IsSorted before ys j.sorted;
              positive = drop_last-All (λ w. 0 < w.qty) ys j.positive;
              length_le = omega (arith, j.length_le, length-drop_last ys);
              qty_le = omega (arith, j.qty_le, depth_qty-drop_last-le ys);
            },
            omega (arith, j.length_le, length-drop_last ys),
          )
          | inr fits ↦ rw fits (j, ground (arith, fits))
        ]

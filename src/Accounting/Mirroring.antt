-- ===== src/Accounting/Mirroring.antt =====
-- A book that mirrors the positions of another, `Book::mirror_position_from` of
-- src/wingchun/book/book.cpp.
use Prim.Native.String.{String}
use kungfu_cpp.Base.{
  ℕ, ◌≡◌, refl, sym, ◌∙◌, ap, subst, List, [], ◌∷◌, Option, none, some, if◌then◌else◌, ◌==◌, arith,
  inl, inr, Option-cases,
}
use kungfu_cpp.Base.Dict.{lookup, lookup-assign}
use kungfu_cpp.Base.Double.{Double}
use kungfu_cpp.Wingchun.Enums.{Direction, long, short}
use kungfu_cpp.Wingchun.Instruments.{HasType}
use kungfu_cpp.Accounting.Book.{Position, Book, positions, new_position, get_position, put_position}
use kungfu_cpp.Accounting.Holdings.{mirror_positions, mirror_position_from}

module _ (d : Double) (hash : String → String → ℕ) (number : String → Option ℕ) where
  get_position-some :
      (dir : Direction) (e i : String) (b : Book d)
      → HasType number e i
      → (p : Position d) × (get_position d hash number dir e i b ≡ some p)
  unfolding get_position
  get_position-some dir e i b (t, h) = elim (Option-cases (lookup (hash e i) (positions d dir b))) [
    | inl n ↦ (new_position d hash number dir e i b t, rw (get_position, n, h) refl)
    | inr (p, n) ↦ (p, rw (get_position, n) refl)
  ]

  -- The positions of one side as a book keeps them: each once, under the hash of its instrument, which
  -- has a type.
  abbrev pub IsKeyed : Direction → List (ℕ × Position d) → Type 0
  IsKeyed dir [] = Unit {0}
  IsKeyed dir ((k, p) ∷ ps) =
      (k ≡ hash p.exchange_id p.instrument_id)
      × (p.direction ≡ dir)
      × (lookup k ps ≡ none)
      × HasType number p.exchange_id p.instrument_id
      × IsKeyed dir ps

  abbrev opposite : Direction → Direction
  opposite long = short
  opposite short = long

  lookup-put_position :
      (dir : Direction) (k : ℕ) (e i : String) (p : Position d) (b : Book d)
      → lookup k (positions d dir (put_position d hash number dir e i p b))
        ≡ (if hash e i == k then some p else lookup k (positions d dir b))
  unfolding put_position
  lookup-put_position long k e i p b = lookup-assign (hash e i) k p b.long_positions
  lookup-put_position short k e i p b = lookup-assign (hash e i) k p b.short_positions

  put_position-opposite :
      (dir : Direction) (e i : String) (p : Position d) (b : Book d)
      → positions d (opposite dir) (put_position d hash number dir e i p b)
        ≡ positions d (opposite dir) b
  unfolding put_position
  put_position-opposite long e i p b = refl
  put_position-opposite short e i p b = refl

  abbrev or_else : Option (Position d) → Option (Position d) → Option (Position d)
  or_else none y = y
  or_else (some p) y = some p

  put_first :
      (dir : Direction) (k j : ℕ) (p : Position d) (b : Book d)
      → j ≡ hash p.exchange_id p.instrument_id
      → p.direction ≡ dir
      → lookup k (
          positions d dir
            (put_position d hash number p.direction p.exchange_id p.instrument_id p b))
        ≡ (if j == k then some p else lookup k (positions d dir b))
  put_first dir k j p b e g =
      subst
        (λ x.
          lookup k
            (positions d dir (put_position d hash number x p.exchange_id p.instrument_id p b))
          ≡ (if j == k then some p else lookup k (positions d dir b)))
        (sym g)
        (lookup-put_position dir k p.exchange_id p.instrument_id p b
          ∙ ap (λ x. if x == k then some p else lookup k (positions d dir b)) (sym e))

  -- The later of two positions under one key counts, and there is no later one.
  or_else-first :
      (j k : ℕ) (p : Position d) (found : Option (Position d)) (old : Option (Position d))
      → (j ≡ k → found ≡ none)
      → or_else found (if j == k then some p else old)
        ≡ or_else (if j == k then some p else found) old
  or_else-first j k p none old h = ground arith
  or_else-first j k p (some q) old h = ground (arith, h)

  mirror_positions-cons :
      (k : ℕ) (p old : Position d) (ps : List (ℕ × Position d)) (b : Book d)
      → get_position d hash number p.direction p.exchange_id p.instrument_id b ≡ some old
      → mirror_positions d hash number ((k, p) ∷ ps) b
        ≡ mirror_positions d hash number ps
            (put_position d hash number p.direction p.exchange_id p.instrument_id p b)
  unfolding mirror_positions
  mirror_positions-cons k p old ps b h = rw (h, mirror_positions) refl

  -- `b'` is `b` with the positions `ps` of the side `dir` over its own.
  abbrev Covers : Direction → List (ℕ × Position d) → Book d → Book d → Type 0
  Covers dir ps b b' =
      ((k : ℕ)
        → lookup k (positions d dir b') ≡ or_else (lookup k ps) (lookup k (positions d dir b)))
      × (positions d (opposite dir) b' ≡ positions d (opposite dir) b)

  Covers-cons :
      (dir : Direction) (j : ℕ) (p : Position d) (ps : List (ℕ × Position d)) (b b' : Book d)
      → j ≡ hash p.exchange_id p.instrument_id
      → p.direction ≡ dir
      → lookup j ps ≡ none
      → Covers dir ps (put_position d hash number p.direction p.exchange_id p.instrument_id p b) b'
      → Covers dir ((j, p) ∷ ps) b b'
  unfolding lookup
  Covers-cons dir j p ps b b' e g n h = (
    λ k.
        h.0 k
        ∙ ap (or_else (lookup k ps)) (put_first dir k j p b e g)
        ∙ or_else-first j k p (lookup k ps) (lookup k (positions d dir b))
            (λ q. subst (λ x. lookup x ps ≡ none) q n),
    h.1
        ∙ subst
            (λ x.
              positions d (opposite dir)
                (put_position d hash number x p.exchange_id p.instrument_id p b)
              ≡ positions d (opposite dir) b)
            (sym g) (put_position-opposite dir p.exchange_id p.instrument_id p b),
  )

  mirror_positions-Covers :
      (dir : Direction) (ps : List (ℕ × Position d)) (b : Book d)
      → IsKeyed dir ps
      → (b' : Book d) × (mirror_positions d hash number ps b ≡ some b') × Covers dir ps b b'
  unfolding mirror_positions lookup
  mirror_positions-Covers dir [] b h = (b, refl, (λ k. refl, refl))
  mirror_positions-Covers dir ((j, p) ∷ ps) b (e, g, n, t, h) =
      let (old, f) = get_position-some p.direction p.exchange_id p.instrument_id b t in
      let (b', m, v) =
        mirror_positions-Covers dir ps
          (put_position d hash number p.direction p.exchange_id p.instrument_id p b) h in
      (b', mirror_positions-cons j p old ps b f ∙ m, Covers-cons dir j p ps b b' e g n v)

  or_else-none : (x : Option (Position d)) → or_else x none ≡ x
  or_else-none none = refl
  or_else-none (some p) = refl

  -- A book that mirrors another, in which every position is kept once, on its side and under the hash
  -- of its instrument, and every instrument has a type: nothing throws, and the book has exactly the
  -- positions of the other, on both sides and whatever it held before.
  pub lookup-mirror_position_from :
      (source b : Book d)
      → IsKeyed long source.long_positions
      → IsKeyed short source.short_positions
      → (b' : Book d) × (mirror_position_from d hash number source b ≡ some b')
        × ((dir : Direction) (k : ℕ)
            → lookup k (positions d dir b') ≡ lookup k (positions d dir source))
  unfolding mirror_position_from lookup
  lookup-mirror_position_from source b hl hs =
      let empty : Book d = record b { long_positions = []; short_positions = [] } in
      let (b1, e1, (c1, o1)) = mirror_positions-Covers long source.long_positions empty hl in
      let (b2, e2, (c2, o2)) = mirror_positions-Covers short source.short_positions b1 hs in
      (
        b2,
        rw (e1) e2,
        λ dir. λ k.
            elim dir as (λ x. lookup k (positions d x b2) ≡ lookup k (positions d x source)) [
              | long ↦ ap (lookup k) o2 ∙ c1 k ∙ or_else-none (lookup k source.long_positions)
              | short ↦
                  c2 k
                  ∙ ap (λ ps. or_else (lookup k source.short_positions) (lookup k ps)) o1
                  ∙ or_else-none (lookup k source.short_positions)
            ],
      )

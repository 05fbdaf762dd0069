-- ===== src/Journal/Seeking.antt =====
-- A writer that opens a journal goes on where the last one stopped.
use mathlib.Core.List.{reverse, reverse-cons}
use mathlib.Core.Option.{some-injective, none-ne-some}
use kungfu_cpp.Base.{
  Option-cases, ltb, ◌⊎◌, ℕ, suc, ◌+◌, ◌-◌, ◌≤◌, ◌<◌, ◌≡◌, refl, sym, ◌∙◌, ap, ap₂, subst, Bool,
  true, false, ◌&&◌, List, [], ◌∷◌, ◌++◌, some, arith, length, length-append, leb, ◌==◌,
  if◌then◌else◌, Bool-cases, inl, inr, All, All-append,
}
use kungfu_cpp.Journal.Frame.{Frame, page_header_size, has_data}
use kungfu_cpp.Journal.Page.{
  Page, Disk, Result, ok, err, load, newest_before, JournalError, find_page_id, begin_time,
}
use kungfu_cpp.Journal.Cursor.{Journal, current_frame, next, seek_frames}
use kungfu_cpp.Journal.Layout.{Laid, IsOpen, IsClosed, Closed, stream}
use kungfu_cpp.Journal.Steps.{cursor, current_frame-eq, next-entry, next-mark, first_page}

abbrev pub IsOld : ℕ → Frame → Type 0
IsOld time f = f.gen_time ≤ time

pub All-tail : (P : Frame → Type 0) (xs ys : List Frame) → All P (xs ++ ys) → All P ys
All-tail P [] ys h = h
All-tail P (x ∷ xs) ys h = All-tail P xs ys h.1

All-head : (P : Frame → Type 0) (xs ys : List Frame) → All P (xs ++ ys) → All P xs
All-head P [] ys h = tt
All-head P (x ∷ xs) ys h = (h.0, All-head P xs ys h.1)

All-reverse : (P : ℕ → Type 0) (xs : List ℕ) → All P xs → All P (reverse xs)
All-reverse P [] h = tt
All-reverse P (x ∷ xs) h =
    subst (All P) (sym (reverse-cons x xs))
      (All-append P (reverse xs) (x ∷ []) (All-reverse P xs h.1) (h.0, tt))

Result-cases {ℓ} :
    {A : Type ℓ} (r : Result A) → ((a : A) × (r ≡ ok a)) ⊎ ((e : JournalError) × (r ≡ err e))
Result-cases (ok a) = inl (a, refl)
Result-cases (err e) = inr (e, refl)

newest_before-ok :
    (size : ℕ) (disk : Disk) (time id : ℕ) (ids : List ℕ) (p : Page)
    → load size false (disk id) ≡ ok p
    → newest_before size disk time (id ∷ ids)
      ≡ (if ltb (begin_time p) time then some id else newest_before size disk time ids)
unfolding newest_before
newest_before-ok size disk time id ids p e = rw (e, newest_before) refl

newest_before-err :
    (size : ℕ) (disk : Disk) (time id : ℕ) (ids : List ℕ) (e : JournalError)
    → load size false (disk id) ≡ err e
    → newest_before size disk time (id ∷ ids) ≡ newest_before size disk time ids
unfolding newest_before
newest_before-err size disk time id ids x e = rw (e, newest_before) refl

-- The page that a seek starts at is one that the locator lists.
newest_before-mem :
    (size : ℕ) (disk : Disk) (time : ℕ) (P : ℕ → Type 0) (ids : List ℕ) (id : ℕ)
    → All P ids
    → newest_before size disk time ids ≡ some id
    → P id
unfolding newest_before
newest_before-mem size disk time P [] id h e = absurd (none-ne-some id e)
newest_before-mem size disk time P (x ∷ ids) id h e =
    elim (Result-cases (load size false (disk x))) [
      | inl (p, l) ↦
          let n = sym (newest_before-ok size disk time x ids p l) ∙ e in
          elim (Bool-cases (ltb (begin_time p) time)) [
            | inl t ↦
                subst P
                  (some-injective x id
                    (ap (λ b. if b then some x else newest_before size disk time ids) (sym t) ∙ n))
                  h.0
            | inr f ↦
                newest_before-mem size disk time P ids id h.1
                  (ap (λ b. if b then some x else newest_before size disk time ids) (sym f) ∙ n)
          ]
      | inr (x', l) ↦
          newest_before-mem size disk time P ids id h.1
            (sym (newest_before-err size disk time x ids x' l) ∙ e)
    ]

pub find_page_id-mem :
    (size : ℕ) (disk : Disk) (time : ℕ) (P : ℕ → Type 0) (first : ℕ) (ids : List ℕ)
    → All P (first ∷ ids)
    → P (find_page_id size disk (first ∷ ids) time)
unfolding find_page_id
find_page_id-mem size disk time P first ids h = elim (Bool-cases (time == 0)) [
  | inl z ↦ rw z h.0
  | inr z ↦ rw z (elim (Option-cases (newest_before size disk time (reverse (first ∷ ids)))) [
    | inr (id, e) ↦ rw e (
        newest_before-mem size disk time P (reverse (first ∷ ids)) id
          (All-reverse P (first ∷ ids) h) e)
    | inl e ↦ rw e h.0
  ])
]

module _ (size : ℕ) (writable : Bool) (time : ℕ) (disk : Disk) where
  step_frames :
      (fuel : ℕ) (j j' : Journal) (f : Frame)
      → current_frame disk j ≡ f
      → 0 < f.length
      → 0 < f.msg_type
      → IsOld time f
      → next size writable disk j ≡ ok (disk, j')
      → seek_frames size writable (suc fuel) time disk j
        ≡ seek_frames size writable fuel time disk j'
  unfolding seek_frames
  step_frames fuel j j' f e long typed old n =
      let t : (has_data (current_frame disk j) && leb (current_frame disk j).gen_time time) ≡ true =
        ground (arith, e, long, typed, old) in
      rw (t, n) refl

  -- Seeking over the frames of one page.
  seek_page :
      (fuel id : ℕ) (p : Page) (fs : List Frame) (a e nb : ℕ)
      → disk id ≡ some p
      → Laid p.frames a fs e
      → All (IsOld time) fs
      → (n : ℕ) × (seek_frames size writable (length fs + fuel) time disk (cursor id a nb)
          ≡ seek_frames size writable fuel time disk (cursor id e n))
  seek_page fuel id p [] a e nb s h old =
      let z : 0 + fuel ≡ fuel = omega arith in
      (nb, ap₂ (λ k b. seek_frames size writable k time disk (cursor id b nb)) z h)
  seek_page fuel id p (f ∷ fs) a e nb s h old =
      let c = current_frame-eq size writable disk id p a nb s ∙ h.0 in
      let (n, q) = seek_page fuel id p fs (a + f.length) e (nb + 1) s h.2 old.1 in
      let z : suc (length fs) + fuel ≡ suc (length fs + fuel) = omega arith in
      let m = next-entry size writable disk (cursor id a nb) f c h.1.inner in
      (
        n,
        ap (λ k. seek_frames size writable k time disk (cursor id a nb)) z
            ∙ step_frames (length fs + fuel) (cursor id a nb) (cursor id (a + f.length) (nb + 1)) f
                c h.1.long h.1.typed old.0 m
            ∙ q,
      )

  seek_end :
      (fuel id : ℕ) (p : Page) (a nb : ℕ)
      → disk id ≡ some p
      → (p.frames a).length ≡ 0
      → seek_frames size writable (suc fuel) time disk (cursor id a nb) ≡ ok (disk, cursor id a nb)
  unfolding seek_frames
  seek_end fuel id p a nb s e =
      let t : (has_data (current_frame disk (cursor id a nb))
            && leb (current_frame disk (cursor id a nb)).gen_time time)
          ≡ false =
        ground (arith, current_frame-eq size writable disk id p a nb s, e) in
      rw t refl

  -- From the first frame of a page on, through frames that are old, to where the next frame goes.
  pub seek_stream :
      (fuel id : ℕ) (closed : List (List Frame × Frame)) (fs : List Frame) (p : Page) (a : ℕ)
      → Closed size disk id closed
      → disk (id + length closed) ≡ some p
      → IsOpen size p fs a
      → All (IsOld time) (stream closed fs)
      → length (stream closed fs) < fuel
      → (n : ℕ) × (seek_frames size writable fuel time disk (cursor id page_header_size 0)
          ≡ ok (disk, cursor (id + length closed) a n))
  seek_stream fuel id [] fs p a c s o old long =
      let k = fuel - length fs - 1 in
      let z : fuel ≡ length fs + suc k = omega (arith, long) in
      let i : id + 0 ≡ id = omega arith in
      let s' : disk id ≡ some p = subst (λ k. disk k ≡ some p) i s in
      let (n, e) = seek_page (suc k) id p fs page_header_size a 0 s' o.laid old in
      (
        n,
        ap (λ k. seek_frames size writable k time disk (cursor id page_header_size 0)) z
            ∙ e
            ∙ seek_end k id p a n s' o.clear
            ∙ ap (λ k. ok (disk, cursor k a n)) (sym i),
      )
  seek_stream fuel id ((gs, mark) ∷ rest) fs p a c s o old long =
      let v : IsClosed size c.0.0 gs mark = c.0.2 in
      let k = fuel - length gs - 1 in
      let l = length-append gs (mark ∷ stream rest fs) in
      let z : fuel ≡ length gs + suc k = omega (arith, long, l) in
      let i : id + 1 + length rest ≡ id + suc (length rest) = omega arith in
      let s' : disk (id + 1 + length rest) ≡ some p = subst (λ i. disk i ≡ some p) (sym i) s in
      let (n, e) =
        seek_page (suc k) id c.0.0 gs page_header_size v.stop 0 c.0.1 v.laid
          (All-head (IsOld time) gs (mark ∷ stream rest fs) old) in
      let old' = All-tail (IsOld time) gs (mark ∷ stream rest fs) old in
      let (q, sq, hq) = first_page size writable disk (id + 1) rest fs p a c.1 s' o in
      let m =
        next-mark size writable disk id c.0.0 q v.stop n c.0.1
          (ap (λ g. g.msg_type) v.mark_eq ∙ v.mark_type) sq hq in
      let step =
        step_frames k (cursor id v.stop n) (cursor (id + 1) page_header_size 0) mark
          (current_frame-eq size writable disk id c.0.0 v.stop n c.0.1 ∙ v.mark_eq) v.mark_long
          (omega (arith, v.mark_type)) old'.0 m in
      let (n', ih) = seek_stream k (id + 1) rest fs p a c.1 s' o old'.1 (omega (arith, long, l)) in
      (
        n',
        ap (λ k. seek_frames size writable k time disk (cursor id page_header_size 0)) z
            ∙ e
            ∙ step
            ∙ ih
            ∙ ap (λ k. ok (disk, cursor k a n')) i,
      )

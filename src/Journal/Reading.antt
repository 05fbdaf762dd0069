-- ===== src/Journal/Reading.antt =====
-- A reader that starts at the first page meets every frame of the journal, in order.
use kungfu_cpp.Base.{
  ℕ, zero, suc, ◌+◌, ◌<◌, ◌≡◌, refl, sym, ◌∙◌, ap, ap₂, append-nil, subst, Bool, List, [], ◌∷◌,
  ◌++◌, some, arith, length, length-append, ◌==◌, if◌then◌else◌,
}
use kungfu_cpp.Journal.Frame.{Frame, page_end_tag, page_header_size, has_data}
use kungfu_cpp.Journal.Page.{Page, Disk, Result, ok, err, ◌>>=◌}
use kungfu_cpp.Journal.Cursor.{Journal, current_frame, next, read}
use kungfu_cpp.Journal.Writer.{Writer}
use kungfu_cpp.Journal.Layout.{
  IsEntry, Laid, IsHeaded, IsOpen, IsClosed, IsJournal, Closed, entries, stream,
}
use kungfu_cpp.Journal.Steps.{cursor, current_frame-eq, next-entry, next-mark, first_page}

bind_unit {ℓ} : {A : Type ℓ} (m : Result A) → (m >>= λ a. ok a) ≡ m
bind_unit (ok a) = refl
bind_unit (err e) = refl

bind_ok {ℓ} :
    {A : Type ℓ} (m : Result A) (f g : A → A)
    → (m >>= (λ a. ok (f a)) >>= λ a. ok (g a)) ≡ (m >>= λ a. ok (g (f a)))
bind_ok (ok a) f g = refl
bind_ok (err e) f g = refl

module _ (size : ℕ) (writable : Bool) where
  read-suc :
      (fuel : ℕ) (disk : Disk) (j : Journal)
      → read size writable (suc fuel) disk j ≡ (
          if has_data (current_frame disk j)
          then (next size writable disk j >>= λ (disk', j').
              read size writable fuel disk' j' >>= λ fs. ok (current_frame disk j ∷ fs))
          else ok [])
  unfolding read
  read-suc fuel disk j = refl

  read-zero : (disk : Disk) (j : Journal) → read size writable 0 disk j ≡ ok []
  unfolding read
  read-zero disk j = refl

  read_entry :
      (fuel : ℕ) (disk : Disk) (id : ℕ) (p : Page) (a nb : ℕ) (f : Frame)
      → disk id ≡ some p
      → p.frames a ≡ f
      → IsEntry f
      → read size writable (suc fuel) disk (cursor id a nb)
        ≡ (read size writable fuel disk (cursor id (a + f.length) (nb + 1)) >>= λ gs. ok (f ∷ gs))
  read_entry fuel disk id p a nb f s e v =
      let c = current_frame-eq size writable disk id p a nb s ∙ e in
      rw
        (
          read-suc fuel disk (cursor id a nb),
          next-entry size writable disk (cursor id a nb) f c v.inner,
        )
        (ground (arith, c, v.long, v.typed))

  read_mark :
      (fuel : ℕ) (disk : Disk) (id : ℕ) (p q : Page) (a nb : ℕ) (f : Frame)
      → disk id ≡ some p
      → p.frames a ≡ f
      → f.msg_type ≡ page_end_tag
      → 0 < f.length
      → disk (id + 1) ≡ some q
      → IsHeaded size q
      → read size writable (suc fuel) disk (cursor id a nb)
        ≡ (read size writable fuel disk (cursor (id + 1) page_header_size 0) >>= λ gs. ok (f ∷ gs))
  read_mark fuel disk id p q a nb f s e t long s' h =
      let c = current_frame-eq size writable disk id p a nb s ∙ e in
      rw
        (
          read-suc fuel disk (cursor id a nb),
          next-mark size writable disk id p q a nb s (ap (λ g. g.msg_type) e ∙ t) s' h,
        )
        (ground (arith, c, t, long))

  -- Reading over the frames of one page.
  read_page :
      (disk : Disk) (id : ℕ) (p : Page) (fs : List Frame) (a e nb fuel : ℕ)
      → disk id ≡ some p
      → Laid p.frames a fs e
      → (n : ℕ) × (read size writable (length fs + fuel) disk (cursor id a nb)
          ≡ (read size writable fuel disk (cursor id e n) >>= λ gs. ok (fs ++ gs)))
  read_page disk id p [] a e nb fuel s h =
      let z : 0 + fuel ≡ fuel = omega arith in
      (
        nb,
        ap₂ (λ k b. read size writable k disk (cursor id b nb)) z h
            ∙ sym (bind_unit (read size writable fuel disk (cursor id e nb))),
      )
  read_page disk id p (f ∷ fs) a e nb fuel s h =
      let (n, q) = read_page disk id p fs (a + f.length) e (nb + 1) fuel s h.2 in
      let z : suc (length fs) + fuel ≡ suc (length fs + fuel) = omega arith in
      (
        n,
        ap (λ k. read size writable k disk (cursor id a nb)) z
            ∙ read_entry (length fs + fuel) disk id p a nb f s h.0 h.1
            ∙ ap (λ m. m >>= λ gs. ok (f ∷ gs)) q
            ∙ bind_ok (read size writable fuel disk (cursor id e n)) (λ gs. fs ++ gs)
                (λ gs. f ∷ gs),
      )

  -- At a frame with no data reading stops.
  read_end :
      (fuel : ℕ) (disk : Disk) (id : ℕ) (p : Page) (a nb : ℕ)
      → disk id ≡ some p
      → (p.frames a).length ≡ 0
      → read size writable fuel disk (cursor id a nb) ≡ ok []
  read_end zero disk id p a nb s e = read-zero disk (cursor id a nb)
  read_end (suc fuel) disk id p a nb s e =
      rw (read-suc fuel disk (cursor id a nb))
        (ground (arith, current_frame-eq size writable disk id p a nb s, e))

  read-stream :
      (disk : Disk) (id : ℕ) (closed : List (List Frame × Frame)) (fs : List Frame) (p : Page)
      (a extra : ℕ)
      → Closed size disk id closed
      → disk (id + length closed) ≡ some p
      → IsOpen size p fs a
      → read size writable (length (stream closed fs) + extra) disk (cursor id page_header_size 0)
        ≡ ok (stream closed fs)
  read-stream disk id [] fs p a extra c s o =
      let s' : disk id ≡ some p = subst (λ k. disk k ≡ some p) (omega arith) s in
      let (n, e) = read_page disk id p fs page_header_size a 0 extra s' o.laid in
      e ∙ rw (read_end extra disk id p a n s' o.clear, append-nil fs) refl
  read-stream disk id ((gs, mark) ∷ rest) fs p a extra c s o =
      let v : IsClosed size c.0.0 gs mark = c.0.2 in
      let k = length (stream rest fs) + extra in
      let z : length (gs ++ (mark ∷ stream rest fs)) + extra ≡ length gs + suc k =
        omega (arith, length-append gs (mark ∷ stream rest fs)) in
      let s' : disk (id + 1 + length rest) ≡ some p =
        subst (λ i. disk i ≡ some p) (omega arith) s in
      let (n, e) = read_page disk id c.0.0 gs page_header_size v.stop 0 (suc k) c.0.1 v.laid in
      let (q, sq, hq) = first_page size writable disk (id + 1) rest fs p a c.1 s' o in
      let m =
        read_mark k disk id c.0.0 q v.stop n mark c.0.1 v.mark_eq v.mark_type v.mark_long sq hq in
      let ih = read-stream disk (id + 1) rest fs p a extra c.1 s' o in
      ap (λ i. read size writable i disk (cursor id page_header_size 0)) z ∙ e ∙ rw (m, ih) refl

-- The frames of a stream that carry data: all but the end marks.
unfoldable pub data_frames : List Frame → List Frame
data_frames [] = []
data_frames (f ∷ fs) = if f.msg_type == page_end_tag then data_frames fs else f ∷ data_frames fs

data_frames-Laid :
    (m : ℕ → Frame) (o : ℕ) (fs gs : List Frame) (e : ℕ)
    → Laid m o fs e
    → data_frames (fs ++ gs) ≡ fs ++ data_frames gs
unfolding data_frames
data_frames-Laid m o [] gs e h = refl
data_frames-Laid m o (f ∷ fs) gs e h =
    ground (arith, data_frames-Laid m (o + f.length) fs gs e h.2, h.1.inner)

data_frames-stream :
    (size : ℕ) (disk : Disk) (id : ℕ) (closed : List (List Frame × Frame)) (fs : List Frame)
    (p : Page) (a : ℕ)
    → Closed size disk id closed
    → IsOpen size p fs a
    → data_frames (stream closed fs) ≡ entries closed fs
unfolding data_frames
data_frames-stream size disk id [] fs p a c o =
    ap data_frames (sym (append-nil fs))
    ∙ data_frames-Laid p.frames page_header_size fs [] a o.laid
    ∙ append-nil fs
data_frames-stream size disk id ((gs, mark) ∷ rest) fs p a c o =
    data_frames-Laid c.0.0.frames page_header_size gs (mark ∷ stream rest fs) c.0.2.stop c.0.2.laid
    ∙ ap (λ l. gs ++ l)
        (ground (arith, c.0.2.mark_type, data_frames-stream size disk (id + 1) rest fs p a c.1 o))

-- A reader that joins at the first page of a journal that is in order and reads long enough meets,
-- in order and once each, the frames of every page with the end marks between them: without the
-- marks they are the entries of the journal. It does so with and without the right to write.
pub read-IsJournal :
    (size first : ℕ) (writable : Bool) (w : Writer) (closed : List (List Frame × Frame))
    (fs : List Frame) (extra : ℕ)
    → IsJournal size first w closed fs
    → (read size writable
          (length (stream closed fs) + extra)
          w.disk
          (record { page_id = some first; address = page_header_size; page_frame_nb = 0 })
        ≡ ok (stream closed fs))
      × (data_frames (stream closed fs) ≡ entries closed fs)
read-IsJournal size first writable w closed fs extra j = (
  read-stream size writable w.disk first closed fs j.page w.journal.address extra j.before j.stored
      j.open_page,
  data_frames-stream size w.disk first closed fs j.page w.journal.address j.before j.open_page,
)

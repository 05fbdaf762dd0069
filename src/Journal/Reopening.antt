-- ===== src/Journal/Reopening.antt =====
-- A writer that opens a journal goes on where the last writer stopped.
use kungfu_cpp.Base.{
  ℕ, zero, suc, ◌+◌, ◌≤◌, ◌<◌, ◌≡◌, refl, sym, ◌∙◌, ap, subst, true, false, ◌&&◌, List, [], ◌∷◌,
  ◌++◌, some, arith, length, length-append, leb, if◌then◌else◌, Bool-cases, inl, inr, All,
}
use kungfu_cpp.Journal.Frame.{Frame, page_header_size}
use kungfu_cpp.Journal.Page.{Page, Disk, ok, ◌>>=◌, is_full, end_time, find_page_id}
use kungfu_cpp.Journal.Cursor.{
  Journal, current_page, load_next_page, load_page, seek_pages, seek_frames, seek_to_time, fresh,
}
use kungfu_cpp.Journal.Writer.{Writer, open_writer}
use kungfu_cpp.Journal.Layout.{IsHeaded, IsOpen, IsJournal, Closed, stream}
use kungfu_cpp.Journal.Steps.{cursor, load_page-stored, first_page}
use kungfu_cpp.Journal.Seeking.{IsOld, find_page_id-mem, seek_stream}
use kungfu_cpp.Journal.Suffix.{
  Pages, Within, within, Closed-drop, stream-drop, length-stream_drop, length-stream,
}

module _ (size time : ℕ) (disk : Disk) where
  seek_pages-suc :
      (fuel : ℕ) (j : Journal)
      → seek_pages size true (suc fuel) time disk j ≡ (
          if is_full (current_page disk j) && leb (end_time (current_page disk j)) time
          then (load_next_page size true disk j >>= λ (disk', j').
              seek_pages size true fuel time disk' j')
          else ok (disk, j))
  unfolding seek_pages
  seek_pages-suc fuel j = refl

  load_next_page-stored :
      (id a nb : ℕ) (q : Page)
      → disk (id + 1) ≡ some q
      → IsHeaded size q
      → load_next_page size true disk (cursor id a nb)
        ≡ ok (disk, cursor (id + 1) page_header_size 0)
  unfolding load_next_page
  load_next_page-stored id a nb q s h =
      load_page-stored size true (id + 1) disk (cursor id a nb) q (ground arith) s h

  -- The pages that are passed over come before the page of the writer, which is never full.
  seek_pages_lem :
      (fuel id : ℕ) (closed : Pages) (fs : List Frame) (p : Page) (a : ℕ)
      → Closed size disk id closed
      → disk (id + length closed) ≡ some p
      → IsOpen size p fs a
      → length closed < fuel
      → (id' : ℕ) × Within id closed id'
        × (seek_pages size true fuel time disk (cursor id page_header_size 0)
            ≡ ok (disk, cursor id' page_header_size 0))
  seek_pages_lem zero id closed fs p a c s o long = absurd (omega (arith, long))
  seek_pages_lem (suc fuel) id [] fs p a c s o long =
      let s' : disk id ≡ some p = subst (λ k. disk k ≡ some p) (omega arith) s in
      let t : is_full (current_page disk (cursor id page_header_size 0)) ≡ false =
        ground (arith, s', o.last, o.room, o.headed.size_eq) in
      (
        id,
        ([], [], refl, omega arith),
        seek_pages-suc fuel (cursor id page_header_size 0) ∙ rw t refl,
      )
  seek_pages_lem (suc fuel) id ((gs, mark) ∷ rest) fs p a c s o long =
      let j = cursor id page_header_size 0 in
      let s' : disk (id + 1 + length rest) ≡ some p =
        subst (λ k. disk k ≡ some p) (omega arith) s in
      let (q, sq, hq) = first_page size true disk (id + 1) rest fs p a c.1 s' o in
      let (id', (b, r, e, i), m) =
        seek_pages_lem fuel (id + 1) rest fs p a c.1 s' o (omega (arith, long)) in
      elim (Bool-cases
        (is_full (current_page disk j) && leb (end_time (current_page disk j)) time)) [
          | inl t ↦ (
            id',
            ((gs, mark) ∷ b, r, ap (λ l. (gs, mark) ∷ l) e, omega (arith, i)),
            seek_pages-suc fuel j ∙ rw (t, load_next_page-stored id page_header_size 0 q sq hq) m,
          )
          | inr f ↦
              (id, ([], (gs, mark) ∷ rest, refl, omega arith), seek_pages-suc fuel j ∙ rw f refl)
        ]

  -- A page that a seek may start at: `closed` are the closed pages from it on.
  pub record Ready (id : ℕ) (closed : Pages) (fs : List Frame) (p : Page) (a fuel : ℕ)
      : Type 0 where
    pub before : Closed size disk id closed
    pub stored : disk (id + length closed) ≡ some p
    pub open_page : IsOpen size p fs a
    pub old : All (IsOld time) (stream closed fs)
    pub long : length (stream closed fs) < fuel

  Ready-Within :
      (id id' : ℕ) (closed : Pages) (fs : List Frame) (p : Page) (a fuel : ℕ)
      → Ready id closed fs p a fuel
      → Within id closed id'
      → (r : Pages) × Ready id' r fs p a fuel × (id' + length r ≡ id + length closed)
  Ready-Within id id' closed fs p a fuel v (b, r, e, i) =
      let l = length-append b r in
      let k : length closed ≡ length (b ++ r) = ap length (sym e) in
      let z : id' + length r ≡ id + length closed = omega (arith, i, k, l) in
      (
        r,
        record {
          before =
              subst (λ k. Closed size disk k r) (sym i)
                (Closed-drop size disk id b r (subst (Closed size disk id) (sym e) v.before));
          stored = subst (λ k. disk k ≡ some p) (sym z) v.stored;
          open_page = v.open_page;
          old =
              stream-drop (IsOld time) b r fs
                (subst (λ l. All (IsOld time) (stream l fs)) (sym e) v.old);
          long = omega (arith, v.long, length-stream_drop b r fs, ap (λ l. length (stream l fs)) e);
        },
        z,
      )

  -- The two loops of a seek, from a page of the journal on.
  pub seek_from :
      (fuel id : ℕ) (closed : Pages) (fs : List Frame) (p : Page) (a : ℕ)
      → Ready id closed fs p a fuel
      → (n : ℕ) × ((load_page size true id disk fresh >>= λ (disk', j').
            seek_pages size true fuel time disk' j' >>= λ (disk'', j'').
            seek_frames size true fuel time disk'' j'')
          ≡ ok (disk, cursor (id + length closed) a n))
  seek_from fuel id closed fs p a v =
      let (q, sq, hq) = first_page size true disk id closed fs p a v.before v.stored v.open_page in
      let m = load_page-stored size true id disk fresh q refl sq hq in
      let (id', within', m') =
        seek_pages_lem fuel id closed fs p a v.before v.stored v.open_page
          (omega (arith, v.long, length-stream closed fs)) in
      let (r, u, z) = Ready-Within id id' closed fs p a fuel v within' in
      let (n, m'') =
        seek_stream size true time disk fuel id' r fs p a u.before u.stored u.open_page u.old
          u.long in
      (n, rw (m, m', m'') (ap (λ k. ok (disk, cursor k a n)) z))

-- A writer that opens a journal that is in order stands where the last writer stopped, and the
-- journal is as it was: the locator lists at least one page and none but the journal's, no frame is
-- younger than the time of the opening, and the loops may take one round more than the journal has
-- frames.
pub open_writer-IsJournal :
    (size uid dest_id first : ℕ) (w : Writer) (closed : List (List Frame × Frame)) (fs : List Frame)
    (fuel now id : ℕ) (ids : List ℕ)
    → IsJournal size first w closed fs
    → All (λ k. (first ≤ k) × (k ≤ first + length closed)) (id ∷ ids)
    → All (λ f. f.gen_time ≤ now) (stream closed fs)
    → length (stream closed fs) < fuel
    → (w' : Writer) × (open_writer size uid dest_id fuel (id ∷ ids) now w.disk ≡ ok w')
      × IsJournal size first w' closed fs
      × (w'.disk ≡ w.disk)
unfolding open_writer seek_to_time
open_writer-IsJournal size uid dest_id first w closed fs fuel now id ids j listed old long =
    let start = find_page_id size w.disk (id ∷ ids) now in
    let (l, h) =
      find_page_id-mem size w.disk now (λ k. (first ≤ k) × (k ≤ first + length closed)) id ids
        listed in
    let v : Ready size now w.disk first closed fs j.page w.journal.address fuel = record {
      before = j.before;
      stored = j.stored;
      open_page = j.open_page;
      old = old;
      long = long;
    } in
    let (r, u, z) =
      Ready-Within size now w.disk first start closed fs j.page w.journal.address fuel v
        (within first closed start l h) in
    let (n, m) = seek_from size now w.disk fuel start r fs j.page w.journal.address u in
    (
      record {
        disk = w.disk;
        journal = cursor (start + length r) w.journal.address n;
        size_to_write = 0;
        locked = false;
      },
      rw m refl,
      record {
        page = j.page;
        loaded = ap some z;
        stored = j.stored;
        open_page = j.open_page;
        before = j.before;
        behind = j.behind;
        unlocked = refl;
      },
      refl,
    )

-- ===== src/Journal/Steps.antt =====
-- One step of a cursor over a journal that is in order.
use mathlib.Core.Path.{fun_ext}
use kungfu_cpp.Base.{
  ℕ, ◌+◌, ◌≡◌, ◌∙◌, ap, subst, ◌≢◌, Bool, false, List, [], ◌∷◌, some, arith, length,
}
use kungfu_cpp.Journal.Frame.{Frame, page_end_tag, page_header_size}
use kungfu_cpp.Journal.Page.{Page, Disk, ok, store, load}
use kungfu_cpp.Journal.Cursor.{Journal, page_of, current_frame, load_page, is_loaded, next}
use kungfu_cpp.Journal.Layout.{IsHeaded, IsOpen, Closed, load-IsHeaded}

store_self : (disk : Disk) (id : ℕ) (p : Page) → disk id ≡ some p → store disk id p ≡ disk
store_self disk id p e = fun_ext same
  where
    same : (i : ℕ) → store disk id p i ≡ disk i
    same i = ground (arith, e)

pub page_of-eq : (disk : Disk) (id : ℕ) (p : Page) → disk id ≡ some p → page_of disk (some id) ≡ p
page_of-eq disk id p e = rw (e, page_of)

abbrev pub cursor : ℕ → ℕ → ℕ → Journal
cursor id a nb = record { page_id = some id; address = a; page_frame_nb = nb }

module _ (size : ℕ) (writable : Bool) where
  pub current_frame-eq :
      (disk : Disk) (id : ℕ) (p : Page) (a nb : ℕ)
      → disk id ≡ some p
      → current_frame disk (cursor id a nb) ≡ p.frames a
  current_frame-eq disk id p a nb s = rw (s, current_frame, page_of)

  pub next-entry :
      (disk : Disk) (j : Journal) (f : Frame)
      → current_frame disk j ≡ f
      → f.msg_type ≢ page_end_tag
      → next size writable disk j
        ≡ ok
            (disk, record j { address = j.address + f.length; page_frame_nb = j.page_frame_nb + 1 })
  unfolding next
  next-entry disk j f e ne = ground (arith, e, ne)

  pub load_page-stored :
      (id : ℕ) (disk : Disk) (j : Journal) (q : Page)
      → is_loaded id j.page_id ≡ false
      → disk id ≡ some q
      → IsHeaded size q
      → load_page size writable id disk j ≡ ok (disk, cursor id page_header_size 0)
  unfolding load_page
  load_page-stored id disk j q away s h =
      let l : load size writable (disk id) ≡ ok q =
        ap (load size writable) s ∙ load-IsHeaded size writable q h in
      rw (away, l, store_self disk id q s)
        (ap (λ a. ok (disk, cursor id a 0))
          (ap (λ r. r.page_header_length) (page_of-eq disk id q s) ∙ h.header_eq))

  next-eq :
      (disk : Disk) (id a nb : ℕ)
      → (current_frame disk (cursor id a nb)).msg_type ≡ page_end_tag
      → next size writable disk (cursor id a nb)
        ≡ load_page size writable (id + 1) disk (cursor id a nb)
  unfolding next
  next-eq disk id a nb e = rw e

  pub next-mark :
      (disk : Disk) (id : ℕ) (p q : Page) (a nb : ℕ)
      → disk id ≡ some p
      → (p.frames a).msg_type ≡ page_end_tag
      → disk (id + 1) ≡ some q
      → IsHeaded size q
      → next size writable disk (cursor id a nb) ≡ ok (disk, cursor (id + 1) page_header_size 0)
  next-mark disk id p q a nb s t s' h =
      next-eq disk id a nb (ap (λ f. f.msg_type) (current_frame-eq disk id p a nb s) ∙ t)
      ∙ load_page-stored (id + 1) disk (cursor id a nb) q (ground arith) s' h

  -- The page behind a closed page, or the page of the writer, is in order.
  pub first_page :
      (disk : Disk) (id : ℕ) (closed : List (List Frame × Frame)) (fs : List Frame) (p : Page)
      (a : ℕ)
      → Closed size disk id closed
      → disk (id + length closed) ≡ some p
      → IsOpen size p fs a
      → (q : Page) × (disk id ≡ some q) × IsHeaded size q
  first_page disk id [] fs p a c s o = (p, subst (λ k. disk k ≡ some p) (omega arith) s, o.headed)
  first_page disk id ((gs, mark) ∷ rest) fs p a c s o = (c.0.0, c.0.1, c.0.2.headed)

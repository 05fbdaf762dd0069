-- ===== src/Journal/Turning.antt =====
-- The writer turns to a new page: the old one is closed by an end mark.
use kungfu_cpp.Base.{
  ℕ, ◌+◌, ◌<◌, ◌≡◌, refl, sym, ap, subst, true, List, [], ◌∷◌, ◌++◌, none, some, arith, length,
  length-append,
}
use kungfu_cpp.Journal.Frame.{Frame, page_header_size, frame_header_size}
use kungfu_cpp.Journal.Page.{blank, ensure_header, verify, load, Page, Disk, ok, store}
use kungfu_cpp.Journal.Cursor.{Journal, load_next_page}
use kungfu_cpp.Journal.Writer.{Writer, close_page, end_page}
use kungfu_cpp.Journal.Layout.{
  Laid-mono, IsOpen, IsClosed, IsJournal, Closed, Closed-mono, Closed-append,
}
use kungfu_cpp.Journal.Stores.{update_page-eq}

module _ (size uid dest_id : ℕ) where
  abbrev pub new_page : Page
  new_page = ensure_header size blank

  pub verify-new_page : verify size new_page ≡ ok new_page
  verify-new_page = ground arith

  pub at_new_page : ℕ → Disk → Disk × Journal
  at_new_page id disk = (
    store disk (id + 1) new_page,
    record { page_id = some (id + 1); address = page_header_size; page_frame_nb = 0 },
  )

  pub load_next_page-eq :
      (disk : Disk) (j : Journal) (id : ℕ)
      → j.page_id ≡ some id
      → disk (id + 1) ≡ none
      → load_next_page size true disk j ≡ ok (at_new_page id disk)
  unfolding load_next_page at_new_page load
  load_next_page-eq disk j id e n = ground (arith, e, n, verify-new_page)

  abbrev pub turned : ℕ → Page → ℕ → ℕ → Writer → Writer
  turned id p trigger_time now w = record w {
    disk = store (store w.disk (id + 1) new_page) id (end_page size uid dest_id trigger_time now p);
    journal = record { page_id = some (id + 1); address = page_header_size; page_frame_nb = 0 };
  }

  pub close_page-eq :
      (w : Writer) (id : ℕ) (p : Page) (trigger_time now : ℕ)
      → w.journal.page_id ≡ some id
      → w.disk id ≡ some p
      → w.disk (id + 1) ≡ none
      → close_page size uid dest_id trigger_time now w ≡ ok (turned id p trigger_time now w)
  unfolding close_page at_new_page
  close_page-eq w id p trigger_time now e f n = rw (load_next_page-eq w.disk w.journal id e n) (
      ap (λ d. ok (record w { disk = d; journal = (at_new_page id w.disk).1 }))
        (update_page-eq (end_page size uid dest_id trigger_time now)
          (store w.disk (id + 1) new_page) w.journal.page_id id p e (ground (arith, f))))

  -- The page that the writer turns away from is closed.
  pub end_page-IsClosed :
      (p : Page) (fs : List Frame) (a trigger_time now : ℕ)
      → IsOpen size p fs a
      → IsClosed size
          (end_page size uid dest_id trigger_time now p)
          fs
          ((end_page size uid dest_id trigger_time now p).frames a)
  end_page-IsClosed p fs a trigger_time now v = record {
    headed = record {
      version_eq = v.headed.version_eq;
      header_eq = v.headed.header_eq;
      size_eq = v.headed.size_eq;
      begun = omega (arith, v.last, v.headed.begun);
    };
    stop = a;
    laid = Laid-mono p.frames _ page_header_size fs a (λ k h. ground (arith, v.last)) v.laid;
    mark_eq = refl;
    mark_type = ground (arith, v.last);
    mark_long = ground (arith, v.last);
    fits = ground (arith, v.last, v.room);
  }

  -- Turning the page keeps the journal.
  pub turned-IsJournal :
      (first : ℕ) (w : Writer) (closed : List (List Frame × Frame)) (fs : List Frame)
      (trigger_time now : ℕ) (j : IsJournal size first w closed fs)
      → page_header_size + frame_header_size < size
      → let p = end_page size uid dest_id trigger_time now j.page in
        IsJournal size first
          (turned (first + length closed) j.page trigger_time now w)
          (closed ++ (fs, p.frames w.journal.address) ∷ [])
          []
  turned-IsJournal first w closed fs trigger_time now j fits =
      let id = first + length closed in
      let p = end_page size uid dest_id trigger_time now j.page in
      let w' = turned id j.page trigger_time now w in
      let mark = p.frames w.journal.address in
      let e : first + length (closed ++ (fs, mark) ∷ []) ≡ id + 1 =
        omega (arith, length-append closed ((fs, mark) ∷ [])) in
      let kept : Closed size w'.disk first closed =
        Closed-mono size w.disk w'.disk first closed (λ k h. ground arith) j.before in
      record {
        page = new_page;
        loaded = ap some (sym e);
        stored = subst (λ k. w'.disk k ≡ some new_page) (sym e) (ground arith);
        open_page = record {
          headed = record {
            version_eq = refl;
            header_eq = refl;
            size_eq = refl;
            begun = omega arith;
          };
          laid = refl;
          clear = refl;
          last = refl;
          room = fits;
        };
        before =
            Closed-append size w'.disk first closed fs mark p kept (ground arith)
              (end_page-IsClosed j.page fs w.journal.address trigger_time now j.open_page);
        behind = λ k h.
            let far : id + 1 < k = subst (λ i. i < k) e h in
            ground (arith, far, j.behind k (omega (arith, far)));
        unlocked = j.unlocked;
      }

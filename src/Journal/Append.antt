-- ===== src/Journal/Append.antt =====
-- A write appends one frame to the journal, on the page of the writer or, behind an end mark, on
-- the next one.
use kungfu_cpp.Base.{
  ℕ, ◌+◌, ◌^◌, ◌<◌, ◌≡◌, refl, sym, ◌∙◌, ap, subst, ◌≢◌, inl, inr, false, List, [], ◌∷◌, ◌++◌,
  arith, length, append-nil, if◌then◌else◌, Bool-cases,
}
use kungfu_cpp.Journal.Frame.{Frame, page_end_tag, page_header_size, frame_header_size}
use kungfu_cpp.Journal.Page.{Page, Result, ok, ◌>>=◌}
use kungfu_cpp.Journal.Writer.{
  Writer, open_current, open_frame, close_frame, copy_data, write_bytes, close_page, overflows,
  overflows,
}
use kungfu_cpp.Journal.Layout.{
  IsEntry, Laid-mono, Laid-append, Laid-le, IsOpen, IsJournal, Closed-mono, entries, entries-append,
  entries-snoc,
}
use kungfu_cpp.Journal.Stores.{entry, Written, write_here}
use kungfu_cpp.Journal.Turning.{close_page-eq, turned-IsJournal}

module _ (size uid dest_id : ℕ) where
  Written-IsOpen :
      (w w' : Writer) (id : ℕ) (p : Page) (f : Frame) (fs : List Frame)
      → IsEntry f
      → IsOpen size p fs w.journal.address
      → w.journal.address + f.length + frame_header_size < size
      → (u : Written size uid dest_id w w' id p f)
      → IsOpen size u.page (fs ++ f ∷ []) w'.journal.address
  Written-IsOpen w w' id p f fs v o room u =
      let a = w.journal.address in
      rw u.moved (record {
        headed = record {
          version_eq = u.version ∙ o.headed.version_eq;
          header_eq = u.header ∙ o.headed.header_eq;
          size_eq = u.size_same ∙ o.headed.size_eq;
          begun = omega (arith, u.last, Laid-le p.frames page_header_size fs a o.laid);
        };
        laid =
            Laid-append u.page.frames page_header_size fs a f
              (Laid-mono p.frames u.page.frames page_header_size fs a u.below o.laid) u.at v;
        clear = u.clear;
        last = rw (u.last, u.at);
        room = room;
      })

  entry-IsEntry :
      (trigger_time msg_type : ℕ) (bytes : List ℕ) (now : ℕ)
      → 0 < msg_type
      → msg_type ≢ page_end_tag
      → IsEntry (entry size uid dest_id trigger_time msg_type bytes now)
  entry-IsEntry trigger_time msg_type bytes now t ne = record {
    long = omega arith;
    typed = t;
    inner = ne;
  }

  -- The journal with one more frame, on the page of the writer or behind a closed page.
  pub record Appended (first : ℕ) (closed : List (List Frame × Frame)) (fs : List Frame) (f : Frame)
      (r : Result Writer) : Type 0 where
    pub writer : Writer
    pub result : r ≡ ok writer
    pub closed' : List (List Frame × Frame)
    pub fs' : List Frame
    pub journal : IsJournal size first writer closed' fs'
    pub contents : entries closed' fs' ≡ entries closed fs ++ f ∷ []

  append_here :
      (first : ℕ) (w : Writer) (closed : List (List Frame × Frame)) (fs : List Frame) (f : Frame)
      → IsEntry f
      → (j : IsJournal size first w closed fs)
      → w.journal.address + f.length + frame_header_size < size
      → (w' : Writer) → Written size uid dest_id w w' (first + length closed) j.page f
      → Appended first closed fs f (ok w')
  append_here first w closed fs f v j room w' u = record {
    writer = w';
    result = refl;
    closed' = closed;
    fs' = fs ++ f ∷ [];
    journal = record {
      page = u.page;
      loaded = u.loaded;
      stored = u.stored;
      open_page = Written-IsOpen w w' _ j.page f fs v j.open_page room u;
      before =
          Closed-mono size w.disk w'.disk first closed (λ k h. u.others k (omega arith)) j.before;
      behind = λ k h. u.others k (omega arith) ∙ j.behind k h;
      unlocked = u.unlocked;
    };
    contents = entries-snoc closed fs (f ∷ []);
  }

  -- A frame of this many bytes fits behind the header of a page, before an end mark.
  abbrev pub Fits : ℕ → Type 0
  Fits n = page_header_size + frame_header_size + n + frame_header_size < size

  pub open_frame-eq :
      (w : Writer) (trigger_time msg_type n now : ℕ)
      → w.locked ≡ false
      → open_frame size uid dest_id trigger_time msg_type n now w ≡ (
          (if overflows size uid dest_id n w
            then close_page size uid dest_id trigger_time now w
            else ok w)
          >>= λ w'. ok (open_current size uid dest_id trigger_time msg_type n w'))
  unfolding open_frame
  open_frame-eq w trigger_time msg_type n now e = rw e

  abbrev write_tail : ℕ → ℕ → List ℕ → ℕ → Writer → Result Writer
  write_tail trigger_time msg_type bytes now w = close_frame size uid dest_id (length bytes) now (
      copy_data size uid dest_id bytes
        (open_current size uid dest_id trigger_time msg_type (length bytes) w))

  write_bytes-eq :
      (trigger_time msg_type : ℕ) (bytes : List ℕ) (now : ℕ) (w : Writer)
      → write_bytes size uid dest_id trigger_time msg_type bytes now w ≡ (
          open_frame size uid dest_id trigger_time msg_type (length bytes) now w >>= λ w'.
          close_frame size uid dest_id (length bytes) now (copy_data size uid dest_id bytes w'))
  unfolding write_bytes
  write_bytes-eq trigger_time msg_type bytes now w = refl

  tail-Appended :
      (first : ℕ) (w : Writer) (closed : List (List Frame × Frame)) (fs : List Frame)
      (trigger_time msg_type now : ℕ) (bytes : List ℕ)
      → size < 2 ^ 32
      → 0 < msg_type
      → msg_type ≢ page_end_tag
      → (j : IsJournal size first w closed fs)
      → w.journal.address + frame_header_size + length bytes + frame_header_size < size
      → Appended first closed fs
          (entry size uid dest_id trigger_time msg_type bytes now)
          (write_tail trigger_time msg_type bytes now w)
  tail-Appended first w closed fs trigger_time msg_type now bytes small t ne j room =
      let (w', e, u) =
        write_here size uid dest_id w (first + length closed) j.page trigger_time msg_type now bytes
          j.loaded j.stored ne (omega arith) in
      subst (Appended first closed fs (entry size uid dest_id trigger_time msg_type bytes now))
        (sym e)
        (append_here first w closed fs (entry size uid dest_id trigger_time msg_type bytes now)
          (entry-IsEntry trigger_time msg_type bytes now t ne) j (omega arith) w' u)

  -- On a journal that is in order, with pages of less than 4 GiB, a call of `write_bytes` on its
  -- unlocked writer succeeds and appends exactly its frame, and the journal stays in order: a
  -- message type that is positive and no end mark, and a payload that fits an empty page, are all
  -- it asks for. If the page has no room, the frame stands on the next one, behind an end mark.
  pub write_bytes-Appended :
      (first : ℕ) (w : Writer) (closed : List (List Frame × Frame)) (fs : List Frame)
      (trigger_time msg_type now : ℕ) (bytes : List ℕ)
      → size < 2 ^ 32
      → Fits (length bytes)
      → 0 < msg_type
      → msg_type ≢ page_end_tag
      → IsJournal size first w closed fs
      → Appended first closed fs
          (entry size uid dest_id trigger_time msg_type bytes now)
          (write_bytes size uid dest_id trigger_time msg_type bytes now w)
  write_bytes-Appended first w closed fs trigger_time msg_type now bytes small fits t ne j =
      rw (write_bytes-eq, open_frame-eq w trigger_time msg_type (length bytes) now j.unlocked)
        (elim (Bool-cases (overflows size uid dest_id (length bytes) w)) [
          | inl over ↦
              let k =
                turned-IsJournal size uid dest_id first w closed fs trigger_time now j
                  (omega arith) in
              let a =
                tail-Appended first _ _ [] trigger_time msg_type now bytes small t ne k
                  (omega arith) in
              rw
                (
                  over,
                  close_page-eq size uid dest_id w _ j.page trigger_time now j.loaded j.stored
                      (j.behind _ (omega arith)),
                )
                (record {
                  writer = a.writer;
                  result = a.result;
                  closed' = a.closed';
                  fs' = a.fs';
                  journal = a.journal;
                  contents =
                      a.contents
                      ∙ ap (λ l. l ++ entry size uid dest_id trigger_time msg_type bytes now ∷ [])
                          (entries-append closed fs _ [] ∙ append-nil (entries closed fs));
                })
          | inr room ↦ rw room (
              tail-Appended first w closed fs trigger_time msg_type now bytes small t ne j
                (ground (arith, room, j.loaded, j.stored, j.open_page.headed.size_eq)))
        ])

-- ===== src/Journal/Creating.antt =====
-- A writer that opens a journal without pages creates the first one.
use kungfu_cpp.Base.{
  ℕ, suc, ◌+◌, ◌≤◌, ◌<◌, ◌≡◌, refl, sym, ◌∙◌, ap, true, false, none, [], some, arith,
}
use kungfu_cpp.Journal.Frame.{page_header_size, frame_header_size}
use kungfu_cpp.Journal.Page.{load, store, blank, ensure_header, Disk, ok, find_page_id}
use kungfu_cpp.Journal.Cursor.{load_page, seek_to_time, fresh}
use kungfu_cpp.Journal.Writer.{Writer, open_writer}
use kungfu_cpp.Journal.Layout.{IsJournal}
use kungfu_cpp.Journal.Steps.{cursor, load_page-stored, first_page}
use kungfu_cpp.Journal.Reopening.{Ready, seek_from}

created-IsJournal :
    (size first : ℕ) (disk : Disk) (n : ℕ)
    → page_header_size + frame_header_size < size
    → ((k : ℕ) → first ≤ k → disk k ≡ none)
    → IsJournal size first
        (record {
          disk = store disk first (ensure_header size blank);
          journal = cursor first page_header_size n;
          size_to_write = 0;
          locked = false;
        })
        []
        []
created-IsJournal size first disk n big empty =
    let z : first ≡ first + 0 = omega arith in
    record {
      page = ensure_header size blank;
      loaded = ap some z;
      stored = ground arith;
      open_page = record {
        headed = record {
          version_eq = refl;
          header_eq = refl;
          size_eq = refl;
          begun = omega arith;
        };
        laid = refl;
        clear = refl;
        last = refl;
        room = big;
      };
      before = tt;
      behind = λ k h. ground (arith, empty k (omega arith));
      unlocked = refl;
    }

load_page-created :
    (size id : ℕ) (disk : Disk)
    → disk id ≡ none
    → load_page size true id disk fresh
      ≡ ok (store disk id (ensure_header size blank), cursor id page_header_size 0)
unfolding load_page load
load_page-created size id disk e = ground (arith, e)

-- Where the locator lists no page and no file is there, a writer creates the first one, if a page
-- has room for one header: the journal is then in order and has no frames.
pub open_writer-created :
    (size uid dest_id fuel now : ℕ) (disk : Disk)
    → page_header_size + frame_header_size < size
    → ((k : ℕ) → 1 ≤ k → disk k ≡ none)
    → (w' : Writer) × (open_writer size uid dest_id (suc fuel) [] now disk ≡ ok w')
      × IsJournal size 1 w' [] []
unfolding open_writer seek_to_time find_page_id
open_writer-created size uid dest_id fuel now disk big empty =
    let j = created-IsJournal size 1 disk 0 big empty in
    let disk' = store disk 1 (ensure_header size blank) in
    let v : Ready size now disk' 1 [] [] j.page page_header_size (suc fuel) = record {
      before = tt;
      stored = j.stored;
      open_page = j.open_page;
      old = tt;
      long = omega arith;
    } in
    let (n, m) = seek_from size now disk' (suc fuel) 1 [] [] j.page page_header_size v in
    let (q, sq, hq) =
      first_page size true disk' 1 [] [] j.page page_header_size tt j.stored j.open_page in
    let l =
      load_page-created size 1 disk (empty 1 (omega arith))
      ∙ sym (load_page-stored size true 1 disk' fresh q refl sq hq) in
    (
      record {
        disk = disk';
        journal = cursor 1 page_header_size n;
        size_to_write = 0;
        locked = false;
      },
      rw (l, m) refl,
      created-IsJournal size 1 disk n big empty,
    )

-- ===== src/Journal/Tests.antt =====
-- Runs of the journal, and the theorems at a small one: pages of 200 bytes.
use kungfu_cpp.Base.{
  ℕ, zero, suc, ◌+◌, ◌≡◌, refl, true, false, List, [], ◌∷◌, none, some, arith, length,
}
use kungfu_cpp.Journal.Frame.{Frame}
use kungfu_cpp.Journal.Page.{Page, put, Disk, Result, ok, ◌>>=◌, load, store, ensure_header, blank}
use kungfu_cpp.Journal.Cursor.{load_page, load_next_page, next, read}
use kungfu_cpp.Journal.Writer.{
  open_writer, Writer, overflows, update_page, close_page, open_current, open_frame, close_frame,
  copy_data, write_bytes,
}
use kungfu_cpp.Journal.Layout.{IsJournal, stream}
use kungfu_cpp.Journal.Stores.{entry}
use kungfu_cpp.Journal.Append.{Appended, write_bytes-Appended}
use kungfu_cpp.Journal.Reading.{data_frames, read-IsJournal}
use kungfu_cpp.Journal.RoundTrip.{read-write_bytes}
use kungfu_cpp.Journal.Room.{open_frame-overflows}
use kungfu_cpp.Journal.Reopening.{open_writer-IsJournal}
use kungfu_cpp.Journal.Creating.{open_writer-created}

abbrev first_page : Disk
first_page = store (λ k. none) 1 (ensure_header 200 blank)

abbrev begun : Writer
begun = record {
  disk = first_page;
  journal = record { page_id = some 1; address = 24; page_frame_nb = 0 };
  size_to_write = 0;
  locked = false;
}

abbrev lengths : Result Writer → Result (List (ℕ × ℕ))
lengths r = r >>= λ w.
    read 200 false 10 w.disk (record { page_id = some 1; address = 24; page_frame_nb = 0 })
    >>= λ fs. ok (fields fs)
  where
    fields : List Frame → List (ℕ × ℕ)
    fields [] = []
    fields (f ∷ fs) = (f.msg_type, f.length) ∷ fields fs

abbrev write : ℕ → ℕ → Writer → Result Writer
write n now w = write_bytes 200 7 0 0 101 (bytes n) now w
  where
    bytes : ℕ → List ℕ
    bytes zero = []
    bytes (suc k) = 9 ∷ bytes k

-- The third frame has no room on the first page.
write_turns :
    lengths (write 10 1 begun >>= λ w. write 30 2 w >>= λ w'. write 5 3 w')
    ≡ ok ((101, 46) ∷ (101, 66) ∷ (10000, 36) ∷ (101, 41) ∷ [])
unfolding load load_page load_next_page next read update_page close_page open_current open_frame
    close_frame copy_data write_bytes
write_turns = refl

begun-IsJournal : IsJournal 200 1 begun [] []
begun-IsJournal = record {
  page = ensure_header 200 blank;
  loaded = refl;
  stored = refl;
  open_page = record {
    headed = record { version_eq = refl; header_eq = refl; size_eq = refl; begun = omega arith };
    laid = refl;
    clear = refl;
    last = refl;
    room = omega arith;
  };
  before = tt;
  behind = λ k h. ground arith;
  unlocked = refl;
}

write_bytes-Appended_example :
    Appended 200 7 0 1 [] []
      (entry 200 7 0 3 101 (5 ∷ 6 ∷ []) 4)
      (write_bytes 200 7 0 3 101 (5 ∷ 6 ∷ []) 4 begun)
write_bytes-Appended_example =
    write_bytes-Appended 200 7 0 1 begun [] [] 3 101 4 (5 ∷ 6 ∷ []) (omega arith) (omega arith)
      (omega arith) (omega arith) begun-IsJournal

abbrev mark : Frame
mark = record (entry 200 7 0 3 10000 [] 3) { length = 36 }

abbrev first_frame : Frame
first_frame = entry 200 7 0 1 101 (5 ∷ 6 ∷ []) 1

abbrev second_frame : Frame
second_frame = entry 200 7 0 1 102 (8 ∷ []) 4

abbrev closed_page : Page
closed_page = record (put (put (ensure_header 200 blank) 24 first_frame) 62 mark) {
  last_frame_position = 62;
}

abbrev last_page : Page
last_page = put (ensure_header 200 blank) 24 second_frame

abbrev two_pages : Writer
two_pages = record begun {
  disk = store (store (λ k. none) 1 closed_page) 2 last_page;
  journal = record { page_id = some 2; address = 61; page_frame_nb = 1 };
}

abbrev closed_frames : List (List Frame × Frame)
closed_frames = (first_frame ∷ [], mark) ∷ []

two_pages-IsJournal : IsJournal 200 1 two_pages closed_frames (second_frame ∷ [])
two_pages-IsJournal = record {
  page = last_page;
  loaded = refl;
  stored = refl;
  open_page = record {
    headed = record { version_eq = refl; header_eq = refl; size_eq = refl; begun = omega arith };
    laid = (refl, record { long = omega arith; typed = omega arith; inner = omega arith }, refl);
    clear = refl;
    last = refl;
    room = omega arith;
  };
  before = (
    (
      closed_page,
      refl,
      record {
        headed = record {
          version_eq = refl;
          header_eq = refl;
          size_eq = refl;
          begun = omega arith;
        };
        stop = 62;
        laid =
            (refl, record { long = omega arith; typed = omega arith; inner = omega arith }, refl);
        mark_eq = refl;
        mark_type = refl;
        mark_long = omega arith;
        fits = omega arith;
      },
    ),
    tt,
  );
  behind = λ k h. ground arith;
  unlocked = refl;
}

read-IsJournal_example :
    (read 200 false
        (length (stream closed_frames (second_frame ∷ [])) + 3)
        two_pages.disk
        (record { page_id = some 1; address = 24; page_frame_nb = 0 })
      ≡ ok (first_frame ∷ mark ∷ second_frame ∷ []))
    × (data_frames (first_frame ∷ mark ∷ second_frame ∷ []) ≡ first_frame ∷ second_frame ∷ [])
read-IsJournal_example =
    read-IsJournal 200 1 false two_pages closed_frames (second_frame ∷ []) 3 two_pages-IsJournal

read-write_bytes_example :
    (w' : Writer) × (gs : List Frame) × (write_bytes 200 7 0 3 101 (5 ∷ 6 ∷ []) 4 two_pages ≡ ok w')
    × ((extra : ℕ)
        → read 200 false
            (length gs + extra)
            w'.disk
            (record { page_id = some 1; address = 24; page_frame_nb = 0 })
          ≡ ok gs)
    × (data_frames gs ≡ first_frame ∷ second_frame ∷ entry 200 7 0 3 101 (5 ∷ 6 ∷ []) 4 ∷ [])
read-write_bytes_example =
    read-write_bytes 200 7 0 1 false two_pages closed_frames (second_frame ∷ []) 3 101 4
      (5 ∷ 6 ∷ []) (omega arith) (omega arith) (omega arith) (omega arith) two_pages-IsJournal

-- The frame passes the assertion of `open_frame`, 36 + 110 + 36 ≤ 200.
open_frame-overflows_example :
    (w' : Writer) × (open_frame 200 7 0 3 101 110 4 begun ≡ ok w')
    × (overflows 200 7 0 110 w' ≡ true)
open_frame-overflows_example =
    open_frame-overflows 200 7 0 1 begun [] [] 3 101 110 4 (omega arith) begun-IsJournal

open_writer-IsJournal_example :
    (w' : Writer) × (open_writer 200 7 0 5 (1 ∷ 2 ∷ []) 9 two_pages.disk ≡ ok w')
    × IsJournal 200 1 w' closed_frames (second_frame ∷ [])
    × (w'.disk ≡ two_pages.disk)
open_writer-IsJournal_example =
    open_writer-IsJournal 200 7 0 1 two_pages closed_frames (second_frame ∷ []) 5 9 1 (2 ∷ [])
      two_pages-IsJournal ((omega arith, omega arith), ((omega arith, omega arith), tt))
      (omega arith, (omega arith, (omega arith, tt))) (omega arith)

open_writer-created_example :
    (w' : Writer) × (open_writer 200 7 0 1 [] 9 (λ k. none) ≡ ok w') × IsJournal 200 1 w' [] []
open_writer-created_example =
    open_writer-created 200 7 0 0 9 (λ k. none) (omega arith) (λ k h. refl)

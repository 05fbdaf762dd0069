-- ===== src/Journal/Cursor.antt =====
-- The class `journal`: a cursor over the pages of one journal. include/kungfu/yijinjing/journal/
-- journal.h and src/yijinjing/journal/journal.cpp.
use kungfu_cpp.Base.{
  ℕ, zero, suc, ◌+◌, Bool, false, ◌&&◌, Option, none, some, List, [], ◌∷◌, leb, ◌==◌, if◌then◌else◌,
}
use kungfu_cpp.Journal.Frame.{Frame, has_data, page_end_tag}
use kungfu_cpp.Journal.Page.{
  Page, Disk, Result, ok, err, ◌>>=◌, load, store, is_full, end_time, find_page_id, blank,
  out_of_fuel,
}

-- `page_` is the id of the loaded page, `address` that of the current frame.
pub record Journal : Type 0 where
  pub page_id : Option ℕ
  pub address : ℕ
  pub page_frame_nb : ℕ

abbrev pub fresh : Journal
fresh = record { page_id = none; address = 0; page_frame_nb = 0 }

-- The contents of a mapped page.
abbrev pub page_of : Disk → Option ℕ → Page
page_of disk none = blank
page_of disk (some id) = elim (disk id) [ none ↦ blank | some p ↦ p ]

abbrev pub current_page : Disk → Journal → Page
current_page disk j = page_of disk j.page_id

abbrev pub current_frame : Disk → Journal → Frame
current_frame disk j = (current_page disk j).frames j.address

abbrev pub is_loaded : ℕ → Option ℕ → Bool
is_loaded id none = false
is_loaded id (some id') = id == id'

abbrev at_first_frame : ℕ → Disk → Disk × Journal
at_first_frame id disk = (
  disk,
  record {
    page_id = some id;
    address = (page_of disk (some id)).page_header_length;
    page_frame_nb = 0;
  },
)

module _ (size : ℕ) (writable : Bool) where
  unfoldable pub load_page : ℕ → Disk → Journal → Result (Disk × Journal)
  load_page id disk j =
      if is_loaded id j.page_id
      then ok (at_first_frame id disk)
      else load size writable (disk id) >>= λ p. ok (at_first_frame id (store disk id p))

  abbrev next_id : Option ℕ → ℕ
  next_id none = 0
  next_id (some id) = id + 1

  unfoldable pub load_next_page : Disk → Journal → Result (Disk × Journal)
  unfolding load_page
  load_next_page disk j = load_page (next_id j.page_id) disk j

  unfoldable pub next : Disk → Journal → Result (Disk × Journal)
  unfolding load_next_page
  next disk j =
      if (current_frame disk j).msg_type == page_end_tag
      then load_next_page disk j
      else ok (
        disk,
        record j {
          address = j.address + (current_frame disk j).length;
          page_frame_nb = j.page_frame_nb + 1;
        },
      )

  -- What a reader meets from its current frame on, up to the first frame with no data: at most as
  -- many frames as `fuel`.
  unfoldable pub read : ℕ → Disk → Journal → Result (List Frame)
  unfolding next
  read zero disk j = ok []
  read (suc fuel) disk j =
      let rest =
        (next disk j >>= λ (disk', j').
        read fuel disk' j' >>= λ fs. ok (current_frame disk j ∷ fs)) in
      if has_data (current_frame disk j) then rest else ok []

  -- The first loop of `seek_to_time`: over the pages that are full and old.
  unfoldable pub seek_pages : ℕ → ℕ → Disk → Journal → Result (Disk × Journal)
  unfolding load_next_page
  seek_pages zero time disk j = err out_of_fuel
  seek_pages (suc fuel) time disk j =
      let rest = (load_next_page disk j >>= λ (disk', j'). seek_pages fuel time disk' j') in
      if is_full (current_page disk j) && leb (end_time (current_page disk j)) time
      then rest
      else ok (disk, j)

  -- The second loop: over the frames that are old.
  unfoldable pub seek_frames : ℕ → ℕ → Disk → Journal → Result (Disk × Journal)
  unfolding next
  seek_frames zero time disk j = err out_of_fuel
  seek_frames (suc fuel) time disk j =
      let rest = (next disk j >>= λ (disk', j'). seek_frames fuel time disk' j') in
      if has_data (current_frame disk j) && leb (current_frame disk j).gen_time time
      then rest
      else ok (disk, j)

  -- `seek_to_time`; `ids` is what the locator lists.
  unfoldable pub seek_to_time : ℕ → List ℕ → ℕ → Disk → Journal → Result (Disk × Journal)
  unfolding load_page seek_pages seek_frames
  seek_to_time fuel ids time disk j =
      load_page (find_page_id size disk ids time) disk j >>= λ (disk', j').
      seek_pages fuel time disk' j' >>= λ (disk'', j''). seek_frames fuel time disk'' j''

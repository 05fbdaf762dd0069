-- ===== src/Journal/Page.antt =====
-- Pages: include/kungfu/yijinjing/journal/page.h and src/yijinjing/journal/page.cpp.
use kungfu_cpp.Base.{
  ℕ, ◌+◌, ◌-◌, ◌*◌, Bool, false, not, Option, none, some, ltb, ◌==◌, if◌then◌else◌, List, [], ◌∷◌,
}
use mathlib.Core.List.{reverse}
use kungfu_cpp.Wingchun.Enums.{Category, md, td, strategy, system}
use kungfu_cpp.Journal.Frame.{Frame, frame_header_size, page_header_size, zeros}

abbrev mega : ℕ
mega = 1024 * 1024

pub find_page_size : Category → ℕ → ℕ
find_page_size md dest_id = if not (dest_id == 1) then 128 * mega else mega
find_page_size td dest_id = if not (dest_id == 0) then 16 * mega else mega
find_page_size strategy dest_id = if not (dest_id == 0) then 16 * mega else mega
find_page_size system dest_id = mega

abbrev pub journal_version : ℕ
journal_version = 4

-- `page_header`, and the frame that starts at each offset of the page.
pub record Page : Type 0 where
  pub version : ℕ
  pub page_header_length : ℕ
  pub page_size : ℕ
  pub frame_header_length : ℕ
  pub last_frame_position : ℕ
  pub frames : ℕ → Frame

-- A file that the writer has stretched, and not yet touched.
abbrev pub blank : Page
blank = record {
  version = 0;
  page_header_length = 0;
  page_size = 0;
  frame_header_length = 0;
  last_frame_position = 0;
  frames = λ o. zeros;
}

abbrev pub put : Page → ℕ → Frame → Page
put p a f = record p { frames = λ o. if o == a then f else p.frames o }

abbrev pub address_border : Page → ℕ
address_border p = p.page_size - frame_header_size

abbrev pub begin_time : Page → ℕ
begin_time p = (p.frames p.page_header_length).gen_time

abbrev pub end_time : Page → ℕ
end_time p = (p.frames p.last_frame_position).gen_time

abbrev pub is_full : Page → Bool
is_full p = ltb (address_border p) (p.last_frame_position + (p.frames p.last_frame_position).length)

pub data JournalError : Type 0 where
  not_ready version_mismatch header_length_mismatch page_size_mismatch cannot_lock : JournalError
  -- the model's own: a loop was given too few rounds
  out_of_fuel : JournalError

pub data Result {ℓ} (A : Type ℓ) : Type ℓ where
  ok : A → Result A
  err : JournalError → Result A

infixl 5 ◌>>=◌
abbrev pub ◌>>=◌ {ℓ κ} : {A : Type ℓ} {B : Type κ} → Result A → (A → Result B) → Result B
ok a >>= f = f a
err e >>= f = err e

-- The header that the first load of a page writes.
abbrev pub ensure_header : ℕ → Page → Page
ensure_header size p =
    if p.last_frame_position == 0
    then record p {
      version = journal_version;
      page_header_length = page_header_size;
      page_size = size;
      frame_header_length = frame_header_size;
      last_frame_position = page_header_size;
    }
    else p

abbrev pub verify : ℕ → Page → Result Page
verify size p =
    if not (p.version == journal_version)
    then err version_mismatch
    else if not (p.page_header_length == page_header_size)
    then err header_length_mismatch
    else if not (p.page_size == size)
    then err page_size_mismatch
    else ok p

-- The files of one journal by page id; `none` is a file that is absent or shorter than a header.
abbrev pub Disk : Type 0
Disk = ℕ → Option Page

-- `page::load`: a load that may not write fails on a missing file, any other creates it.
unfoldable pub load : ℕ → Bool → Option Page → Result Page
load size writable none = if writable then verify size (ensure_header size blank) else err not_ready
load size writable (some p) = verify size (ensure_header size p)

abbrev pub store : Disk → ℕ → Page → Disk
store disk id p = λ i. if i == id then some p else disk i

-- `page::find_page_id`, from the newest page id down. The ids are what the locator lists, in order;
-- a page that cannot be loaded is skipped.
unfoldable pub newest_before : ℕ → Disk → ℕ → List ℕ → Option ℕ
unfolding load
newest_before size disk time [] = none
newest_before size disk time (id ∷ older) = elim (load size false (disk id)) [
  | ok p ↦ if ltb (begin_time p) time then some id else newest_before size disk time older
  | err e ↦ newest_before size disk time older
]

-- `ids` are the page ids of the journal in ascending order.
unfoldable pub find_page_id : ℕ → Disk → List ℕ → ℕ → ℕ
unfolding newest_before
find_page_id size disk [] time = 1
find_page_id size disk (first ∷ ids) time =
    if time == 0
    then first
    else elim (newest_before size disk time (reverse (first ∷ ids))) [ none ↦ first | some id ↦ id ]

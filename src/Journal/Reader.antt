-- ===== src/Journal/Reader.antt =====
-- The class `reader`, src/yijinjing/journal/reader.cpp: several journals, read as one in the order of
-- time. The order of the list is the one in which the program's hash map is walked, which no theorem
-- assumes. `now` is the time that the clock gives.
mod Sorting
mod Available
mod Leaving
mod Tests
use kungfu_cpp.Base.{
  ℕ, ◌+◌, ◌-◌, ◌*◌, ◌/◌, ◌^◌, Bool, true, false, not, ◌&&◌, Option, none, some, List, [], ◌∷◌, ◌++◌,
  leb, ◌==◌, if◌then◌else◌,
}
use kungfu_cpp.Journal.Frame.{Frame, zeros, has_data}
use kungfu_cpp.Journal.Page.{Disk, Result, ok, err, ◌>>=◌}
use kungfu_cpp.Journal.Cursor.{Journal, fresh, current_frame, seek_to_time}
use kungfu_cpp.Journal.Cursor

-- A joined journal: its key, the size of its pages, its files with the ids that the locator lists, and
-- the cursor.
pub record Channel : Type 0 where
  pub key : ℕ
  pub size : ℕ
  pub ids : List ℕ
  pub disk : Disk
  pub cursor : Journal

abbrev pub frame_of : Channel → Frame
frame_of c = current_frame c.disk c.cursor

-- `current` is the key of the journal that `current_` points to.
pub record Reader : Type 0 where
  pub lazy : Bool
  pub live_mode : Bool
  pub current : Option ℕ
  pub journals : List Channel

-- INT64_MAX
abbrev pub max_time : ℕ
max_time = 2 ^ 63 - 1

abbrev pub limit_time : Bool → ℕ → ℕ
limit_time live now = if live then max_time else now

-- Data that is no younger than the limit.
abbrev pub visible : ℕ → Channel → Bool
visible time c = has_data (frame_of c) && leb (frame_of c).gen_time time

unfoldable pub choose : ℕ → Option ℕ → List Channel → Option ℕ
choose time current [] = current
choose time current (c ∷ cs) =
    let chosen = choose (frame_of c).gen_time (some c.key) cs in
    let passed = choose time current cs in if visible time c then chosen else passed

unfoldable pub sort : ℕ → Reader → Reader
unfolding choose
sort now r = record r { current = choose (limit_time r.live_mode now) r.current r.journals }

unfoldable pub channel : ℕ → List Channel → Option Channel
channel key [] = none
channel key (c ∷ cs) = let rest = channel key cs in if c.key == key then some c else rest

-- `current_ != nullptr && current_frame()->has_data()`
abbrev pub looked_up : Option Channel → Bool
looked_up none = false
looked_up (some c) = has_data (frame_of c)

abbrev pub current_of : List Channel → Option ℕ → Bool
current_of cs none = false
current_of cs (some key) = looked_up (channel key cs)

unfoldable pub current_has_data : Reader → Bool
unfolding channel
current_has_data r = current_of r.journals r.current

unfoldable pub data_available : ℕ → Reader → Bool × Reader
unfolding sort current_has_data
data_available now r = (current_has_data (sort now r), sort now r)

abbrev pub channel_key : ℕ → ℕ → ℕ
channel_key uid dest_id = uid * 2 ^ 32 + dest_id

abbrev pub location_of : ℕ → ℕ
location_of key = key / 2 ^ 32

unfoldable pub without_location : ℕ → List Channel → List Channel
without_location uid [] = []
without_location uid (c ∷ cs) =
    let rest = without_location uid cs in if location_of c.key == uid then rest else c ∷ rest

unfoldable pub disjoin : ℕ → ℕ → Reader → Reader
unfolding sort without_location
disjoin now uid r =
    sort now (record r { current = none; journals = without_location uid r.journals })

-- Only one journal is erased.
unfoldable pub without_key : ℕ → List Channel → List Channel
without_key key [] = []
without_key key (c ∷ cs) = let rest = without_key key cs in if c.key == key then cs else c ∷ rest

unfoldable pub disjoin_channel : ℕ → ℕ → ℕ → Reader → Reader
unfolding sort without_key
disjoin_channel now uid dest_id r =
    sort now
      (record r { current = none; journals = without_key (channel_key uid dest_id) r.journals })

-- Moving one journal; an exception leaves the reader to the caller.
unfoldable pub step_channel : Bool → ℕ → List Channel → Result (List Channel)
unfolding Cursor.next
step_channel lazy key [] = ok []
step_channel lazy key (c ∷ cs) =
    let rest = (step_channel lazy key cs >>= λ ds. ok (c ∷ ds)) in
    if c.key == key
    then (Cursor.next c.size (not lazy) c.disk c.cursor >>= λ (disk, j).
        ok (record c { disk = disk; cursor = j } ∷ cs))
    else rest

unfoldable pub next : ℕ → Reader → Result Reader
unfolding step_channel sort
next now r = elim r.current [
  | none ↦ ok (sort now r)
  | some key ↦
      (step_channel r.lazy key r.journals >>= λ cs. ok (sort now (record r { journals = cs })))
]

-- `seek_to_time` of every journal, with `fuel` rounds for each of its loops.
unfoldable pub seek_all : ℕ → Bool → ℕ → List Channel → Result (List Channel)
unfolding seek_to_time
seek_all fuel lazy time [] = ok []
seek_all fuel lazy time (c ∷ cs) =
    seek_to_time c.size (not lazy) fuel c.ids time c.disk c.cursor >>= λ (disk, j).
    seek_all fuel lazy time cs >>= λ ds. ok (record c { disk = disk; cursor = j } ∷ ds)

unfoldable pub seek : ℕ → ℕ → ℕ → Reader → Result Reader
unfolding seek_all sort
seek fuel now time r =
    seek_all fuel r.lazy time r.journals >>= λ cs. ok (sort now (record r { journals = cs }))

unfoldable pub sort_unless_reading : ℕ → Reader → Reader
unfolding sort
sort_unless_reading now r = elim r.current [ none ↦ sort now r | some key ↦ r ]

-- `join` of the journal with the given files: a joined one is not moved.
unfoldable pub join : ℕ → ℕ → Channel → ℕ → Reader → Result Reader
unfolding channel seek_to_time sort_unless_reading
join fuel now c from_time r = elim (channel c.key r.journals) [
  | some joined ↦ ok (sort_unless_reading now r)
  | none ↦
      (seek_to_time c.size (not r.lazy) fuel c.ids from_time c.disk fresh >>= λ (disk, j). ok (
        sort_unless_reading now
          (record r { journals = r.journals ++ record c { disk = disk; cursor = j } ∷ [] })))
]

-- ===== src/Journal/Layout.antt =====
-- Which frames lie in the pages of a journal.
use kungfu_cpp.Base.{
  ℕ, ◌+◌, ◌≤◌, ◌<◌, ◌≡◌, refl, sym, ◌≢◌, Bool, false, List, [], ◌∷◌, ◌++◌, none, some, arith,
  length, ◌∙◌, subst, append_assoc,
}
use kungfu_cpp.Journal.Frame.{Frame, page_end_tag, page_header_size, frame_header_size}
use kungfu_cpp.Journal.Page.{Page, Disk, journal_version, load, ok}
use kungfu_cpp.Journal.Writer.{Writer}

-- A frame that a reader meets and moves on from, on the same page.
pub record IsEntry (f : Frame) : Type 0 where
  pub long : 0 < f.length
  pub typed : 0 < f.msg_type
  pub inner : f.msg_type ≢ page_end_tag

-- The frames `fs` lie one behind the other from offset `o` to offset `e`.
abbrev pub Laid : (ℕ → Frame) → ℕ → List Frame → ℕ → Type 0
Laid m o [] e = o ≡ e
Laid m o (f ∷ fs) e = (m o ≡ f) × IsEntry f × Laid m (o + f.length) fs e

pub Laid-le : (m : ℕ → Frame) (o : ℕ) (fs : List Frame) (e : ℕ) → Laid m o fs e → o ≤ e
Laid-le m o [] e h = omega arith
Laid-le m o (f ∷ fs) e h = omega (arith, Laid-le m (o + f.length) fs e h.2)

-- What is written at the end, or behind it, leaves the frames alone.
pub Laid-mono :
    (m n : ℕ → Frame) (o : ℕ) (fs : List Frame) (e : ℕ)
    → ((k : ℕ) → k < e → n k ≡ m k)
    → Laid m o fs e
    → Laid n o fs e
Laid-mono m n o [] e same h = h
Laid-mono m n o (f ∷ fs) e same h = (
  same o (omega (arith, Laid-le m (o + f.length) fs e h.2, h.1.long)) ∙ h.0,
  h.1,
  Laid-mono m n (o + f.length) fs e same h.2,
)

pub Laid-append :
    (m : ℕ → Frame) (o : ℕ) (fs : List Frame) (e : ℕ) (f : Frame)
    → Laid m o fs e
    → m e ≡ f
    → IsEntry f
    → Laid m o (fs ++ f ∷ []) (e + f.length)
Laid-append m o [] e f h at v = (subst (λ k. m k ≡ f) (sym h) at, v, omega arith)
Laid-append m o (g ∷ fs) e f h at v = (h.0, h.1, Laid-append m (o + g.length) fs e f h.2 at v)

-- A page that `page::load` accepts as it stands.
pub record IsHeaded (size : ℕ) (p : Page) : Type 0 where
  pub version_eq : p.version ≡ journal_version
  pub header_eq : p.page_header_length ≡ page_header_size
  pub size_eq : p.page_size ≡ size
  pub begun : 0 < p.last_frame_position

-- The page of the writer: `a` is where the next frame goes.
pub record IsOpen (size : ℕ) (p : Page) (fs : List Frame) (a : ℕ) : Type 0 where
  pub headed : IsHeaded size p
  pub laid : Laid p.frames page_header_size fs a
  pub clear : (p.frames a).length ≡ 0
  pub last : p.last_frame_position + (p.frames p.last_frame_position).length ≡ a
  pub room : a + frame_header_size < size

-- A page that an end mark closes.
pub record IsClosed (size : ℕ) (p : Page) (fs : List Frame) (mark : Frame) : Type 0 where
  pub headed : IsHeaded size p
  pub stop : ℕ
  pub laid : Laid p.frames page_header_size fs stop
  pub mark_eq : p.frames stop ≡ mark
  pub mark_type : mark.msg_type ≡ page_end_tag
  pub mark_long : 0 < mark.length
  pub fits : stop + mark.length ≤ size

abbrev pub Closed : ℕ → Disk → ℕ → List (List Frame × Frame) → Type 0
Closed size disk id [] = Unit {0}
Closed size disk id ((fs, mark) ∷ rest) =
    ((p : Page) × (disk id ≡ some p) × IsClosed size p fs mark) × Closed size disk (id + 1) rest

-- The journal from page `first` on: closed pages, then the page of the writer; nothing behind.
pub record IsJournal (size first : ℕ) (w : Writer) (closed : List (List Frame × Frame))
    (fs : List Frame) : Type 0 where
  pub page : Page
  pub loaded : w.journal.page_id ≡ some (first + length closed)
  pub stored : w.disk (first + length closed) ≡ some page
  pub open_page : IsOpen size page fs w.journal.address
  pub before : Closed size w.disk first closed
  pub behind : (k : ℕ) → first + length closed < k → w.disk k ≡ none
  pub unlocked : w.locked ≡ false

-- All frames in order, without the end marks, and with them.
abbrev pub entries : List (List Frame × Frame) → List Frame → List Frame
entries [] fs = fs
entries ((gs, mark) ∷ rest) fs = gs ++ entries rest fs

abbrev pub stream : List (List Frame × Frame) → List Frame → List Frame
stream [] fs = fs
stream ((gs, mark) ∷ rest) fs = gs ++ (mark ∷ stream rest fs)

-- A page that is in order is loaded as it is.
pub load-IsHeaded :
    (size : ℕ) (writable : Bool) (p : Page) → IsHeaded size p → load size writable (some p) ≡ ok p
unfolding load
load-IsHeaded size writable p h = ground arith

pub Closed-mono :
    (size : ℕ) (c d : Disk) (id : ℕ) (closed : List (List Frame × Frame))
    → ((k : ℕ) → k < id + length closed → d k ≡ c k)
    → Closed size c id closed
    → Closed size d id closed
Closed-mono size c d id [] same h = tt
Closed-mono size c d id ((fs, mark) ∷ rest) same h = (
  (h.0.0, same id (omega arith) ∙ h.0.1, h.0.2),
  Closed-mono size c d (id + 1) rest (λ k b. same k (omega arith)) h.1,
)

pub Closed-append :
    (size : ℕ) (c : Disk) (id : ℕ) (closed : List (List Frame × Frame)) (fs : List Frame)
    (mark : Frame) (p : Page)
    → Closed size c id closed
    → c (id + length closed) ≡ some p
    → IsClosed size p fs mark
    → Closed size c id (closed ++ (fs, mark) ∷ [])
Closed-append size c id [] fs mark p h e v = ((p, subst (λ k. c k ≡ some p) (omega arith) e, v), tt)
Closed-append size c id (x ∷ rest) fs mark p h e v = (
  h.0,
  Closed-append size c (id + 1) rest fs mark p h.1 (subst (λ k. c k ≡ some p) (omega arith) e) v,
)

pub entries-append :
    (closed : List (List Frame × Frame)) (fs : List Frame) (mark : Frame) (gs : List Frame)
    → entries (closed ++ (fs, mark) ∷ []) gs ≡ entries closed fs ++ gs
entries-append [] fs mark gs = refl
entries-append ((hs, m) ∷ rest) fs mark gs =
    rw (entries-append rest fs mark gs) (sym (append_assoc hs (entries rest fs) gs))

pub entries-snoc :
    (closed : List (List Frame × Frame)) (fs gs : List Frame)
    → entries closed (fs ++ gs) ≡ entries closed fs ++ gs
entries-snoc [] fs gs = refl
entries-snoc ((hs, m) ∷ rest) fs gs =
    rw (entries-snoc rest fs gs) (sym (append_assoc hs (entries rest fs) gs))

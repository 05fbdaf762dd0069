-- ===== src/Journal/RoundTrip.antt =====
-- What is written is read: a write followed by a reader that starts at the first page.
use kungfu_cpp.Base.{ℕ, ◌+◌, ◌<◌, ◌^◌, ◌≡◌, ◌≢◌, ◌∙◌, Bool, List, [], ◌∷◌, ◌++◌, some, length}
use kungfu_cpp.Journal.Frame.{Frame, page_end_tag, page_header_size}
use kungfu_cpp.Journal.Page.{ok}
use kungfu_cpp.Journal.Cursor.{read}
use kungfu_cpp.Journal.Writer.{Writer, write_bytes}
use kungfu_cpp.Journal.Layout.{IsJournal, entries, stream}
use kungfu_cpp.Journal.Stores.{entry}
use kungfu_cpp.Journal.Append.{Fits, write_bytes-Appended}
use kungfu_cpp.Journal.Reading.{data_frames, read-IsJournal}

-- After a write on a journal that is in order, with pages of less than 4 GiB, of a message type
-- that is positive and no end mark and a payload that fits an empty page, a reader that starts at
-- the first page and is given enough rounds meets the frames that were there and then the new one,
-- and nothing else that carries data.
pub read-write_bytes :
    (size uid dest_id first : ℕ) (writable : Bool) (w : Writer) (closed : List (List Frame × Frame))
    (fs : List Frame) (trigger_time msg_type now : ℕ) (bytes : List ℕ)
    → size < 2 ^ 32
    → Fits size uid dest_id (length bytes)
    → 0 < msg_type
    → msg_type ≢ page_end_tag
    → IsJournal size first w closed fs
    → (w' : Writer) × (gs : List Frame) × (write_bytes size uid dest_id trigger_time msg_type bytes
          now w
        ≡ ok w')
      × ((extra : ℕ)
          → read size writable
              (length gs + extra)
              w'.disk
              (record { page_id = some first; address = page_header_size; page_frame_nb = 0 })
            ≡ ok gs)
      × (data_frames gs
          ≡ entries closed fs ++ entry size uid dest_id trigger_time msg_type bytes now ∷ [])
read-write_bytes size uid dest_id first writable w closed fs trigger_time msg_type now bytes small
      fits t ne j =
    let a =
      write_bytes-Appended size uid dest_id first w closed fs trigger_time msg_type now bytes small
        fits t ne j in
    (
      a.writer,
      stream a.closed' a.fs',
      a.result,
      (λ extra. (read-IsJournal size first writable a.writer a.closed' a.fs' extra a.journal).0),
      (read-IsJournal size first writable a.writer a.closed' a.fs' 0 a.journal).1 ∙ a.contents,
    )

-- ===== src/Journal/Writer.antt =====
-- The class `writer`, src/yijinjing/journal/writer.cpp. The calls of one writer are serialised by
-- `writer_mtx_`; a caller that finds it locked for 30 seconds gets an exception. Time is an argument.
use kungfu_cpp.Base.{
  ℕ, ◌+◌, Bool, true, false, Option, none, some, List, leb, length, if◌then◌else◌,
}
use kungfu_cpp.Journal.Frame.{
  Frame, zeros, frame_header_size, page_end_tag, data_length, set_data_length,
}
use kungfu_cpp.Journal.Page.{
  Page, Disk, Result, ok, err, ◌>>=◌, cannot_lock, put, store, address_border,
}
use kungfu_cpp.Journal.Cursor.{
  Journal, page_of, current_page, current_frame, load_next_page, next, fresh, seek_to_time,
}

-- The writer and the files that it maps.
pub record Writer : Type 0 where
  pub disk : Disk
  pub journal : Journal
  pub size_to_write : ℕ
  pub locked : Bool

-- A store to the loaded page.
unfoldable pub update_page : (Page → Page) → Option ℕ → Disk → Disk
update_page f none disk = disk
update_page f (some id) disk = store disk id (f (page_of disk (some id)))

-- What `open_frame` and `close_page` write into a header.
abbrev pub address_header : ℕ → ℕ → ℕ → ℕ → Frame → Frame
address_header trigger_time msg_type uid dest f = record f {
  header_length = frame_header_size;
  trigger_time = trigger_time;
  msg_type = msg_type;
  source = uid;
  dest = dest;
}

module _ (size uid dest_id : ℕ) where
  -- The end mark stands behind the last frame; it is the last frame then.
  abbrev pub end_page : ℕ → ℕ → Page → Page
  end_page trigger_time now p =
      let a = p.last_frame_position + (p.frames p.last_frame_position).length in
      record (put p a (
        set_data_length 0
          (record (address_header trigger_time page_end_tag uid dest_id (p.frames a)) {
            gen_time = now;
          }))) { last_frame_position = a }

  unfoldable pub close_page : ℕ → ℕ → Writer → Result Writer
  unfolding load_next_page update_page
  close_page trigger_time now w = load_next_page size true w.disk w.journal >>= λ (disk, j).
      ok (record w {
        disk = update_page (end_page trigger_time now) w.journal.page_id disk;
        journal = j;
      })

  abbrev pub overflows : ℕ → Writer → Bool
  overflows data_length w =
      leb (address_border (current_page w.disk w.journal))
        (w.journal.address + frame_header_size + data_length)

  unfoldable pub open_current : ℕ → ℕ → ℕ → Writer → Writer
  unfolding update_page
  open_current trigger_time msg_type data_length w = record w {
    disk =
        update_page
          (λ p.
            put p w.journal.address
              (address_header trigger_time msg_type uid dest_id (p.frames w.journal.address)))
          w.journal.page_id w.disk;
    size_to_write = data_length;
    locked = true;
  }

  unfoldable pub open_frame : ℕ → ℕ → ℕ → ℕ → Writer → Result Writer
  unfolding close_page open_current
  open_frame trigger_time msg_type data_length now w =
      if w.locked
      then err cannot_lock
      else (if overflows data_length w then close_page trigger_time now w else ok w) >>= λ w'.
          ok (open_current trigger_time msg_type data_length w')

  -- The next header is cleared before the length of this frame makes it visible.
  unfoldable pub close_frame : ℕ → ℕ → Writer → Result Writer
  unfolding next update_page
  close_frame data_length gen_time w =
      let a = w.journal.address in
      let f = current_frame w.disk w.journal in
      let disk =
        update_page
          (λ p.
            record (put (put p (a + f.header_length + data_length) zeros) a
              (set_data_length data_length (record f { gen_time = gen_time }))) {
                last_frame_position = a;
              })
          w.journal.page_id w.disk in
      next size true disk w.journal >>= λ (disk', j).
      ok (record w { disk = disk'; journal = j; size_to_write = 0; locked = false })

  -- `memcpy` into the opened frame.
  unfoldable pub copy_data : List ℕ → Writer → Writer
  unfolding update_page
  copy_data bytes w = record w {
    disk =
        update_page
          (λ p. put p w.journal.address (record (p.frames w.journal.address) { payload = bytes }))
          w.journal.page_id w.disk;
  }

  unfoldable pub write_bytes : ℕ → ℕ → List ℕ → ℕ → Writer → Result Writer
  unfolding open_frame close_frame copy_data
  write_bytes trigger_time msg_type bytes now w =
      open_frame trigger_time msg_type (length bytes) now w >>= λ w'.
      close_frame (length bytes) now (copy_data bytes w')

  unfoldable pub mark_at : ℕ → ℕ → ℕ → ℕ → Writer → Result Writer
  unfolding open_frame close_frame
  mark_at gen_time trigger_time msg_type now w =
      open_frame trigger_time msg_type 0 now w >>= λ w'. close_frame 0 gen_time w'

  unfoldable pub copy_frame : Frame → ℕ → Writer → Result Writer
  unfolding close_page next update_page
  copy_frame source now w =
      (if leb (address_border (current_page w.disk w.journal)) (w.journal.address + source.length)
        then close_page now now w
        else ok w)
      >>= λ w'.
          (let a = w'.journal.address in
            let disk =
              update_page
                (λ p.
                  record (put (put p a source) (a + source.header_length + data_length source)
                    zeros) { last_frame_position = a })
                w'.journal.page_id w'.disk in
            next size true disk w'.journal >>= λ (disk', j).
            ok (record w' { disk = disk'; journal = j }))

  -- The constructor: a writer seeks the end of what its journal holds `now`.
  unfoldable pub open_writer : ℕ → List ℕ → ℕ → Disk → Result Writer
  unfolding seek_to_time
  open_writer fuel ids now disk = seek_to_time size true fuel ids now disk fresh >>= λ (disk', j).
      ok (record { disk = disk'; journal = j; size_to_write = 0; locked = false })

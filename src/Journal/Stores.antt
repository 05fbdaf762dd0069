-- ===== src/Journal/Stores.antt =====
-- The stores of one write, on the page of the writer.
use kungfu_cpp.Base.{
  ℕ, ◌+◌, ◌^◌, ◌<◌, ◌≡◌, refl, sym, ap, subst, ◌≢◌, true, false, List, Option, some, arith, length,
  ◌==◌, ==_iff,
}
use kungfu_cpp.Journal.Frame.{Frame, zeros, page_end_tag, frame_header_size, set_data_length, u32}
use kungfu_cpp.Journal.Page.{Page, Disk, ok, put, store}
use kungfu_cpp.Journal.Cursor.{page_of}
use kungfu_cpp.Journal.Writer.{
  Writer, update_page, address_header, open_current, close_frame, copy_data,
}

pub eq_self : (n : ℕ) → (n == n) ≡ true
eq_self n = (==_iff n n).1 refl

pub page_of-eq : (disk : Disk) (id : ℕ) (p : Page) → disk id ≡ some p → page_of disk (some id) ≡ p
page_of-eq disk id p f = rw (f, page_of)

-- A store to a loaded page.
pub update_page-eq :
    (g : Page → Page) (disk : Disk) (page_id : Option ℕ) (id : ℕ) (p : Page)
    → page_id ≡ some id
    → disk id ≡ some p
    → update_page g page_id disk ≡ store disk id (g p)
unfolding update_page
update_page-eq g disk page_id id p e f =
    subst (λ q. update_page g q disk ≡ store disk id (g p)) (sym e)
      (ap (λ q. store disk id (g q)) (page_of-eq disk id p f))

module _ (size uid dest_id : ℕ) where
  -- The page that `close_frame` leaves.
  abbrev pub sealed : Page → ℕ → ℕ → ℕ → Page
  sealed p a n gen_time =
      record (put (put p (a + (p.frames a).header_length + n) zeros) a
        (set_data_length n (record (p.frames a) { gen_time = gen_time }))) {
          last_frame_position = a;
        }

  abbrev pub after_close : ℕ → Page → ℕ → ℕ → Writer → Writer
  after_close id p n gen_time w = record w {
    disk = store w.disk id (sealed p w.journal.address n gen_time);
    journal = record w.journal {
      address = w.journal.address + u32 ((p.frames w.journal.address).header_length + u32 n);
      page_frame_nb = w.journal.page_frame_nb + 1;
    };
    size_to_write = 0;
    locked = false;
  }

  pub close_frame-eq :
      (w : Writer) (id : ℕ) (p : Page) (n gen_time : ℕ)
      → w.journal.page_id ≡ some id
      → w.disk id ≡ some p
      → (p.frames w.journal.address).msg_type ≢ page_end_tag
      → close_frame size uid dest_id n gen_time w ≡ ok (after_close id p n gen_time w)
  unfolding close_frame
  close_frame-eq w id p n gen_time e f ne = ground (arith, e, f)

  abbrev pub opened : ℕ → Page → ℕ → ℕ → ℕ → Writer → Writer
  opened id p trigger_time msg_type n w = record w {
    disk = store w.disk id (
        put p w.journal.address
          (address_header trigger_time msg_type uid dest_id (p.frames w.journal.address)));
    size_to_write = n;
    locked = true;
  }

  pub open_current-eq :
      (w : Writer) (id : ℕ) (p : Page) (trigger_time msg_type n : ℕ)
      → w.journal.page_id ≡ some id
      → w.disk id ≡ some p
      → open_current size uid dest_id trigger_time msg_type n w
        ≡ opened id p trigger_time msg_type n w
  unfolding open_current
  open_current-eq w id p trigger_time msg_type n e f =
      ap (λ d. record w { disk = d; size_to_write = n; locked = true })
        (update_page-eq
          (λ q.
            put q w.journal.address
              (address_header trigger_time msg_type uid dest_id (q.frames w.journal.address)))
          w.disk _ id p e f)

  pub copy_data-eq :
      (w : Writer) (id : ℕ) (p : Page) (bytes : List ℕ)
      → w.journal.page_id ≡ some id
      → w.disk id ≡ some p
      → copy_data size uid dest_id bytes w ≡ record w {
        disk =
            store w.disk id
              (put p w.journal.address (record (p.frames w.journal.address) { payload = bytes }));
      }
  unfolding copy_data
  copy_data-eq w id p bytes e f =
      ap (λ d. record w { disk = d })
        (update_page-eq
          (λ q. put q w.journal.address (record (q.frames w.journal.address) { payload = bytes }))
          w.disk _ id p e f)

  -- The frame that a call of `write_bytes` leaves in the journal.
  abbrev pub entry : ℕ → ℕ → List ℕ → ℕ → Frame
  entry trigger_time msg_type bytes now = record {
    length = frame_header_size + length bytes;
    header_length = frame_header_size;
    gen_time = now;
    trigger_time = trigger_time;
    msg_type = msg_type;
    source = uid;
    dest = dest_id;
    payload = bytes;
  }

  -- What a write on the page of the writer does to it.
  pub record Written (w w' : Writer) (id : ℕ) (p : Page) (f : Frame) : Type 0 where
    pub page : Page
    pub stored : w'.disk id ≡ some page
    pub others : (k : ℕ) → k ≢ id → w'.disk k ≡ w.disk k
    pub loaded : w'.journal.page_id ≡ some id
    pub moved : w'.journal.address ≡ w.journal.address + f.length
    pub unlocked : w'.locked ≡ false
    pub at : page.frames w.journal.address ≡ f
    pub clear : (page.frames (w.journal.address + f.length)).length ≡ 0
    pub below : (k : ℕ) → k < w.journal.address → page.frames k ≡ p.frames k
    pub last : page.last_frame_position ≡ w.journal.address
    pub version : page.version ≡ p.version
    pub header : page.page_header_length ≡ p.page_header_length
    pub size_same : page.page_size ≡ p.page_size

  -- The three steps of a write, on a page with room.
  pub write_here :
      (w : Writer) (id : ℕ) (p : Page) (trigger_time msg_type now : ℕ) (bytes : List ℕ)
      → w.journal.page_id ≡ some id
      → w.disk id ≡ some p
      → msg_type ≢ page_end_tag
      → frame_header_size + length bytes < 2 ^ 32
      → (w' : Writer) × (close_frame size uid dest_id (length bytes) now (
            copy_data size uid dest_id bytes
              (open_current size uid dest_id trigger_time msg_type (length bytes) w))
          ≡ ok w')
        × Written w w' id p (entry trigger_time msg_type bytes now)
  write_here w id p trigger_time msg_type now bytes e f ne short =
      let a = w.journal.address in
      let w1 = opened id p trigger_time msg_type (length bytes) w in
      let p1 = put p a (address_header trigger_time msg_type uid dest_id (p.frames a)) in
      let p2 = put p1 a (record (p1.frames a) { payload = bytes }) in
      let w2 : Writer = record w1 { disk = store w1.disk id p2 } in
      (
        after_close id p2 (length bytes) now w2,
        rw
            (
              open_current-eq w id p trigger_time msg_type (length bytes) e f,
              copy_data-eq w1 id p1 bytes e (ground arith),
            )
            (close_frame-eq w2 id p2 (length bytes) now e (ground arith) (ground (arith, ne))),
        record {
          page = sealed p2 a (length bytes) now;
          stored = ground arith;
          others = λ k h. ground arith;
          loaded = e;
          moved = ground arith;
          unlocked = refl;
          at = ground arith;
          clear = ground arith;
          below = λ k h. ground arith;
          last = refl;
          version = refl;
          header = refl;
          size_same = refl;
        },
      )
  -- A page that a writer has just created.

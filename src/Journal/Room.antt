-- ===== src/Journal/Room.antt =====
-- When a page has room for the frame that `open_frame` hands out.
use kungfu_cpp.Base.{
  ◌∙◌, ap, ℕ, ◌+◌, ◌<◌, ◌≡◌, List, [], arith, Bool-cases, inl, inr, length, ◌&&◌, leb,
}
use kungfu_cpp.Journal.Frame.{Frame, page_header_size, frame_header_size}
use kungfu_cpp.Journal.Page.{ok}
use kungfu_cpp.Journal.Writer.{Writer, overflows, open_frame, open_current}
use kungfu_cpp.Journal.Layout.{IsJournal}
use kungfu_cpp.Journal.Stores.{open_current-eq, opened}
use kungfu_cpp.Journal.Turning.{close_page-eq, turned, turned-IsJournal}
use kungfu_cpp.Journal.Append.{open_frame-eq}

module _ (size uid dest_id : ℕ) where
  opened-overflows :
      (first : ℕ) (w : Writer) (closed : List (List Frame × Frame)) (fs : List Frame)
      (trigger_time msg_type n : ℕ)
      → IsJournal size first w closed fs
      → (w' : Writer) × (open_current size uid dest_id trigger_time msg_type n w ≡ w')
        × (overflows size uid dest_id n w' ≡ overflows size uid dest_id n w)
  opened-overflows first w closed fs trigger_time msg_type n j = (
    opened size uid dest_id (first + length closed) j.page trigger_time msg_type n w,
    open_current-eq size uid dest_id w _ j.page trigger_time msg_type n j.loaded j.stored,
    ground (arith, j.loaded, j.stored),
  )

  turned-overflows :
      (first : ℕ) (w : Writer) (closed : List (List Frame × Frame)) (fs : List Frame)
      (trigger_time n now : ℕ) (j : IsJournal size first w closed fs)
      → page_header_size + frame_header_size < size
      → overflows size uid dest_id n
          (turned size uid dest_id (first + length closed) j.page trigger_time now w)
        ≡ leb size (page_header_size + frame_header_size + n + frame_header_size)
  turned-overflows first w closed fs trigger_time n now j big = ground arith

  -- On a journal that is in order, whose pages have room for one header, `open_frame` on the
  -- unlocked writer succeeds. The frame that it hands out lacks room exactly when the page that the
  -- writer stood on had none and an empty page has none either, the page header counted: the test
  -- is not made again once the page is turned.
  pub open_frame-overflows :
      (first : ℕ) (w : Writer) (closed : List (List Frame × Frame)) (fs : List Frame)
      (trigger_time msg_type n now : ℕ)
      → page_header_size + frame_header_size < size
      → IsJournal size first w closed fs
      → (w' : Writer) × (open_frame size uid dest_id trigger_time msg_type n now w ≡ ok w')
        × (overflows size uid dest_id n w' ≡ (
            overflows size uid dest_id n w
            && leb size (page_header_size + frame_header_size + n + frame_header_size)))
  open_frame-overflows first w closed fs trigger_time msg_type n now big j =
      rw (open_frame-eq size uid dest_id w trigger_time msg_type n now j.unlocked)
        (elim (Bool-cases (overflows size uid dest_id n w)) [
          | inl over ↦
              let k = turned-IsJournal size uid dest_id first w closed fs trigger_time now j big in
              let (w', e, o) = opened-overflows first _ _ [] trigger_time msg_type n k in
              rw
                (
                  over,
                  close_page-eq size uid dest_id w _ j.page trigger_time now j.loaded j.stored
                      (j.behind _ (omega arith)),
                )
                (w', ap ok e, o ∙ turned-overflows first w closed fs trigger_time n now j big)
          | inr room ↦
              let (w', e, o) = opened-overflows first w closed fs trigger_time msg_type n j in
              rw room (w', ap ok e, o ∙ room)
        ])

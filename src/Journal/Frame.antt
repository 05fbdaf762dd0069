-- ===== src/Journal/Frame.antt =====
-- Frames, include/kungfu/yijinjing/journal/frame.h, and the headers of frames and pages that
-- include/kungfu/longfist/types.h lays out without padding.
use kungfu_cpp.Base.{ℕ, ◌+◌, ◌-◌, ◌%◌, ◌^◌, Bool, ◌&&◌, List, [], ltb}

-- sizeof(frame_header) and sizeof(page_header)
abbrev pub frame_header_size : ℕ
frame_header_size = 36

abbrev pub page_header_size : ℕ
page_header_size = 24

-- The tag of `PageEnd`.
abbrev pub page_end_tag : ℕ
page_end_tag = 10000

abbrev pub u32 : ℕ → ℕ
u32 n = n % 2 ^ 32

-- A frame header with the bytes that follow it.
pub record Frame : Type 0 where
  pub length : ℕ
  pub header_length : ℕ
  pub gen_time : ℕ
  pub trigger_time : ℕ
  pub msg_type : ℕ
  pub source : ℕ
  pub dest : ℕ
  pub payload : List ℕ

-- Memory that is zero.
abbrev pub zeros : Frame
zeros = record {
  length = 0;
  header_length = 0;
  gen_time = 0;
  trigger_time = 0;
  msg_type = 0;
  source = 0;
  dest = 0;
  payload = [];
}

abbrev pub has_data : Frame → Bool
has_data f = ltb 0 f.length && ltb 0 f.msg_type

abbrev pub data_length : Frame → ℕ
data_length f = f.length - f.header_length

abbrev pub set_header_length : Frame → Frame
set_header_length f = record f { header_length = frame_header_size }

abbrev pub set_data_length : ℕ → Frame → Frame
set_data_length n f = record f { length = u32 (f.header_length + u32 n) }

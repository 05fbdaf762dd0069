-- ===== src/Journal.antt =====
-- The journal, the append-only log that processes share: include/kungfu/yijinjing/journal and
-- src/yijinjing/journal. A page is a memory-mapped file; here it is its header and the frame that
-- starts at each offset. Addresses are offsets from the start of the page.
pub mod Frame
pub mod Page
pub mod Cursor
pub mod Writer
pub mod Layout
pub mod Stores
pub mod Turning
pub mod Append
pub mod Steps
pub mod Reading
pub mod RoundTrip
pub mod Room
pub mod Seeking
pub mod Suffix
pub mod Reopening
pub mod Creating
pub mod Reader
mod Tests

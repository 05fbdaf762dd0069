-- ===== src/Accounting.antt =====
-- Accounting, src/wingchun/book: what orders do to the positions and the assets of an account.
pub mod Book
pub mod Stock
pub mod Trades
pub mod Closing
pub mod Days
pub mod Holdings
mod Freezing
mod Bounds
pub mod Moves
pub mod Lives
mod Steps
mod Runs
mod Mirroring
mod Tests

-- ===== src/Wingchun.antt =====
-- The trading system: enumerations of include/kungfu/longfist/enums.h and the rules of
-- include/kungfu/wingchun/common.h.
pub mod Enums
pub mod Directions
pub mod Instruments
pub mod HkCodes
pub mod Products
pub mod Repos
pub mod Orders
pub mod Quotes
pub mod Prices
mod Tests

-- ===== src/Service.antt =====
-- Services over market data, src/wingchun/service.
pub mod Bars

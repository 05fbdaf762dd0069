-- ===== src/Broker.antt =====
-- The brokers' side and the side of their clients, include/kungfu/wingchun/broker and
-- src/wingchun/broker.
pub mod Trader
pub mod Client

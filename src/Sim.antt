-- ===== src/Sim.antt =====
-- The simulated broker, brokers/sim/src.
pub mod OrderBook
pub mod Trader

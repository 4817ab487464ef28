-- ===== src/Engine.antt =====
-- web/src/engine: the measurement engine of the browser client.
pub mod Latency
pub mod Meter
pub mod Series
pub mod Transfer
pub mod Monitor
pub mod Runner

-- ===== src/Stats.antt =====
-- Statistics of a server: the collector that answers the administrator's requests.
pub mod Collector
pub mod Sampler
mod Tests

-- ===== src/Redis.antt =====
-- Redis streams (axontask-shared/src/redis).
pub mod StreamId
pub mod StreamOrder
pub mod Serialization
pub mod Decimals
pub mod RoundTrip
pub mod Writer
pub mod Retries
pub mod Reader
pub mod Readings
pub mod Published
pub mod Delivered
pub mod Endings
pub mod Batches
pub mod Heartbeat
pub mod Beats
pub mod Metrics
pub mod Lag

-- ===== src/Analytics.antt =====
-- internal/analytics: what the scans of codes are reduced to before they are stored.
pub mod Rollup
pub mod Balance
pub mod Query
pub mod Recorder
pub mod Retention
mod Examples

-- ===== src/Metrics.antt =====
-- src/infra/metrics/request-metrics.service.ts: the durations of the requests, by route.
mod Service
pub mod Window
pub mod Rank
unfoldable pub use Service.*

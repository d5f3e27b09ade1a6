-- ===== src/Metrics.antt =====
-- internal/metrics: the history of samples.
pub mod Ring

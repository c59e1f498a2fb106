-- ===== src/Observability.antt =====
-- crates/torvyn-observability: the spans of a flow and the histograms of its metrics.
pub mod SpanRing
pub mod Histogram
mod Tests

-- ===== src/Export.antt =====
-- l4scope/crates/l4scope-export: the exporters, up to their input and output.
pub mod Attribution
pub mod Metrics
pub mod JsonSink
pub mod Otlp
pub mod Http

-- ===== src/Detect.antt =====
-- l4scope/crates/l4scope-detect: the detection engine.
pub mod Window
pub mod Flow
pub mod Debounce
pub mod Detectors
pub mod Json
pub mod Engine

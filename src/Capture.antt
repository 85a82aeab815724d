-- ===== src/Capture.antt =====
-- l4scope/crates/l4scope-capture: from bytes to packets.
pub mod Bytes
pub mod Parse
pub mod Reader
pub mod Pcap
pub mod Ebpf
pub mod Synthetic
pub mod Source

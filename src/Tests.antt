-- ===== src/Tests.antt =====
-- Runs of the model and the theorems at concrete inputs.
mod Backlog
mod Storm
mod Json
mod Values
mod Engine
mod Flow
mod Parse
mod Pcap
mod Program
mod Attribution
mod Metrics
mod Agent
mod Args
mod Sources
mod Otlp
mod Exports
mod Config

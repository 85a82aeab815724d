-- ===== src/Lib.antt =====
-- l4scope watches the packets of a host and reports anomalies of the transport layer. This library
-- models its core: the frame parser, the flow table with its TCP state machine, the detectors and
-- the engine that runs them.
--
-- A capture source reads frames, and the parser (l4scope/crates/l4scope-capture/src/parse.rs) turns
-- each into a `PacketMeta`. The agent hands every packet to `Engine::process`
-- (l4scope/crates/l4scope-detect/src/engine.rs), which updates the flow table (flow.rs), runs the
-- detectors (detectors.rs) on what changed, and sweeps the table (`Engine::sweep`) when a second has
-- passed since the last sweep. A sweep reports handshake timeouts and evicts idle flows.
--
-- The files and what they model:
--   Core/Types        l4scope/crates/l4scope-core/src/types.rs: Protocol, Endpoint, FlowKey (with
--                     `canonical`), TcpFlags, PacketMeta, L4Event
--   Core/Config       l4scope/crates/l4scope-core/src/config.rs: the types and `Config::default`;
--                     `from_str` in Config/Parse
--   Core/Float        the operations on f64 and the formats that the code uses, as parameters
--   Detect/Window     l4scope/crates/l4scope-detect/src/window.rs: RollingRate (`record_event` is
--                     `record`, `count_window` is `count`)
--   Detect/Flow       l4scope/crates/l4scope-detect/src/flow.rs: FlowState, PacketDelta, Globals,
--                     EngineState; `seq_diff` in Flow/Seq
--   Detect/Flow/Update  `EngineState::update`, one function for each part of its body, with the checks
--                     of a segment in Flow/Checks
--   Detect/Debounce   `Debounce` of l4scope/crates/l4scope-detect/src/detectors.rs
--   Detect/Detectors  the other rules of detectors.rs; the texts of events in Detectors/Text
--   Detect/Engine     engine.rs: Engine, `process`, `sweep`, `stats`
--   Detect/Json       `L4Event::to_json` of types.rs
--   Capture/Parse     parse.rs: `strip_link`, `parse_ipv4`, `parse_ipv6`, `finish`, `build`; the
--                     reads from a slice in Capture/Bytes
--   Core/Error        l4scope/crates/l4scope-core/src/error.rs
--   Capture/Reader    `read_full` and `read_full_opt` of l4scope/crates/l4scope-capture/src/pcapio.rs,
--                     on a script of what each read of the source does
--   Capture/Pcap      PcapStream of pcapio.rs: `new`, `next_packet`
--   Capture/Ebpf      l4scope/crates/l4scope-capture/src/ebpf.rs: `decode` and `next_packet`
--   Capture/Synthetic l4scope/crates/l4scope-capture/src/synthetic.rs
--   Capture/Source    l4scope/crates/l4scope-capture/src/lib.rs: CaptureSource, PcapSource; `open` in
--                     Source/Open; `open_live` of live.rs in Source/Live
--   Export/Attribution  l4scope/crates/l4scope-export/src/attribution.rs: PodMatcher
--   Export/Metrics    l4scope/crates/l4scope-export/src/metrics.rs: Registry, the Prometheus text in
--                     Metrics/Render
--   Export/JsonSink   l4scope/crates/l4scope-export/src/json.rs
--   Export/Otlp       l4scope/crates/l4scope-export/src/otlp.rs: `build_body`; `parse_target`, `post` and
--                     `flush` in Otlp/Client
--   Export/Http       l4scope/crates/l4scope-export/src/http.rs: `serve`, `handle_conn`
--   Agent             the loop of `run` in l4scope/crates/l4scope-agent/src/main.rs, `handle_event`,
--                     `update_gauges`; the command line and its overrides in Agent/Args,
--                     `build_resource_attrs` in Agent/Resource; all of `run` in Agent/Program, with
--                     `Config::load`
--   Base              the shared helpers: Boolean tests, lists, words, the hash map, the sorted map,
--                     and what the code uses of `str`
-- The children of Detect/Flow, Detect/Window, Detect/Engine, Core/Config, Capture, Export and Agent
-- hold the proofs, and
-- Tests the runs at concrete inputs. Detect/Engine/Trace has the histories: calls of `process` and
-- `sweep` in any order.
--
-- How the code is modelled:
--   - A method with `&mut self` returns the new state beside its result. `update` passes a record
--     `Work` of the flow entry, the host-wide signals and the delta through its parts.
--   - A u8, u16, u32 or u64 is a natural number. `+=` and `*` on u32 and u64 wrap, as they do in a
--     release build; `saturating_sub` is the subtraction of the naturals.
--   - A `HashMap` is an association list. The iteration order of a hash map is unspecified: the
--     model's order is one of the possible ones.
--   - An `IpAddr` is the number that its octets spell. An array of two that is indexed by the
--     direction is a record of two sides.
--   - f64 and `format!` are parameters (`FloatOps`, `Fmt`). The theorems that take them hold for
--     any of them.
--   - `Box<dyn Detector>` is the closed type of the rules in `default_detectors`. Their `name` is not
--     modelled.
--   - A parser returns `found`, `nothing` (the `None` of the code) or `panic` (an index out of
--     bounds or a subtraction below zero). The IPv4 address is read octet by octet, as in the code.
--
-- Bounds: the parser's loops run at most as often as in the code, twice for VLAN tags and eight
-- times for extension headers, by recursion on that number; when it is used up the code goes on
-- after the loop, and so does the model. `next_packet` of Capture/Pcap has fuel, since the code's
-- loop has no bound: more fuel than the reader has arrivals and bytes is enough, as
-- Capture/Pcap/Returns shows, and Capture/Source gives it. The loop of `run` in Agent/Program has one
-- turn more than the source can have packets; its result is `none` if it does not end with them,
-- and Program/Ends shows that it ends. No other function has fuel.
--
-- The system is a parameter: what opening a file and starting a child give (`System`, `Files`), what a
-- connection does, the clock, and the parsers of numbers and addresses of the standard library
-- (`Parsers`). A file or a child is a finite script of what its reads return.
--
-- Not modelled: builds with the features `ebpf` and `etw`, and with them the loading of the eBPF
-- program and the ETW source; the threads, with the server of the metrics and the periodic push to the
-- collector that `run` starts in them, which only read the registry; the console output of the agent;
-- and the kernel program. They are input and output, or code for another machine.
pub mod Base
pub mod Core
pub mod Detect
pub mod Export
pub mod Capture
pub mod Agent
mod Tests

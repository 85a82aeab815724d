-- ===== src/Agent.antt =====
-- l4scope/crates/l4scope-agent/src/main.rs: the loop of `run` that feeds the packets of a source to the
-- engine and its events to the exporters. What it prints is not modelled. The threads of the exporters
-- only read the registry.
pub mod Args
pub mod Resource
pub mod Reports
pub mod Run
pub mod Loop
pub mod Total
pub mod Balance
pub mod Program
use network_l4_monitoring_co.Base.{
  ℕ, ◌%◌, String, List, [], ◌∷◌, Option, none, some, ◌==◌, if◌then◌else◌, wrapping_add64,
}
use network_l4_monitoring_co.Base.Order.{string_ord}
use network_l4_monitoring_co.Base.BTreeMap.{BTreeMap}
use network_l4_monitoring_co.Base.BTreeMap.Counter.{increment}
use network_l4_monitoring_co.Core.Float.{FloatOps, Fmt}
use network_l4_monitoring_co.Core.Config.{DetectConfig}
use network_l4_monitoring_co.Core.Types.{FlowKey, PacketMeta, L4Event}
use network_l4_monitoring_co.Detect.Engine
use network_l4_monitoring_co.Detect.Engine.{Engine, process, sweep, stats}
use network_l4_monitoring_co.Detect.Json.{kind_name}
use network_l4_monitoring_co.Export.Attribution.{PodMatcher, local_pod_ip}
use network_l4_monitoring_co.Export.JsonSink.{JsonSink, emit}
use network_l4_monitoring_co.Export.Metrics
use network_l4_monitoring_co.Export.Metrics.{Metrics, record_packet, record_event, set_gauges}

-- The variables of the loop.
pub record Agent (F : Type 0) : Type 0 where
  pub engine : Engine F
  pub registry : Metrics F
  pub json_sink : JsonSink
  pub summary : BTreeMap String ℕ
  pub packets : ℕ
  pub last_ts : ℕ

module _ {F : Type 0} (ops : FloatOps F) (fmt : Fmt F) (pod_matcher : Option PodMatcher) where
  unfoldable pub pod_of : FlowKey → Option String
  pod_of key = elim pod_matcher [ none ↦ none | some m ↦ local_pod_ip fmt m key ]

  unfoldable pub handle_event : L4Event F → Agent F → Agent F
  handle_event ev a = record a {
    registry = record_event ev (pod_of ev.key) a.registry;
    json_sink = emit fmt ev a.json_sink;
    summary = increment (kind_name ev.kind) a.summary;
  }

  unfoldable pub handle_events : List (L4Event F) → Agent F → Agent F
  handle_events [] a = a
  handle_events (ev ∷ evs) a = handle_events evs (handle_event ev a)

  unfoldable pub update_gauges : ℕ → Agent F → Agent F
  update_gauges now a =
      let s = stats ops a.engine now in
      record a {
        registry =
            set_gauges s.active_flows s.half_open_max s.rst_per_sec s.new_flow_per_sec a.registry;
      }

  -- One turn of the loop, for a packet.
  unfoldable pub handle_packet : PacketMeta → Agent F → Agent F
  handle_packet pkt a =
      let (engine, evs) = process ops fmt pkt a.engine in
      let before : Agent F = record a {
        engine = engine;
        registry = record_packet (pod_of pkt.key) a.registry;
        packets = wrapping_add64 a.packets 1;
        last_ts = pkt.ts_nanos;
      } in
      let handled = handle_events evs before in
      if handled.packets % 512 == 0 then update_gauges handled.last_ts handled else handled

  -- The loop, which the end of the stream and an error both leave.
  unfoldable pub handle_packets : List PacketMeta → Agent F → Agent F
  handle_packets [] a = a
  handle_packets (pkt ∷ pkts) a = handle_packets pkts (handle_packet pkt a)

  -- The sweep after the loop, and the last update of the gauges.
  unfoldable pub finish : Agent F → Agent F
  finish a =
      let (engine, evs) = sweep ops fmt a.last_ts a.engine in
      let handled = handle_events evs (record a { engine = engine }) in
      update_gauges handled.last_ts handled

  unfoldable pub start : DetectConfig F → JsonSink → Agent F
  start cfg sink = record {
    engine = Engine.new cfg;
    registry = Metrics.new ops;
    json_sink = sink;
    summary = [];
    packets = 0;
    last_ts = 0;
  }

  unfoldable pub run : DetectConfig F → JsonSink → List PacketMeta → Agent F
  unfolding start
  run cfg sink pkts = finish (handle_packets pkts (start cfg sink))

-- ===== src/Agent/Run.antt =====
-- The loop of main.rs as a history of the engine: the calls that it makes, and what it counts.
use network_l4_monitoring_co.Base.{
  ℕ, ◌%◌, ◌^◌, ◌≡◌, refl, sym, ap, ◌∙◌, String, List, [], ◌∷◌, ◌++◌, map, Option, length,
}
use mathlib.Core.List.{append_assoc}
use network_l4_monitoring_co.Base.Order.{string_ord}
use network_l4_monitoring_co.Base.BTreeMap.Counter.{count_all}
use network_l4_monitoring_co.Core.Float.{FloatOps, Fmt}
use network_l4_monitoring_co.Core.Config.{DetectConfig}
use network_l4_monitoring_co.Core.Types.{PacketMeta, L4Event}
use network_l4_monitoring_co.Detect.Engine
use network_l4_monitoring_co.Detect.Engine.{Engine, stats, process, sweep}
use network_l4_monitoring_co.Detect.Engine.Trace
use network_l4_monitoring_co.Detect.Engine.Trace.{Call, packet, timer, call}
use network_l4_monitoring_co.Export.Attribution.{PodMatcher}
use network_l4_monitoring_co.Export.JsonSink.{JsonSink}
use network_l4_monitoring_co.Export.Metrics
use network_l4_monitoring_co.Export.Metrics.{Metrics, when_pod, record_packet, set_gauges}
use network_l4_monitoring_co.Agent.{Agent, pod_of, handle_event, handle_events, update_gauges}
use network_l4_monitoring_co.Agent.Reports.{Reports}

-- The time of the last packet, 0 before the first.
abbrev pub last_time : ℕ → List PacketMeta → ℕ
last_time t [] = t
last_time t (pkt ∷ pkts) = last_time pkt.ts_nanos pkts

abbrev pub pods_of : (PacketMeta → Option String) → List PacketMeta → List String
pods_of pod [] = []
pods_of pod (pkt ∷ pkts) = when_pod ◌∷◌ (pod pkt) (pods_of pod pkts)

pub last_time-concat :
    (t : ℕ) (pkts : List PacketMeta) (pkt : PacketMeta)
    → last_time t (pkts ++ pkt ∷ []) ≡ pkt.ts_nanos
last_time-concat t [] pkt = refl
last_time-concat t (p ∷ pkts) pkt = last_time-concat p.ts_nanos pkts pkt

module _ {F : Type 0} (ops : FloatOps F) (fmt : Fmt F) where
  pub run-append :
      (cs ds : List Call) (e : Engine F)
      → let (e', out) = Trace.run ops fmt cs e in
        let (e'', later) = Trace.run ops fmt ds e' in
        Trace.run ops fmt (cs ++ ds) e ≡ (e'', out ++ later)
  unfolding Trace.run
  run-append [] ds e = refl
  run-append (c ∷ cs) ds e =
      let (e', out) = call ops fmt c e in
      let (e'', more) = Trace.run ops fmt cs e' in
      let (final, later) = Trace.run ops fmt ds e'' in
      ap (λ (r : Engine F × List (L4Event F)). (r.0, out ++ r.1)) (run-append cs ds e')
      ∙ ap (λ l. (final, l)) (sym (append_assoc out more later))

-- What the loop has done after these packets, from the state that `start` gives.
module _ {F : Type 0} (ops : FloatOps F) (fmt : Fmt F) (pod_matcher : Option PodMatcher)
    (sink : JsonSink) (cfg : DetectConfig F) where
  abbrev pub history : List PacketMeta → Engine F × List (L4Event F)
  history pkts = Trace.run ops fmt (map packet pkts) (Engine.new cfg)

  abbrev pub packet_pods : List PacketMeta → List String
  packet_pods = pods_of (λ pkt. pod_of ops fmt pod_matcher pkt.key)

  pub record Reached (pkts : List PacketMeta) (a : Agent F) : Type 0 where
    pub engine : a.engine ≡ (history pkts).0
    pub reports : Reports ops fmt pod_matcher sink (history pkts).1 a
    pub packets : a.packets ≡ length pkts % 2 ^ 64
    pub packets_total : a.registry.packets_total ≡ length pkts % 2 ^ 64
    pub pod_packets : a.registry.pod_packets ≡ count_all (packet_pods pkts) []
    pub last_ts : a.last_ts ≡ last_time 0 pkts

  -- What the events of a call leave alone.
  pub record Kept (b a : Agent F) : Type 0 where
    pub engine : a.engine ≡ b.engine
    pub packets : a.packets ≡ b.packets
    pub packets_total : a.registry.packets_total ≡ b.registry.packets_total
    pub pod_packets : a.registry.pod_packets ≡ b.registry.pod_packets
    pub last_ts : a.last_ts ≡ b.last_ts

  pub handle_events-Kept :
      (out : List (L4Event F)) (a : Agent F) → Kept a (handle_events ops fmt pod_matcher out a)
  unfolding handle_events handle_event Metrics.record_event
  handle_events-Kept [] a = record {
    engine = refl;
    packets = refl;
    packets_total = refl;
    pod_packets = refl;
    last_ts = refl;
  }
  handle_events-Kept (ev ∷ out) a =
      let k = handle_events-Kept out (handle_event ops fmt pod_matcher ev a) in
      record {
        engine = k.engine;
        packets = k.packets;
        packets_total = k.packets_total;
        pod_packets = k.pod_packets;
        last_ts = k.last_ts;
      }

  pub update_gauges-Reports :
      (evs : List (L4Event F)) (now : ℕ) (a : Agent F)
      → Reports ops fmt pod_matcher sink evs a
      → Reports ops fmt pod_matcher sink evs (update_gauges ops fmt pod_matcher now a)
  unfolding update_gauges set_gauges
  update_gauges-Reports evs now a h = record {
    events_total = h.events_total;
    event_counts = h.event_counts;
    pod_event_counts = h.pod_event_counts;
    summary = h.summary;
    target = h.target;
    written = h.written;
  }

  pub update_gauges-Reached :
      (pkts : List PacketMeta) (now : ℕ) (a : Agent F)
      → Reached pkts a
      → Reached pkts (update_gauges ops fmt pod_matcher now a)
  unfolding update_gauges set_gauges
  update_gauges-Reached pkts now a h = record {
    engine = h.engine;
    reports = update_gauges-Reports (history pkts).1 now a h.reports;
    packets = h.packets;
    packets_total = h.packets_total;
    pod_packets = h.pod_packets;
    last_ts = h.last_ts;
  }

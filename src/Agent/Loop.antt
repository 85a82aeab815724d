-- ===== src/Agent/Loop.antt =====
-- The whole of main.rs's loop, with the sweep and the gauges after it.
use network_l4_monitoring_co.Base.{
  ℕ, ◌%◌, ◌≡◌, refl, sym, ap, ◌∙◌, subst, String, List, [], ◌∷◌, ◌++◌, map, Option, none, some,
  arith, length-append, wrapping_add64, Bool, true, false, if◌then◌else◌, ◌==◌,
}
use mathlib.Core.List.{append_assoc, append-nil, map-append}
use network_l4_monitoring_co.Base.Order.{string_ord}
use network_l4_monitoring_co.Base.BTreeMap.Counter.{increment, count_all}
use network_l4_monitoring_co.Base.BTreeMap.{BTreeMap}
use network_l4_monitoring_co.Core.Float.{FloatOps, Fmt}
use network_l4_monitoring_co.Core.Config.{DetectConfig}
use network_l4_monitoring_co.Core.Types.{PacketMeta, L4Event}
use network_l4_monitoring_co.Detect.Engine
use network_l4_monitoring_co.Detect.Engine.{Engine, stats, process, sweep}
use network_l4_monitoring_co.Detect.Engine.Trace
use network_l4_monitoring_co.Detect.Engine.Trace.{Call, packet, timer, call}
use network_l4_monitoring_co.Export.Attribution.{PodMatcher}
use network_l4_monitoring_co.Export.JsonSink.{JsonSink}
use network_l4_monitoring_co.Export.Metrics.{when_pod, record_packet}
use network_l4_monitoring_co.Agent.{
  Agent, pod_of, handle_events, update_gauges, handle_packet, handle_packets,
}
use network_l4_monitoring_co.Agent.Reports.{Reports, handle_events-Reports}
use network_l4_monitoring_co.Agent.Run.{
  last_time-concat, pods_of, run-append, history, Reached, handle_events-Kept,
  update_gauges-Reached,
}

count_all-when_pod :
    (pod : Option String) (ks : List String) (m : BTreeMap String ℕ)
    → count_all (when_pod ◌∷◌ pod ks) m ≡ count_all ks (when_pod increment pod m)
unfolding count_all
count_all-when_pod none ks m = refl
count_all-when_pod (some ip) ks m = refl

pods_of-concat :
    (pod : PacketMeta → Option String) (pkts : List PacketMeta) (pkt : PacketMeta)
    (m : BTreeMap String ℕ)
    → when_pod increment (pod pkt) (count_all (pods_of pod pkts) m)
      ≡ count_all (pods_of pod (pkts ++ pkt ∷ [])) m
unfolding count_all
pods_of-concat pod [] pkt m = sym (count_all-when_pod (pod pkt) [] m)
pods_of-concat pod (p ∷ pkts) pkt m =
    ap (when_pod increment (pod pkt)) (count_all-when_pod (pod p) (pods_of pod pkts) m)
    ∙ pods_of-concat pod pkts pkt (when_pod increment (pod p) m)
    ∙ sym (count_all-when_pod (pod p) (pods_of pod (pkts ++ pkt ∷ [])) m)

module _ {F : Type 0} (ops : FloatOps F) (fmt : Fmt F) (pod_matcher : Option PodMatcher)
    (sink : JsonSink) (cfg : DetectConfig F) where
  history-concat :
      (pkts : List PacketMeta) (pkt : PacketMeta)
      → let (e, out) = history ops fmt pod_matcher sink cfg pkts in
        let (e', more) = process ops fmt pkt e in
        history ops fmt pod_matcher sink cfg (pkts ++ pkt ∷ []) ≡ (e', out ++ more)
  unfolding Trace.run
  history-concat pkts pkt =
      let (e, out) = history ops fmt pod_matcher sink cfg pkts in
      let (e', more) = process ops fmt pkt e in
      ap (λ cs. Trace.run ops fmt cs (Engine.new cfg)) (map-append packet pkts (pkt ∷ []))
      ∙ run-append ops fmt (map packet pkts) (packet pkt ∷ []) (Engine.new cfg)
      ∙ ap (λ l. (e', out ++ l)) (append-nil more)

  -- The state of a turn before its events are handled.
  abbrev taken : PacketMeta → Agent F → Agent F
  taken pkt a = record a {
    engine = (process ops fmt pkt a.engine).0;
    registry = record_packet (pod_of ops fmt pod_matcher pkt.key) a.registry;
    packets = wrapping_add64 a.packets 1;
    last_ts = pkt.ts_nanos;
  }

  taken-Reports :
      (evs : List (L4Event F)) (pkt : PacketMeta) (a : Agent F)
      → Reports ops fmt pod_matcher sink evs a
      → Reports ops fmt pod_matcher sink evs (taken pkt a)
  unfolding record_packet
  taken-Reports evs pkt a h = record {
    events_total = h.events_total;
    event_counts = h.event_counts;
    pod_event_counts = h.pod_event_counts;
    summary = h.summary;
    target = h.target;
    written = h.written;
  }

  handled-Reached :
      (pkts : List PacketMeta) (pkt : PacketMeta) (a : Agent F)
      → Reached ops fmt pod_matcher sink cfg pkts a
      → Reached ops fmt pod_matcher sink cfg
          (pkts ++ pkt ∷ [])
          (handle_events ops fmt pod_matcher (process ops fmt pkt a.engine).1 (taken pkt a))
  unfolding record_packet
  handled-Reached pkts pkt a h =
      let past = history ops fmt pod_matcher sink cfg pkts in
      let evs = (process ops fmt pkt a.engine).1 in
      let k = handle_events-Kept ops fmt pod_matcher sink cfg evs (taken pkt a) in
      let step = ap (λ e. (process ops fmt pkt e)) h.engine in
      let now = history-concat pkts pkt in
      let more =
        handle_events-Reports ops fmt pod_matcher sink past.1 evs (taken pkt a)
          (taken-Reports past.1 pkt a h.reports) in
      record {
        engine = k.engine ∙ ap (λ r. r.0) step ∙ sym (ap (λ r. r.0) now);
        reports =
            subst
              (λ l.
                Reports ops fmt pod_matcher sink l
                  (handle_events ops fmt pod_matcher evs (taken pkt a)))
              (ap (λ r. past.1 ++ r.1) step ∙ sym (ap (λ r. r.1) now)) more;
        packets = omega (arith, k.packets, h.packets, length-append pkts (pkt ∷ []));
        packets_total =
            omega (arith, k.packets_total, h.packets_total, length-append pkts (pkt ∷ []));
        pod_packets =
            k.pod_packets
            ∙ ap (when_pod increment (pod_of ops fmt pod_matcher pkt.key)) h.pod_packets
            ∙ pods_of-concat (λ p. pod_of ops fmt pod_matcher p.key) pkts pkt [];
        last_ts = k.last_ts ∙ sym (last_time-concat 0 pkts pkt);
      }

  gauges_if-Reached :
      (b : Bool) (pkts : List PacketMeta) (now : ℕ) (a : Agent F)
      → Reached ops fmt pod_matcher sink cfg pkts a
      → Reached ops fmt pod_matcher sink cfg pkts
          (if b then update_gauges ops fmt pod_matcher now a else a)
  gauges_if-Reached true pkts now a h =
      update_gauges-Reached ops fmt pod_matcher sink cfg pkts now a h
  gauges_if-Reached false pkts now a h = h

  pub handle_packets-Reached :
      (seen pkts : List PacketMeta) (a : Agent F)
      → Reached ops fmt pod_matcher sink cfg seen a
      → Reached ops fmt pod_matcher sink cfg
          (seen ++ pkts)
          (handle_packets ops fmt pod_matcher pkts a)
  unfolding handle_packets handle_packet
  handle_packets-Reached seen [] a h =
      subst (λ l. Reached ops fmt pod_matcher sink cfg l a) (sym (append-nil seen)) h
  handle_packets-Reached seen (pkt ∷ pkts) a h =
      let b = handle_events ops fmt pod_matcher (process ops fmt pkt a.engine).1 (taken pkt a) in
      let turn =
        gauges_if-Reached (b.packets % 512 == 0) (seen ++ pkt ∷ []) b.last_ts b
          (handled-Reached seen pkt a h) in
      subst
        (λ l.
          Reached ops fmt pod_matcher sink cfg l
            (handle_packets ops fmt pod_matcher pkts (handle_packet ops fmt pod_matcher pkt a)))
        (append_assoc seen (pkt ∷ []) pkts)
        (handle_packets-Reached (seen ++ pkt ∷ []) pkts (handle_packet ops fmt pod_matcher pkt a)
          turn)

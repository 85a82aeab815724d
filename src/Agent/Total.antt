-- ===== src/Agent/Total.antt =====
-- A whole run of main.rs: the loop, the sweep and the last update of the gauges.
use network_l4_monitoring_co.Base.{
  ◌%◌, ◌^◌, ◌≡◌, refl, sym, ap, ◌∙◌, subst, List, [], ◌∷◌, ◌++◌, map, Option, length, Bool, true,
  false, if◌then◌else◌,
}
use mathlib.Core.List.{append-nil}
use network_l4_monitoring_co.Base.Order.{string_ord}
use network_l4_monitoring_co.Base.BTreeMap.Counter.{count_all}
use network_l4_monitoring_co.Core.Float.{FloatOps, Fmt}
use network_l4_monitoring_co.Core.Config.{DetectConfig}
use network_l4_monitoring_co.Core.Types.{PacketMeta}
use network_l4_monitoring_co.Detect.Engine
use network_l4_monitoring_co.Detect.Engine.{Engine, stats, process, sweep}
use network_l4_monitoring_co.Detect.Engine.Trace
use network_l4_monitoring_co.Detect.Engine.Trace.{Call, packet, timer, call}
use network_l4_monitoring_co.Export.Attribution.{PodMatcher}
use network_l4_monitoring_co.Export.JsonSink.{JsonSink, writes}
use network_l4_monitoring_co.Export.Metrics
use network_l4_monitoring_co.Export.Metrics.{Metrics, when_pod, record_packet, set_gauges}
use network_l4_monitoring_co.Agent.{
  Agent, handle_events, update_gauges, handle_packets, finish, start, run,
}
use network_l4_monitoring_co.Agent.Reports.{Reports, handle_events-Reports}
use network_l4_monitoring_co.Agent.Run.{
  last_time, run-append, history, packet_pods, Reached, handle_events-Kept, update_gauges-Reports,
}
use network_l4_monitoring_co.Agent.Loop.{handle_packets-Reached}

module _ {F : Type 0} (ops : FloatOps F) (fmt : Fmt F) (pod_matcher : Option PodMatcher)
    (sink : JsonSink) (cfg : DetectConfig F) where
  append-if : {A : Type 0} (b : Bool) (xs : List A) → xs ≡ xs ++ (if b then [] else [])
  append-if true xs = sym (append-nil xs)
  append-if false xs = sym (append-nil xs)

  start-Reached : Reached ops fmt pod_matcher sink cfg [] (start ops fmt pod_matcher cfg sink)
  unfolding start Metrics.new Trace.run count_all
  start-Reached = record {
    engine = refl;
    reports = record {
      events_total = refl;
      event_counts = refl;
      pod_event_counts = refl;
      summary = refl;
      target = refl;
      written = append-if (writes sink.target) sink.written;
    };
    packets = refl;
    packets_total = refl;
    pod_packets = refl;
    last_ts = refl;
  }

  -- The calls of the engine that a run makes.
  abbrev pub calls : List PacketMeta → List Call
  calls pkts = map packet pkts ++ timer (last_time 0 pkts) ∷ []

  -- What a run leaves: the engine has made the calls of the run, the exporters have their events,
  -- the packets are counted, and the gauges show the engine at the time of the last packet.
  pub record Finished (pkts : List PacketMeta) (a : Agent F) : Type 0 where
    pub engine : a.engine ≡ (Trace.run ops fmt (calls pkts) (Engine.new cfg)).0
    pub reports :
        Reports ops fmt pod_matcher sink (Trace.run ops fmt (calls pkts) (Engine.new cfg)).1 a
    pub packets : a.packets ≡ length pkts % 2 ^ 64
    pub packets_total : a.registry.packets_total ≡ length pkts % 2 ^ 64
    pub pod_packets :
        a.registry.pod_packets ≡ count_all (packet_pods ops fmt pod_matcher sink cfg pkts) []
    pub active_flows :
        a.registry.active_flows ≡ (stats ops a.engine (last_time 0 pkts)).active_flows
    pub half_open_max :
        a.registry.half_open_max ≡ (stats ops a.engine (last_time 0 pkts)).half_open_max
    pub rst_per_sec : a.registry.rst_per_sec ≡ (stats ops a.engine (last_time 0 pkts)).rst_per_sec
    pub new_flow_per_sec :
        a.registry.new_flow_per_sec ≡ (stats ops a.engine (last_time 0 pkts)).new_flow_per_sec

  finish-Finished :
      (pkts : List PacketMeta) (a : Agent F)
      → Reached ops fmt pod_matcher sink cfg pkts a
      → Finished pkts (finish ops fmt pod_matcher a)
  unfolding finish set_gauges update_gauges Trace.run
  finish-Finished pkts a r =
      let past = history ops fmt pod_matcher sink cfg pkts in
      let (e, evs) = sweep ops fmt a.last_ts a.engine in
      let b : Agent F = record a { engine = e } in
      let k = handle_events-Kept ops fmt pod_matcher sink cfg evs b in
      let step : sweep ops fmt a.last_ts a.engine ≡ sweep ops fmt (last_time 0 pkts) past.0 =
        ap (λ t. sweep ops fmt t a.engine) r.last_ts
        ∙ ap (sweep ops fmt (last_time 0 pkts)) r.engine in
      let all =
        run-append ops fmt (map packet pkts) (timer (last_time 0 pkts) ∷ []) (Engine.new cfg) in
      let same : Reports ops fmt pod_matcher sink past.1 b = record {
        events_total = r.reports.events_total;
        event_counts = r.reports.event_counts;
        pod_event_counts = r.reports.pod_event_counts;
        summary = r.reports.summary;
        target = r.reports.target;
        written = r.reports.written;
      } in
      let handled = handle_events ops fmt pod_matcher evs b in
      let gauges =
        update_gauges-Reports ops fmt pod_matcher sink cfg (past.1 ++ evs) handled.last_ts handled
          (handle_events-Reports ops fmt pod_matcher sink past.1 evs b same) in
      let now = k.last_ts ∙ r.last_ts in
      record {
        engine = k.engine ∙ ap (λ p. p.0) step ∙ sym (ap (λ p. p.0) all);
        reports =
            subst (λ l. Reports ops fmt pod_matcher sink l (finish ops fmt pod_matcher a))
              (ap (λ p. past.1 ++ p.1) step
                ∙ ap (λ l. past.1 ++ l) (sym (append-nil _))
                ∙ sym (ap (λ p. p.1) all))
              gauges;
        packets = k.packets ∙ r.packets;
        packets_total = k.packets_total ∙ r.packets_total;
        pod_packets = k.pod_packets ∙ r.pod_packets;
        active_flows = ap (λ t. (stats ops handled.engine t).active_flows) now;
        half_open_max = ap (λ t. (stats ops handled.engine t).half_open_max) now;
        rst_per_sec = ap (λ t. (stats ops handled.engine t).rst_per_sec) now;
        new_flow_per_sec = ap (λ t. (stats ops handled.engine t).new_flow_per_sec) now;
      }

  -- A run over any packets makes exactly the calls of the engine that process them in order and then
  -- sweep at the time of the last one; the registry, the summary and the sink have exactly the events
  -- of these calls, each once and in order; the packets are counted in 64 bits, in all and by pod; and
  -- the gauges show the final engine.
  pub run-Finished :
      (pkts : List PacketMeta) → Finished pkts (run ops fmt pod_matcher cfg sink pkts)
  unfolding run
  run-Finished pkts =
      let a = start ops fmt pod_matcher cfg sink in
      finish-Finished pkts (handle_packets ops fmt pod_matcher pkts a)
        (handle_packets-Reached ops fmt pod_matcher sink cfg [] pkts a start-Reached)

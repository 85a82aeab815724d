-- ===== src/Agent/Balance.antt =====
-- The counts of a run of main.rs agree with each other.
use network_l4_monitoring_co.Base.{
  ◌+◌, ◌^◌, ◌<◌, ◌≤◌, ◌≡◌, refl, ap, ◌∙◌, List, [], ◌∷◌, map, Option, Bool, true, false, arith,
  length, length-append, if◌then◌else◌,
}
use network_l4_monitoring_co.Base.Order.{string_ord, pair_ord}
use network_l4_monitoring_co.Base.BTreeMap.Counter.{sum_values, sum_values-count_all}
use network_l4_monitoring_co.Core.Float.{FloatOps, Fmt}
use network_l4_monitoring_co.Core.Config.{DetectConfig}
use network_l4_monitoring_co.Core.Types.{PacketMeta, L4Event}
use network_l4_monitoring_co.Detect.Engine
use network_l4_monitoring_co.Detect.Engine.Trace
use network_l4_monitoring_co.Detect.Json.{kind_name, to_json}
use network_l4_monitoring_co.Export.Attribution.{PodMatcher}
use network_l4_monitoring_co.Export.JsonSink.{JsonSink, writes}
use network_l4_monitoring_co.Export.Metrics.Counts.{
  labels, pod_labels, length-labels, length-pod_labels-le,
}
use network_l4_monitoring_co.Agent.{run, pod_of}
use network_l4_monitoring_co.Agent.Reports.{attributed}
use network_l4_monitoring_co.Agent.Total.{calls, run-Finished}

length-map : {A B : Type 0} (f : A → B) (xs : List A) → length (map f xs) ≡ length xs
length-map f [] = refl
length-map f (x ∷ xs) = omega (arith, length-map f xs)

length-lines :
    {A B : Type 0} (b : Bool) (f : A → B) (xs : List A)
    → length (if b then map f xs else []) ≡ (if b then length xs else 0)
length-lines true f xs = length-map f xs
length-lines false f xs = refl

module _ {F : Type 0} (ops : FloatOps F) (fmt : Fmt F) (pod_matcher : Option PodMatcher)
    (sink : JsonSink) (cfg : DetectConfig F) where
  length-attributed :
      (evs : List (L4Event F)) → length (attributed ops fmt pod_matcher sink evs) ≡ length evs
  length-attributed = length-map (λ ev. (ev, pod_of ops fmt pod_matcher ev.key))

  -- After a run with fewer than 2^64 events the total of the registry is the number of the events of
  -- the engine; the summary and the counters by kind and severity sum up to it; the counters of the
  -- pods sum up to at most it; and a sink that writes has as many new lines, another one none.
  pub run-sum_values :
      (pkts : List PacketMeta)
      → let evs =
          (Trace.run ops fmt (calls ops fmt pod_matcher sink cfg pkts) (Engine.new cfg)).1 in
        let a = run ops fmt pod_matcher cfg sink pkts in
        length evs < 2 ^ 64
        → (a.registry.events_total ≡ length evs)
          × (sum_values a.summary ≡ length evs)
          × (sum_values a.registry.event_counts ≡ length evs)
          × (sum_values a.registry.pod_event_counts ≤ length evs)
          × (length a.json_sink.written
              ≡ length sink.written + (if writes sink.target then length evs else 0))
  run-sum_values pkts few =
      let evs = (Trace.run ops fmt (calls ops fmt pod_matcher sink cfg pkts) (Engine.new cfg)).1 in
      let r = (run-Finished ops fmt pod_matcher sink cfg pkts).reports in
      let attr = attributed ops fmt pod_matcher sink evs in
      let kinds = map (λ ev. kind_name ev.kind) evs in
      let lines = if writes sink.target then map (to_json fmt) evs else [] in
      let m = length-map (λ ev. kind_name ev.kind) evs in
      let n = length-attributed evs in
      let by_kind = sum_values-count_all kinds [] (omega (arith, m)) in
      let by_label = sum_values-count_all (labels attr) [] (omega (arith, length-labels attr, n)) in
      let by_pod =
        sum_values-count_all (pod_labels attr) [] (omega (arith, length-pod_labels-le attr, n)) in
      (
        omega (arith, r.events_total),
        omega (arith, ap sum_values r.summary, by_kind, m),
        omega (arith, ap sum_values r.event_counts, by_label, length-labels attr, n),
        omega (arith, ap sum_values r.pod_event_counts, by_pod, length-pod_labels-le attr, n),
        ap length r.written
            ∙ length-append sink.written lines
            ∙ ap (λ k. length sink.written + k)
                (length-lines (writes sink.target) (to_json fmt) evs),
      )

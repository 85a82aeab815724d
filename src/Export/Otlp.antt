-- ===== src/Export/Otlp.antt =====
-- l4scope/crates/l4scope-export/src/otlp.rs: the body of an export; the client that sends it is in
-- Otlp/Client.
pub mod Escaped
pub mod Client
use Prim.Native.Char.{code}
use Prim.Native.String.{◌++◌}
use network_l4_monitoring_co.Base.{
  ℕ, String, List, [], ◌∷◌, ◌++◌ as append, map, if◌then◌else◌, ◌==◌,
}
use network_l4_monitoring_co.Core.Float.{Fmt}
use network_l4_monitoring_co.Export.Metrics.{MetricsSnapshot}

unfoldable pub esc : String → String
esc String.[] = ""
esc (String.◌∷◌ c s) =
    let rest = esc s in
    if code c == 34
    then "\\\"" ++ rest
    else if code c == 92
    then "\\\\" ++ rest
    else if code c == 10
    then "\\n" ++ rest
    else if code c == 13
    then "\\r" ++ rest
    else if code c == 9
    then "\\t" ++ rest
    else String.◌∷◌ c rest

unfoldable pub attr_str : String → String → String
unfolding esc
attr_str key val =
    "{\"key\":\"" ++ esc key ++ "\",\"value\":{\"stringValue\":\"" ++ esc val ++ "\"}}"

-- `items.join(",")`
unfoldable pub joined : List String → String
joined [] = ""
joined (s ∷ []) = s
joined (s ∷ t ∷ rest) = s ++ "," ++ joined (t ∷ rest)

unfoldable pub attrs_array : List (String × String) → String
unfolding attr_str joined
attrs_array pairs = "[" ++ joined (map (λ (k, v). attr_str k v) pairs) ++ "]"

unfoldable pub metric_sum : String → String → List String → String
unfolding joined
metric_sum name unit dps =
    "{\"name\":\""
    ++ name
    ++ "\",\"unit\":\""
    ++ unit
    ++ "\",\"sum\":{\"aggregationTemporality\":2,\"isMonotonic\":true,\"dataPoints\":["
    ++ joined dps
    ++ "]}}"

unfoldable pub metric_gauge : String → String → List String → String
unfolding joined
metric_gauge name unit dps =
    "{\"name\":\""
    ++ name
    ++ "\",\"unit\":\""
    ++ unit
    ++ "\",\"gauge\":{\"dataPoints\":["
    ++ joined dps
    ++ "]}}"

-- A sum whose points may be missing is left out then.
unfoldable pub sum_of : String → List String → List String
unfolding metric_sum
sum_of name [] = []
sum_of name (dp ∷ dps) = metric_sum name "1" (dp ∷ dps) ∷ []

module _ {F : Type 0} (fmt : Fmt F) where
  unfoldable pub sum_dp_int : ℕ → ℕ → ℕ → String → String
  sum_dp_int value start_ns now_ns attrs =
      "{\"asInt\":\""
      ++ fmt.show_nat value
      ++ "\",\"startTimeUnixNano\":\""
      ++ fmt.show_nat start_ns
      ++ "\",\"timeUnixNano\":\""
      ++ fmt.show_nat now_ns
      ++ "\",\"attributes\":"
      ++ attrs
      ++ "}"

  unfoldable pub gauge_dp_int : ℕ → ℕ → String
  gauge_dp_int value now_ns =
      "{\"asInt\":\""
      ++ fmt.show_nat value
      ++ "\",\"timeUnixNano\":\""
      ++ fmt.show_nat now_ns
      ++ "\",\"attributes\":[]}"

  unfoldable pub gauge_dp_double : F → ℕ → String
  gauge_dp_double value now_ns =
      "{\"asDouble\":"
      ++ fmt.show_plain_f64 value
      ++ ",\"timeUnixNano\":\""
      ++ fmt.show_nat now_ns
      ++ "\",\"attributes\":[]}"

  unfoldable pub metrics_of : MetricsSnapshot F → ℕ → ℕ → List String
  unfolding sum_dp_int gauge_dp_int gauge_dp_double metric_sum metric_gauge sum_of attrs_array
  metrics_of snap start_ns now_ns =
      let point = λ (n : ℕ) (pairs : List (String × String)).
        sum_dp_int n start_ns now_ns (attrs_array pairs) in
      let events =
        map (λ (k, s, n). point n (("l4.kind", k) ∷ ("severity", s) ∷ [])) snap.event_counts in
      let pod_events =
        map (λ (ip, k, s, n). point n (("k8s.pod.ip", ip) ∷ ("l4.kind", k) ∷ ("severity", s) ∷ []))
          snap.pod_event_counts in
      let pod_packets = map (λ (ip, n). point n (("k8s.pod.ip", ip) ∷ [])) snap.pod_packets in
      append
        (metric_sum "l4scope.packets" "1" (sum_dp_int snap.packets_total start_ns now_ns "[]" ∷ [])
          ∷ [])
        (append (sum_of "l4scope.events" events) (
          append (sum_of "l4scope.pod.events" pod_events) (
            append (sum_of "l4scope.pod.packets" pod_packets) (
              metric_gauge "l4scope.active_flows" "1" (gauge_dp_int snap.active_flows now_ns ∷ [])
              ∷ metric_gauge "l4scope.half_open_max" "1"
                  (gauge_dp_int snap.half_open_max now_ns ∷ [])
              ∷ metric_gauge "l4scope.rst_per_second" "1/s"
                  (gauge_dp_double snap.rst_per_sec now_ns ∷ [])
              ∷ metric_gauge "l4scope.new_flows_per_second" "1/s"
                  (gauge_dp_double snap.new_flow_per_sec now_ns ∷ [])
              ∷ []))))

  unfoldable pub build_body : MetricsSnapshot F → List (String × String) → ℕ → ℕ → String
  unfolding metrics_of attr_str joined
  build_body snap resource_attrs start_ns now_ns =
      "{\"resourceMetrics\":[{\"resource\":{\"attributes\":["
      ++ joined (map (λ (k, v). attr_str k v) resource_attrs)
      ++ "]},\"scopeMetrics\":[{\"scope\":{\"name\":\"l4scope\",\"version\":\"0.1.0\"},\"metrics\":["
      ++ joined (metrics_of snap start_ns now_ns)
      ++ "]}]}]}"

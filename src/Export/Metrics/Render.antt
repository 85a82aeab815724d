-- ===== src/Export/Metrics/Render.antt =====
-- `Registry::render_prometheus` of metrics.rs: the text that `/metrics` serves.
use Prim.Native.String.{◌++◌}
use network_l4_monitoring_co.Base.{ℕ, String, [], ◌∷◌}
use network_l4_monitoring_co.Base.BTreeMap.{BTreeMap}
use network_l4_monitoring_co.Core.Float.{Fmt}
use network_l4_monitoring_co.Export.Metrics.{Metrics, Label}

module _ {F : Type 0} (fmt : Fmt F) where
  event_lines : BTreeMap Label ℕ → String
  event_lines [] = ""
  event_lines (((kind, sev), n) ∷ m) =
      "l4scope_events{kind=\""
      ++ kind
      ++ "\",severity=\""
      ++ sev
      ++ "\"} "
      ++ fmt.show_nat n
      ++ "\n"
      ++ event_lines m

  pod_event_lines : BTreeMap (String × Label) ℕ → String
  pod_event_lines [] = ""
  pod_event_lines (((ip, (kind, sev)), n) ∷ m) =
      "l4scope_pod_events{pod_ip=\""
      ++ ip
      ++ "\",kind=\""
      ++ kind
      ++ "\",severity=\""
      ++ sev
      ++ "\"} "
      ++ fmt.show_nat n
      ++ "\n"
      ++ pod_event_lines m

  pod_packet_lines : BTreeMap String ℕ → String
  pod_packet_lines [] = ""
  pod_packet_lines ((ip, n) ∷ m) =
      "l4scope_pod_packets_total{pod_ip=\""
      ++ ip
      ++ "\"} "
      ++ fmt.show_nat n
      ++ "\n"
      ++ pod_packet_lines m

  -- The branch `if !m.pod_event_counts.is_empty()`, with the packets of the pods inside it.
  unfoldable pub pod_section : Metrics F → String
  unfolding pod_event_lines pod_packet_lines
  pod_section m = elim m.pod_event_counts [
    | [] ↦ ""
    | row ∷ rows ↦
        "# HELP l4scope_pod_events Anomaly events by pod, kind and severity.\n"
        ++ "# TYPE l4scope_pod_events counter\n"
        ++ pod_event_lines (row ∷ rows)
        ++ "# HELP l4scope_pod_packets_total Packets processed per pod.\n"
        ++ "# TYPE l4scope_pod_packets_total counter\n"
        ++ pod_packet_lines m.pod_packets
  ]

  unfoldable pub render_prometheus : Metrics F → String
  unfolding event_lines pod_section
  render_prometheus m =
      "# HELP l4scope_packets_total Packets processed by the engine.\n"
      ++ "# TYPE l4scope_packets_total counter\n"
      ++ "l4scope_packets_total "
      ++ fmt.show_nat m.packets_total
      ++ "\n# HELP l4scope_events_total L4 anomaly events emitted.\n"
      ++ "# TYPE l4scope_events_total counter\n"
      ++ "l4scope_events_total "
      ++ fmt.show_nat m.events_total
      ++ "\n# HELP l4scope_events Anomaly events by kind and severity.\n"
      ++ "# TYPE l4scope_events counter\n"
      ++ event_lines m.event_counts
      ++ pod_section m
      ++ "# HELP l4scope_active_flows Flows currently tracked.\n"
      ++ "# TYPE l4scope_active_flows gauge\n"
      ++ "l4scope_active_flows "
      ++ fmt.show_nat m.active_flows
      ++ "\n# HELP l4scope_half_open_max Max concurrent half-open connections to one service.\n"
      ++ "# TYPE l4scope_half_open_max gauge\n"
      ++ "l4scope_half_open_max "
      ++ fmt.show_nat m.half_open_max
      ++ "\n# HELP l4scope_rst_per_second Host-wide TCP RST rate.\n"
      ++ "# TYPE l4scope_rst_per_second gauge\n"
      ++ "l4scope_rst_per_second "
      ++ fmt.show_f64 3 m.rst_per_sec
      ++ "\n# HELP l4scope_new_flows_per_second Host-wide new-flow rate.\n"
      ++ "# TYPE l4scope_new_flows_per_second gauge\n"
      ++ "l4scope_new_flows_per_second "
      ++ fmt.show_f64 3 m.new_flow_per_sec
      ++ "\n"

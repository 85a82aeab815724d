-- ===== src/Tests/Agent.antt =====
-- The loop of main.rs at concrete inputs.
use network_l4_monitoring_co.Base.{
  ℕ, ◌+◌, ◌≤◌, ◌≡◌, some, List, [], ◌∷◌, length, arith, refl, ℕ_discrete,
}
use network_l4_monitoring_co.Base.BTreeMap.Counter.{sum_values}
use network_l4_monitoring_co.Core.Types.{
  PacketMeta, v4, L4Event, reverse, Endpoint-discrete, FlowKey-discrete, has,
}
use network_l4_monitoring_co.Detect.Window.{record_event, count_loop, count_window, per_sec}
use network_l4_monitoring_co.Detect.Window
use network_l4_monitoring_co.Detect.Flow.{
  new_flow_state, retransmit_ratio, new_globals, half_open_for, max_value, half_open_max, new_state,
  count_half_open, uncount_half_open,
}
use network_l4_monitoring_co.Detect.Flow.Update.{
  endpoints, guess_service, clear_half_open, start_handshake, on_syn, on_syn_ack, on_rst,
  complete_handshake, on_fin, on_segment, on_tcp, find_or_new, step, update,
}
use network_l4_monitoring_co.Detect.Flow.Checks.{check_window, check_data, check_ack}
use network_l4_monitoring_co.Detect.Flow.Seq.{seq_diff}
use network_l4_monitoring_co.Detect.Detectors.{
  flow_of, ns_to_secs_f64, inspect_retransmission, inspect_out_of_order, inspect_dup_ack,
  inspect_zero_window, inspect_high_rtt, inspect_handshake_failure, inspect_rst_storm,
  inspect_syn_backlog, inspect_churn, inspect, default_detectors,
}
use network_l4_monitoring_co.Detect.Detectors.Text.{
  protocol_name, show_endpoint, show_key, retransmission_text, out_of_order_text, dup_ack_text,
  zero_window_text, high_rtt_text, handshake_failure_text, rst_storm_text, syn_backlog_text,
  churn_text, handshake_timeout_text,
}
use network_l4_monitoring_co.Detect.Debounce.{ready}
use network_l4_monitoring_co.Detect.Debounce
use network_l4_monitoring_co.Detect.Engine.{
  timed_out, idle, keys_where, uncount_flow, flag_timeout, flag_timeouts, evict, evict_all,
  sweep_state, sweep, run_detectors, process,
}
use network_l4_monitoring_co.Detect.Engine
use network_l4_monitoring_co.Detect.Engine.Trace
use network_l4_monitoring_co.Export.Attribution.{PodMatcher}
use network_l4_monitoring_co.Export.JsonSink.{JsonSink, stdout}
use network_l4_monitoring_co.Agent.{run}
use network_l4_monitoring_co.Agent.Total.{calls, Finished, run-Finished}
use network_l4_monitoring_co.Agent.Balance.{run-sum_values}
use network_l4_monitoring_co.Tests.Values.{ops, fmt, cfg, packet_of, syn_packet}

abbrev sink : JsonSink
sink = record { target = stdout; written = [] }

abbrev pods : PodMatcher
pods = record { cidrs = (v4 0x0a000000, 24) ∷ [] }

abbrev rst_packet : PacketMeta
rst_packet = packet_of 9 reverse 0x14 0 101 0

-- A handshake that is refused.
abbrev packets : List PacketMeta
packets = syn_packet ∷ rst_packet ∷ []

run-Finished_example :
    Finished ops fmt (some pods) sink cfg packets (run ops fmt (some pods) cfg sink packets)
run-Finished_example = run-Finished ops fmt (some pods) sink cfg packets

abbrev events : List (L4Event ℕ)
events = (Trace.run ops fmt (calls ops fmt (some pods) sink cfg packets) (Engine.new cfg)).1

events_number : length events ≡ 1
unfolding Endpoint-discrete FlowKey-discrete has record_event count_loop count_window per_sec
    Window.new new_flow_state retransmit_ratio new_globals half_open_for max_value half_open_max
    new_state count_half_open uncount_half_open endpoints guess_service clear_half_open
    start_handshake on_syn on_syn_ack on_rst complete_handshake on_fin check_window check_data
    check_ack on_segment on_tcp find_or_new step update seq_diff flow_of ns_to_secs_f64
    inspect_retransmission inspect_out_of_order inspect_dup_ack inspect_zero_window inspect_high_rtt
    inspect_handshake_failure inspect_rst_storm inspect_syn_backlog inspect_churn inspect
    default_detectors protocol_name show_endpoint show_key retransmission_text out_of_order_text
    dup_ack_text zero_window_text high_rtt_text handshake_failure_text rst_storm_text
    syn_backlog_text churn_text handshake_timeout_text ready Debounce.new timed_out idle keys_where
    uncount_flow flag_timeout flag_timeouts evict evict_all sweep_state sweep run_detectors process
    Engine.new Trace.run ℕ_discrete
events_number = refl

run-sum_values_example :
    let a = run ops fmt (some pods) cfg sink packets in
    (a.registry.events_total ≡ length events)
    × (sum_values a.summary ≡ length events)
    × (sum_values a.registry.event_counts ≡ length events)
    × (sum_values a.registry.pod_event_counts ≤ length events)
    × (length a.json_sink.written ≡ 0 + length events)
run-sum_values_example =
    run-sum_values ops fmt (some pods) sink cfg packets (omega (arith, events_number))

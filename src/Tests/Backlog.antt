-- ===== src/Tests/Backlog.antt =====
-- The SYN-backlog rule of detectors.rs at a concrete packet: one SYN, with a threshold of one.
use network_l4_monitoring_co.Base.{ℕ_discrete, ℕ, ◌≤◌, ◌≡◌, refl, [], ◌∷◌, some, true, arith}
use network_l4_monitoring_co.Core.Config.{DetectConfig}
use network_l4_monitoring_co.Core.Types.{FlowKey-discrete, Endpoint-discrete, has}
use network_l4_monitoring_co.Detect.Window
use network_l4_monitoring_co.Detect.Flow.{FlowState, new_flow_state, new_globals, new_state}
use network_l4_monitoring_co.Detect.Flow.Update.{
  update, step, find_or_new, guess_service, endpoints, on_tcp, on_syn, start_handshake,
}
use network_l4_monitoring_co.Detect.Debounce.{Debounce, ready}
use network_l4_monitoring_co.Detect.Detectors.{DetectCtx, flow_of}
use network_l4_monitoring_co.Detect.Engine.{new, process}
use network_l4_monitoring_co.Detect.Engine.Alerts.{is_backlog, alerts, latest}
use network_l4_monitoring_co.Detect.Engine.Trace.{run, context}
use network_l4_monitoring_co.Detect.Engine.Invariant.{waiting, handshaking}
use network_l4_monitoring_co.Detect.Engine.Backlog.{
  syn_backlog_reported, inspect_syn_backlog-ne-none, syn_backlog_justified,
}
use network_l4_monitoring_co.Tests.Values.{ops, fmt, cfg, syn_packet}

abbrev strict : DetectConfig ℕ
strict = record cfg { syn_backlog_threshold = 1 }

abbrev quiet : Debounce
quiet = record { last_ns = 0; gap_ns = 10_000_000_000 }

abbrev at_syn : DetectCtx ℕ
at_syn = context (run ops fmt [] (new strict)).0 syn_packet

abbrev opened : FlowState
opened = (step (new strict).state syn_packet).flow

known : flow_of at_syn ≡ some opened
unfolding flow_of update run new new_state FlowKey-discrete ℕ_discrete
known = refl

many : at_syn.state.cfg.syn_backlog_threshold ≤ waiting opened.service at_syn.state.flows
unfolding update step find_or_new guess_service endpoints on_tcp on_syn start_handshake
    new_flow_state new_state new_globals Window.record_event Window.new has run new waiting
    Endpoint-discrete ℕ_discrete
many = omega arith

fires : (ready quiet syn_packet.ts_nanos).1 ≡ true
unfolding ready
fires = refl

syn_backlog_reported_example :
    alerts is_backlog (process ops fmt syn_packet (new strict)).1 ≡ 5 ∷ []
unfolding run alerts latest
syn_backlog_reported_example =
    syn_backlog_reported ops fmt strict [] syn_packet (omega arith) opened known many

syn_backlog_justified_example :
    at_syn.state.cfg.syn_backlog_threshold ≤ handshaking opened.service at_syn.state.flows
syn_backlog_justified_example =
    syn_backlog_justified ops fmt strict [] syn_packet (omega arith) quiet opened known (
      inspect_syn_backlog-ne-none ops fmt strict [] syn_packet (omega arith) quiet opened known many
        fires)

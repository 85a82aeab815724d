-- ===== src/Detect/Engine/Backlog.antt =====
-- The SYN-backlog rule of l4scope/crates/l4scope-detect/src/detectors.rs, on the states that
-- `Engine::process` of engine.rs hands to it.
use network_l4_monitoring_co.Base.{
  ◌+◌, ◌^◌, ◌≤◌, ◌<◌, ◌≡◌, ◌≢◌, refl, ap, ◌∙◌, List, none, some, arith, length, true,
}
use network_l4_monitoring_co.Core.Float.{FloatOps, Fmt}
use network_l4_monitoring_co.Core.Config.{DetectConfig}
use network_l4_monitoring_co.Core.Types.{Endpoint, PacketMeta, L4Event}
use network_l4_monitoring_co.Detect.Flow.{FlowState, half_open_for}
use network_l4_monitoring_co.Detect.Flow.HalfOpen.{update-IsExact}
use network_l4_monitoring_co.Detect.Debounce.{Debounce, ready}
use network_l4_monitoring_co.Detect.Detectors.{DetectCtx, flow_of, inspect_syn_backlog}
use network_l4_monitoring_co.Detect.Engine.{Engine, new, process}
use network_l4_monitoring_co.Detect.Engine.Trace.{Call, run, context}
use network_l4_monitoring_co.Detect.Engine.Alerts.{
  is_backlog, alerts, latest, may_alert, alert_if, asked-may_alert,
}
use network_l4_monitoring_co.Detect.Engine.Alerts.Rules.{backlog_over}
use network_l4_monitoring_co.Detect.Engine.Alerts.History.{
  gap_ns, run-new-Remembers, backlogs-process,
}
use network_l4_monitoring_co.Detect.Engine.HalfOpen.{run-new-Room}
use network_l4_monitoring_co.Detect.Engine.Invariant.{
  run-IsSound, update-IsSound, tally_bounds, waiting, handshaking,
}

module _ {F : Type 0} (ops : FloatOps F) (fmt : Fmt F) (cfg : DetectConfig F) (cs : List Call)
    (pkt : PacketMeta) (few : length cs + 1 < 2 ^ 32) where
  abbrev seen : DetectCtx F
  seen = context (run ops fmt cs (new cfg)).0 pkt

  -- The engine before the packet, and its events so far.
  abbrev before : Engine F × List (L4Event F)
  before = run ops fmt cs (new cfg)

  seen_bounds :
      (ep : Endpoint)
      → (waiting ep seen.state.flows ≤ half_open_for seen.state.globals ep)
        × (half_open_for seen.state.globals ep ≤ handshaking ep seen.state.flows)
  seen_bounds ep =
      let e = (run ops fmt cs (new cfg)).0 in
      let room = run-new-Room ops fmt cfg cs 1 few in
      let sound =
        update-IsSound ops fmt (length cs) e.state pkt (omega arith)
          (run-IsSound ops fmt cfg cs (omega arith)) in
      omega (
        arith,
        (update-IsExact e.state pkt (omega (arith, room.0)) room.1).at ep,
        tally_bounds _ ep seen.state.flows sound.distinct sound.valid,
      )

  -- With at least the threshold of unanswered SYNs the rule asks its debounce.
  over_threshold :
      (f : FlowState)
      → flow_of seen ≡ some f
      → seen.state.cfg.syn_backlog_threshold ≤ waiting f.service seen.state.flows
      → backlog_over ops fmt seen ≡ true
  over_threshold f known many = ground (arith, seen_bounds f.service)

  -- After fewer than 2^32 - 1 packets and sweeps on a new engine, `process` of a packet of a flow to
  -- whose service at least the threshold of flows have an unanswered and unreported SYN returns one
  -- SYN backlog, of the packet's time, if the debounce gap has passed since the last SYN backlog of
  -- the history (or there was none, or it had time 0), and otherwise it returns no SYN backlog.
  pub syn_backlog_reported :
      (f : FlowState)
      → flow_of seen ≡ some f
      → seen.state.cfg.syn_backlog_threshold ≤ waiting f.service seen.state.flows
      → alerts is_backlog (process ops fmt pkt before.0).1
        ≡ alert_if
            (may_alert (gap_ns cfg) (latest 0 (alerts is_backlog before.1)) pkt.ts_nanos)
            pkt.ts_nanos
  syn_backlog_reported f known many =
      let m = run-new-Remembers ops fmt cfg cs in
      backlogs-process ops fmt cfg before.1 pkt before.0 m
      ∙ ap (λ fire. alert_if fire pkt.ts_nanos)
          (asked-may_alert (backlog_over ops fmt seen) m.backlog pkt.ts_nanos)
      ∙ rw (over_threshold f known many, m.of_backlog.gap_is, m.of_backlog.last) refl

  -- If the debounce agrees, the rule then makes an event.
  pub inspect_syn_backlog-ne-none :
      (d : Debounce) (f : FlowState)
      → flow_of seen ≡ some f
      → seen.state.cfg.syn_backlog_threshold ≤ waiting f.service seen.state.flows
      → (ready d pkt.ts_nanos).1 ≡ true
      → (inspect_syn_backlog ops fmt seen d).1 ≢ none
  unfolding inspect_syn_backlog
  inspect_syn_backlog-ne-none d f known many fire = ground (arith, seen_bounds f.service)

  -- After fewer than 2^32 - 1 packets and sweeps on a new engine, a packet is reported as a SYN
  -- backlog only if at least the threshold of flows to its flow's service are in their handshake.
  pub syn_backlog_justified :
      (d : Debounce) (f : FlowState)
      → flow_of seen ≡ some f
      → (inspect_syn_backlog ops fmt seen d).1 ≢ none
      → seen.state.cfg.syn_backlog_threshold ≤ handshaking f.service seen.state.flows
  unfolding inspect_syn_backlog
  syn_backlog_justified d f known reported = ground (arith, seen_bounds f.service)

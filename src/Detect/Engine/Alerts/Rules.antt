-- ===== src/Detect/Engine/Alerts/Rules.antt =====
-- The alerts that the rules of detectors.rs make for one packet.
use network_l4_monitoring_co.Base.{
  ltb, ◌≡◌, refl, ap, ◌∙◌, Bool, false, not, ◌&&◌, List, [], ◌∷◌, ◌++◌, none, some, arith,
  Option-cases, inl, inr,
}
use mathlib.Core.List.{append-nil}
use network_l4_monitoring_co.Core.Float.{FloatOps, Fmt}
use network_l4_monitoring_co.Core.Types.{L4Event, EventKind}
use network_l4_monitoring_co.Detect.Debounce.{Debounce}
use network_l4_monitoring_co.Detect.Window
use network_l4_monitoring_co.Detect.Flow.{half_open_for}
use network_l4_monitoring_co.Detect.Detectors.{
  DetectCtx, Detector, retransmission, out_of_order, dup_ack, zero_window, high_rtt,
  handshake_failure, rst_storm, syn_backlog, churn, inspect, inspect_retransmission,
  inspect_out_of_order, inspect_dup_ack, inspect_zero_window, inspect_high_rtt,
  inspect_handshake_failure, inspect_rst_storm, inspect_syn_backlog, inspect_churn, flow_of,
}
use network_l4_monitoring_co.Detect.Engine.{run_detectors}
use network_l4_monitoring_co.Detect.Engine.Alerts.{
  is_storm, is_backlog, alerts, events_of, rules, asked, alert_if,
}

-- The kind that a rule reports.
abbrev kind_of : Detector → EventKind
kind_of retransmission = EventKind.retransmission
kind_of out_of_order = EventKind.out_of_order
kind_of dup_ack = EventKind.duplicate_ack
kind_of zero_window = EventKind.zero_window
kind_of high_rtt = EventKind.high_rtt
kind_of handshake_failure = EventKind.handshake_failure
kind_of (rst_storm d) = EventKind.rst_storm
kind_of (syn_backlog d) = EventKind.syn_backlog
kind_of (churn d) = EventKind.connection_churn

module _ {F : Type 0} (ops : FloatOps F) (fmt : Fmt F) (ctx : DetectCtx F) where
  kind-inspect :
      (d : Detector) (ev : L4Event F) → (inspect ops fmt ctx d).1 ≡ some ev → ev.kind ≡ kind_of d
  unfolding inspect inspect_retransmission inspect_out_of_order inspect_dup_ack inspect_zero_window
      inspect_high_rtt inspect_handshake_failure inspect_rst_storm inspect_syn_backlog inspect_churn
  kind-inspect retransmission ev e = ground arith
  kind-inspect out_of_order ev e = ground arith
  kind-inspect dup_ack ev e = ground arith
  kind-inspect zero_window ev e = ground arith
  kind-inspect high_rtt ev e = ground arith
  kind-inspect handshake_failure ev e = ground arith
  kind-inspect (rst_storm d) ev e = ground arith
  kind-inspect (syn_backlog d) ev e = ground arith
  kind-inspect (churn d) ev e = ground arith

  -- A rule of another kind adds no alert.
  alerts-quiet :
      (p : EventKind → Bool) (d : Detector)
      → p (kind_of d) ≡ false
      → alerts p (events_of (inspect ops fmt ctx d).1) ≡ []
  unfolding alerts
  alerts-quiet p d q = elim (Option-cases (inspect ops fmt ctx d).1) [
    | inl e ↦ rw e refl
    | inr (ev, e) ↦ rw (e, kind-inspect d ev e, q) refl
  ]

  alerts-run_detectors :
      (p : EventKind → Bool) (d : Detector) (ds : List Detector)
      → alerts p (run_detectors ops fmt ctx (d ∷ ds)).1
        ≡ alerts p (events_of (inspect ops fmt ctx d).1)
          ++ alerts p (run_detectors ops fmt ctx ds).1
  unfolding run_detectors alerts
  alerts-run_detectors p d ds = elim (Option-cases (inspect ops fmt ctx d).1) [
    | inl e ↦ rw (e, run_detectors) refl
    | inr (ev, e) ↦ rw (e, run_detectors) (ground arith)
  ]

  alerts-skip :
      (p : EventKind → Bool) (d : Detector) (ds : List Detector)
      → p (kind_of d) ≡ false
      → alerts p (run_detectors ops fmt ctx (d ∷ ds)).1 ≡ alerts p (run_detectors ops fmt ctx ds).1
  alerts-skip p d ds q =
      alerts-run_detectors p d ds
      ∙ ap (λ xs. xs ++ alerts p (run_detectors ops fmt ctx ds).1) (alerts-quiet p d q)

  -- The signal of the RST-storm rule is over its threshold.
  abbrev pub storm_over : Bool
  storm_over =
      ctx.delta.rst_seen
      && not (
          ops.lt (Window.per_sec ops ctx.state.globals.rst_rate ctx.now_ns)
            ctx.state.cfg.rst_storm_per_sec)

  alerts-inspect_rst_storm :
      (d : Debounce)
      → alerts is_storm (events_of (inspect_rst_storm ops fmt ctx d).1)
        ≡ alert_if (asked storm_over d ctx.now_ns).1 ctx.now_ns
  unfolding inspect_rst_storm alerts
  alerts-inspect_rst_storm d = ground arith

  after-inspect_rst_storm :
      (d : Debounce)
      → (inspect_rst_storm ops fmt ctx d).0 ≡ rst_storm (asked storm_over d ctx.now_ns).0
  unfolding inspect_rst_storm
  after-inspect_rst_storm d = ground arith

  -- The signal of the SYN-backlog rule is not below its threshold.
  abbrev pub backlog_over : Bool
  backlog_over = elim (flow_of ctx) [
    | none ↦ false
    | some f ↦
        not (ltb (half_open_for ctx.state.globals f.service) ctx.state.cfg.syn_backlog_threshold)
  ]

  alerts-inspect_syn_backlog :
      (d : Debounce)
      → alerts is_backlog (events_of (inspect_syn_backlog ops fmt ctx d).1)
        ≡ alert_if (asked backlog_over d ctx.now_ns).1 ctx.now_ns
  unfolding inspect_syn_backlog alerts
  alerts-inspect_syn_backlog d = ground arith

  after-inspect_syn_backlog :
      (d : Debounce)
      → (inspect_syn_backlog ops fmt ctx d).0 ≡ syn_backlog (asked backlog_over d ctx.now_ns).0
  unfolding inspect_syn_backlog
  after-inspect_syn_backlog d = ground arith

  churn_over : Bool
  churn_over =
      ctx.delta.new_flow
      && not (
          ops.lt (Window.per_sec ops ctx.state.globals.new_flow_rate ctx.now_ns)
            ctx.state.cfg.churn_per_sec)

  after-inspect_churn :
      (d : Debounce) → (inspect_churn ops fmt ctx d).0 ≡ churn (asked churn_over d ctx.now_ns).0
  unfolding inspect_churn churn_over
  after-inspect_churn d = ground arith

  module _ (storm backlog new_flows : Debounce) where
    pub storms :
        alerts is_storm (run_detectors ops fmt ctx (rules storm backlog new_flows)).1
        ≡ alert_if (asked storm_over storm ctx.now_ns).1 ctx.now_ns
    unfolding run_detectors inspect alerts
    storms =
        rw
          (
            alerts-skip is_storm retransmission,
            alerts-skip is_storm out_of_order,
            alerts-skip is_storm dup_ack,
            alerts-skip is_storm zero_window,
            alerts-skip is_storm high_rtt,
            alerts-skip is_storm handshake_failure,
            alerts-run_detectors is_storm (rst_storm storm),
            alerts-skip is_storm (syn_backlog backlog),
            alerts-skip is_storm (churn new_flows),
            alerts-inspect_rst_storm storm,
          )
          (append-nil _)

    pub backlogs :
        alerts is_backlog (run_detectors ops fmt ctx (rules storm backlog new_flows)).1
        ≡ alert_if (asked backlog_over backlog ctx.now_ns).1 ctx.now_ns
    unfolding run_detectors inspect alerts
    backlogs =
        rw
          (
            alerts-skip is_backlog retransmission,
            alerts-skip is_backlog out_of_order,
            alerts-skip is_backlog dup_ack,
            alerts-skip is_backlog zero_window,
            alerts-skip is_backlog high_rtt,
            alerts-skip is_backlog handshake_failure,
            alerts-skip is_backlog (rst_storm storm),
            alerts-run_detectors is_backlog (syn_backlog backlog),
            alerts-skip is_backlog (churn new_flows),
            alerts-inspect_syn_backlog backlog,
          )
          (append-nil _)

    pub after :
        (d' : Debounce) × ((run_detectors ops fmt ctx (rules storm backlog new_flows)).0
          ≡ rules
              (asked storm_over storm ctx.now_ns).0
              (asked backlog_over backlog ctx.now_ns).0
              d')
    unfolding run_detectors inspect
    after = (
      (asked churn_over new_flows ctx.now_ns).0,
      rw
          (
            after-inspect_rst_storm storm,
            after-inspect_syn_backlog backlog,
            after-inspect_churn new_flows,
          )
          refl,
    )

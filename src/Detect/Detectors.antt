-- ===== src/Detect/Detectors.antt =====
-- l4scope/crates/l4scope-detect/src/detectors.rs: the detector rules, their debounce and their
-- chain. `Detector` is the closed set of the rules in `default_detectors`, in place of `Box<dyn
-- Detector>`.
pub mod Text
use network_l4_monitoring_co.Base.{
  ℕ, ◌*◌, String, Bool, true, false, not, Option, none, some, List, [], ◌∷◌, ◌&&◌, ◌||◌, leb, ltb,
  ◌==◌, if◌then◌else◌, saturating_sub, wrapping_mul64, ns_per_sec,
}
use network_l4_monitoring_co.Base.HashMap
use network_l4_monitoring_co.Core.Float.{FloatOps, Fmt}
use network_l4_monitoring_co.Core.Config.{DetectConfig}
use network_l4_monitoring_co.Core.Types.{
  FlowKey, FlowKey-discrete, L4Event, EventKind, Severity, info, warning, critical,
}
use network_l4_monitoring_co.Detect.Window
use network_l4_monitoring_co.Detect.Flow.{
  EngineState, FlowState, PacketDelta, retransmit_ratio, half_open_for,
}
use network_l4_monitoring_co.Detect.Debounce
use network_l4_monitoring_co.Detect.Debounce.{Debounce, ready}
use Text.{
  retransmission_text, out_of_order_text, dup_ack_text, zero_window_text, high_rtt_text,
  handshake_failure_text, rst_storm_text, syn_backlog_text, churn_text,
}

-- What a detector reads for one packet.
pub record DetectCtx (F : Type 0) : Type 0 where
  pub state : EngineState F
  pub key : FlowKey
  pub delta : PacketDelta
  pub now_ns : ℕ

unfoldable pub flow_of : {F : Type 0} → DetectCtx F → Option FlowState
flow_of ctx = HashMap.get FlowKey-discrete ctx.key ctx.state.flows

-- `ns as f64 / NS_PER_SEC as f64`.
unfoldable pub ns_to_secs_f64 : {F : Type 0} → FloatOps F → ℕ → F
ns_to_secs_f64 ops ns = ops.div (ops.from_u64 ns) (ops.from_u64 ns_per_sec)

pub data Detector : Type 0 where
  retransmission out_of_order dup_ack zero_window high_rtt handshake_failure : Detector
  rst_storm syn_backlog churn : Debounce → Detector

module _ {F : Type 0} (ops : FloatOps F) (fmt : Fmt F) (ctx : DetectCtx F) where
  abbrev event : EventKind → Severity → F → String → L4Event F
  event kind severity value detail = record {
    ts_nanos = ctx.now_ns;
    kind = kind;
    severity = severity;
    key = ctx.key;
    value = value;
    detail = detail;
  }

  unfoldable pub inspect_retransmission : Option (L4Event F)
  unfolding flow_of
  inspect_retransmission = if not ctx.delta.is_retransmit then none else elim (flow_of ctx) [
    | none ↦ none
    | some flow ↦
        let ratio = retransmit_ratio ops flow in
        if ops.lt ratio ctx.state.cfg.retransmit_ratio_warn
        then none
        else some (
            event EventKind.retransmission warning ratio
              (retransmission_text fmt ops ctx.key flow ratio))
  ]

  unfoldable pub inspect_out_of_order : Option (L4Event F)
  inspect_out_of_order =
      if not ctx.delta.is_out_of_order
      then none
      else some (event EventKind.out_of_order info (ops.from_u64 1) (out_of_order_text fmt ctx.key))

  unfoldable pub inspect_dup_ack : Option (L4Event F)
  inspect_dup_ack =
      let n = ctx.delta.dup_ack_count in
      if ctx.delta.is_dup_ack && n == ctx.state.cfg.dup_ack_threshold
      then some
          (event EventKind.duplicate_ack warning (ops.from_u64 n) (dup_ack_text fmt ctx.key n))
      else none

  unfoldable pub inspect_zero_window : Option (L4Event F)
  inspect_zero_window =
      if not ctx.delta.zero_window_edge
      then none
      else some
          (event EventKind.zero_window warning (ops.from_u64 0) (zero_window_text fmt ctx.key))

  unfoldable pub inspect_high_rtt : Option (L4Event F)
  unfolding ns_to_secs_f64
  inspect_high_rtt = elim ctx.delta.rtt_sample_ns [
    | none ↦ none
    | some rtt_ns ↦
        let rtt_ms = ops.mul (ns_to_secs_f64 ops rtt_ns) (ops.from_u64 1000) in
        let warn = ctx.state.cfg.rtt_warn_ms in
        if ops.lt rtt_ms warn
        then none
        else some (
            event EventKind.high_rtt
              (if ops.ge rtt_ms (ops.mul warn (ops.from_u64 4)) then warning else info) rtt_ms
              (high_rtt_text fmt ctx.key rtt_ms))
  ]

  unfoldable pub inspect_handshake_failure : Option (L4Event F)
  inspect_handshake_failure =
      if not ctx.delta.handshake_refused
      then none
      else some (
          event EventKind.handshake_failure warning (ops.from_u64 1)
            (handshake_failure_text fmt ctx.key))

  -- The debounce is asked only if the signal is over its threshold.
  abbrev debounced : (Debounce → Detector) → Debounce → L4Event F → Detector × Option (L4Event F)
  debounced rule d ev =
      let (d', fire) = ready d ctx.now_ns in (rule d', if fire then some ev else none)

  unfoldable pub inspect_rst_storm : Debounce → Detector × Option (L4Event F)
  unfolding Debounce.ready
  inspect_rst_storm d =
      let rate = Window.per_sec ops ctx.state.globals.rst_rate ctx.now_ns in
      let fired =
        debounced rst_storm d
          (event EventKind.rst_storm critical rate (rst_storm_text fmt ctx.key rate)) in
      if not ctx.delta.rst_seen || ops.lt rate ctx.state.cfg.rst_storm_per_sec
      then (rst_storm d, none)
      else fired

  unfoldable pub inspect_syn_backlog : Debounce → Detector × Option (L4Event F)
  unfolding Debounce.ready flow_of
  inspect_syn_backlog d = elim (flow_of ctx) [
    | none ↦ (syn_backlog d, none)
    | some flow ↦
        let n = half_open_for ctx.state.globals flow.service in
        let fired = debounced syn_backlog d (
          event EventKind.syn_backlog warning (ops.from_u64 n)
            (syn_backlog_text fmt flow.service n)) in
        if ltb n ctx.state.cfg.syn_backlog_threshold then (syn_backlog d, none) else fired
  ]

  unfoldable pub inspect_churn : Debounce → Detector × Option (L4Event F)
  unfolding Debounce.ready
  inspect_churn d =
      let rate = Window.per_sec ops ctx.state.globals.new_flow_rate ctx.now_ns in
      let fired =
        debounced churn d (event EventKind.connection_churn info rate (churn_text fmt rate)) in
      if not ctx.delta.new_flow || ops.lt rate ctx.state.cfg.churn_per_sec
      then (churn d, none)
      else fired

  -- `Detector::inspect`: the rule with its new state, and the event.
  unfoldable pub inspect : Detector → Detector × Option (L4Event F)
  inspect retransmission = (retransmission, inspect_retransmission)
  inspect out_of_order = (out_of_order, inspect_out_of_order)
  inspect dup_ack = (dup_ack, inspect_dup_ack)
  inspect zero_window = (zero_window, inspect_zero_window)
  inspect high_rtt = (high_rtt, inspect_high_rtt)
  inspect handshake_failure = (handshake_failure, inspect_handshake_failure)
  inspect (rst_storm d) = inspect_rst_storm d
  inspect (syn_backlog d) = inspect_syn_backlog d
  inspect (churn d) = inspect_churn d

unfoldable pub default_detectors : {F : Type 0} → DetectConfig F → List Detector
unfolding Debounce.new
default_detectors cfg =
    let d = Debounce.new cfg.alert_debounce_secs in
    retransmission
    ∷ out_of_order
    ∷ dup_ack
    ∷ zero_window
    ∷ high_rtt
    ∷ handshake_failure
    ∷ rst_storm d
    ∷ syn_backlog d
    ∷ churn d
    ∷ []

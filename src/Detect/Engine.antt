-- ===== src/Detect/Engine.antt =====
-- l4scope/crates/l4scope-detect/src/engine.rs: the engine around the state and the detectors.
pub mod Trace
pub mod HalfOpen
pub mod Sweep
pub mod Reports
pub mod SweepEvents
pub mod Invariant
pub mod Backlog
pub mod Stamps
pub mod Timeouts
pub mod Unanswered
pub mod Rates
pub mod Storm
pub mod Alerts
use network_l4_monitoring_co.Base.{
  ℕ, ◌+◌, String, Bool, true, false, not, Option, none, some, List, [], ◌∷◌, ◌++◌, ◌&&◌, ◌||◌, leb,
  ltb, ◌==◌, if◌then◌else◌, saturating_sub, wrapping_mul64, ns_per_sec, length, unwrap_or,
}
use network_l4_monitoring_co.Base.HashMap
use network_l4_monitoring_co.Base.HashMap.{HashMap}
use network_l4_monitoring_co.Core.Float.{FloatOps, Fmt}
use network_l4_monitoring_co.Core.Config.{DetectConfig}
use network_l4_monitoring_co.Core.Types.{
  FlowKey, FlowKey-discrete, L4Event, EventKind, warning, PacketMeta,
}
use network_l4_monitoring_co.Detect.Window
use network_l4_monitoring_co.Detect.Flow.{
  TcpState, is_syn_sent, EngineState, new_state, FlowState, Globals, uncount_half_open,
  half_open_max,
}
use network_l4_monitoring_co.Detect.Flow.Update.{update}
use network_l4_monitoring_co.Detect.Detectors.{
  Detector, DetectCtx, inspect, default_detectors, ns_to_secs_f64,
}
use network_l4_monitoring_co.Detect.Detectors.Text.{handshake_timeout_text}

pub record EngineStats (F : Type 0) : Type 0 where
  pub active_flows : ℕ
  pub half_open_max : ℕ
  pub rst_per_sec : F
  pub new_flow_per_sec : F

pub record Engine (F : Type 0) : Type 0 where
  pub state : EngineState F
  pub detectors : List Detector
  pub last_sweep_ns : ℕ
  pub sweep_interval_ns : ℕ

unfoldable pub new : {F : Type 0} → DetectConfig F → Engine F
new cfg = record {
  state = new_state cfg;
  detectors = default_detectors cfg;
  last_sweep_ns = 0;
  sweep_interval_ns = ns_per_sec;
}

pub set_detectors : {F : Type 0} → Engine F → List Detector → Engine F
set_detectors e ds = record e { detectors = ds }

abbrev pub waited_longer : ℕ → ℕ → Option ℕ → Bool
waited_longer now hto none = false
waited_longer now hto (some t) = ltb hto (saturating_sub now t)

-- A SYN that has been unanswered for longer than the timeout, not yet reported.
unfoldable pub timed_out : ℕ → ℕ → FlowState → Bool
timed_out now hto f =
    is_syn_sent f.state && not f.handshake_timeout_flagged && waited_longer now hto f.syn_time_ns

unfoldable pub idle : ℕ → ℕ → FlowState → Bool
idle now ttl f = ltb ttl (saturating_sub now f.last_seen_ns)

-- The first loop of `sweep` collects keys.
unfoldable pub keys_where : (FlowState → Bool) → HashMap FlowKey FlowState → List FlowKey
keys_where p [] = []
keys_where p ((k, f) ∷ m) = let rest = keys_where p m in if p f then k ∷ rest else rest

-- Of a flow that is marked as counted, take the mark's count back.
unfoldable pub uncount_flow : FlowState → Globals → Globals
uncount_flow f g = if f.half_open_counted then uncount_half_open f.service g else g

module _ {F : Type 0} (ops : FloatOps F) (fmt : Fmt F) where
  timeout_event : ℕ → FlowKey → FlowState → L4Event F
  timeout_event now k f =
      let waited = ns_to_secs_f64 ops (saturating_sub now (unwrap_or f.syn_time_ns now)) in
      record {
        ts_nanos = now;
        kind = EventKind.handshake_timeout;
        severity = warning;
        key = k;
        value = waited;
        detail = handshake_timeout_text fmt f.service waited;
      }

  -- One round of the second loop of `sweep`.
  unfoldable pub flag_timeout : ℕ → FlowKey → EngineState F → EngineState F × List (L4Event F)
  unfolding timeout_event uncount_flow
  flag_timeout now k s = elim (HashMap.get FlowKey-discrete k s.flows) [
    | none ↦ (s, [])
    | some f ↦ (
      record s {
        flows =
            HashMap.insert FlowKey-discrete k
              (record f { handshake_timeout_flagged = true; half_open_counted = false }) s.flows;
        globals = uncount_flow f s.globals;
      },
      timeout_event now k f ∷ [],
    )
  ]

  unfoldable pub flag_timeouts : ℕ → List FlowKey → EngineState F → EngineState F × List (L4Event F)
  flag_timeouts now [] s = (s, [])
  flag_timeouts now (k ∷ ks) s =
      let (s', ev) = flag_timeout now k s in
      let (s'', evs) = flag_timeouts now ks s' in (s'', ev ++ evs)

-- One round of the third loop of `sweep`.
unfoldable pub evict : {F : Type 0} → FlowKey → EngineState F → EngineState F
unfolding uncount_flow
evict k s = elim (HashMap.get FlowKey-discrete k s.flows) [
  | none ↦ s
  | some f ↦ record s {
    flows = HashMap.remove FlowKey-discrete k s.flows;
    globals = uncount_flow f s.globals;
  }
]

unfoldable pub evict_all : {F : Type 0} → List FlowKey → EngineState F → EngineState F
evict_all [] s = s
evict_all (k ∷ ks) s = evict_all ks (evict k s)

module _ {F : Type 0} (ops : FloatOps F) (fmt : Fmt F) where
  unfoldable pub sweep_state : ℕ → EngineState F → EngineState F × List (L4Event F)
  sweep_state now s =
      let ttl = wrapping_mul64 s.cfg.flow_ttl_secs ns_per_sec in
      let hto = wrapping_mul64 s.cfg.handshake_timeout_secs ns_per_sec in
      let timeouts = keys_where (timed_out now hto) s.flows in
      let to_remove = keys_where (idle now ttl) s.flows in
      let (s', out) = flag_timeouts ops fmt now timeouts s in (evict_all to_remove s', out)

  unfoldable pub sweep : ℕ → Engine F → Engine F × List (L4Event F)
  unfolding sweep_state
  sweep now e = let (s, out) = sweep_state now e.state in (record e { state = s }, out)

  unfoldable pub run_detectors : DetectCtx F → List Detector → List Detector × List (L4Event F)
  run_detectors ctx [] = ([], [])
  run_detectors ctx (d ∷ ds) =
      let (d', ev) = inspect ops fmt ctx d in
      let (ds', evs) = run_detectors ctx ds in (d' ∷ ds', elim ev [ none ↦ evs | some e ↦ e ∷ evs ])

  unfoldable pub process : PacketMeta → Engine F → Engine F × List (L4Event F)
  process pkt e =
      let (s, key, delta) = update e.state pkt in
      let ctx : DetectCtx F = record {
        state = s;
        key = key;
        delta = delta;
        now_ns = pkt.ts_nanos;
      } in
      let (ds, out) = run_detectors ctx e.detectors in
      let e' = record e { state = s; detectors = ds } in
      let due = record e' { last_sweep_ns = pkt.ts_nanos } in
      let (swept, late) = sweep pkt.ts_nanos due in
      if leb e.sweep_interval_ns (saturating_sub pkt.ts_nanos e.last_sweep_ns)
      then (swept, out ++ late)
      else (e', out)

unfoldable pub stats : {F : Type 0} → FloatOps F → Engine F → ℕ → EngineStats F
stats ops e now = record {
  active_flows = length e.state.flows;
  half_open_max = half_open_max e.state.globals;
  rst_per_sec = Window.per_sec ops e.state.globals.rst_rate now;
  new_flow_per_sec = Window.per_sec ops e.state.globals.new_flow_rate now;
}

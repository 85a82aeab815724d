-- ===== src/Detect/Engine/SweepEvents.antt =====
-- The events that `sweep` of engine.rs returns: their kinds, times, keys and values.
use network_l4_monitoring_co.Base.{
  ℕ, ◌≡◌, refl, sym, ap, ◌∙◌, List, [], ◌∷◌, Option, none, some, All, All-append, arith,
  Option-cases, inl, inr, saturating_sub, unwrap_or, ns_per_sec,
}
use network_l4_monitoring_co.Base.HashMap.{Distinct}
use network_l4_monitoring_co.Core.Float.{FloatOps, Fmt}
use network_l4_monitoring_co.Core.Types.{FlowKey, FlowKey-discrete, L4Event, EventKind, warning}
use network_l4_monitoring_co.Detect.Flow.{FlowState, EngineState, flow_at}
use network_l4_monitoring_co.Detect.Detectors.{ns_to_secs_f64}
use network_l4_monitoring_co.Detect.Engine.{
  Engine, timed_out, timeout_event, flag_timeout, flag_timeouts, sweep,
}
use network_l4_monitoring_co.Detect.Engine.Sweep.{listed, passes, flow_at-flag_timeout}
use network_l4_monitoring_co.Detect.Engine.Reports.{keys_of, hto_ns, listed-sweep}

-- How long a flow has waited for the answer to its SYN.
abbrev pub waited : ℕ → Option FlowState → ℕ
waited now none = 0
waited now (some f) = saturating_sub now (unwrap_or f.syn_time_ns now)

-- The report that the handshake of a flow of the state has timed out: a warning of this time, with
-- the seconds that it has waited as its value.
pub record IsTimeout {F : Type 0} (ops : FloatOps F) (now : ℕ) (s : EngineState F) (ev : L4Event F)
    : Type 0 where
  pub kind : ev.kind ≡ EventKind.handshake_timeout
  pub severity : ev.severity ≡ warning
  pub ts : ev.ts_nanos ≡ now
  pub value :
      ev.value ≡ ops.div (ops.from_u64 (waited now (flow_at ev.key s))) (ops.from_u64 ns_per_sec)

module _ {F : Type 0} (ops : FloatOps F) (fmt : Fmt F) (now : ℕ) where
  waited-flag_timeout :
      (k j : FlowKey) (s : EngineState F)
      → waited now (flow_at j (flag_timeout ops fmt now k s).0) ≡ waited now (flow_at j s)
  waited-flag_timeout k j s =
      ground (arith, flow_at-flag_timeout ops fmt now k j s, Option-cases (flow_at j s))

  flag_timeout-IsTimeout :
      (k : FlowKey) (s s₀ : EngineState F)
      → waited now (flow_at k s) ≡ waited now (flow_at k s₀)
      → All (IsTimeout ops now s₀) (flag_timeout ops fmt now k s).1
  unfolding flag_timeout timeout_event ns_to_secs_f64
  flag_timeout-IsTimeout k s s₀ h = elim (Option-cases (flow_at k s)) [
    | inl e ↦ rw (e, flag_timeout) tt
    | inr (f, e) ↦
        rw (e, flag_timeout)
          (
            record {
              kind = refl;
              severity = refl;
              ts = refl;
              value =
                  ap (λ n. ops.div (ops.from_u64 n) (ops.from_u64 ns_per_sec))
                    (ap (waited now) (sym e) ∙ h);
            },
            tt,
          )
  ]

  flag_timeouts-IsTimeout :
      (ks : List FlowKey) (s s₀ : EngineState F)
      → ((j : FlowKey) → waited now (flow_at j s) ≡ waited now (flow_at j s₀))
      → All (IsTimeout ops now s₀) (flag_timeouts ops fmt now ks s).1
  unfolding flag_timeouts
  flag_timeouts-IsTimeout [] s s₀ h = tt
  flag_timeouts-IsTimeout (k ∷ ks) s s₀ h =
      All-append (IsTimeout ops now s₀) (flag_timeout ops fmt now k s).1 _
        (flag_timeout-IsTimeout k s s₀ (h k))
        (flag_timeouts-IsTimeout ks (flag_timeout ops fmt now k s).0 s₀
          λ j. waited-flag_timeout k j s ∙ h j)

  pub sweep-IsTimeout : (e : Engine F) → All (IsTimeout ops now e.state) (sweep ops fmt now e).1
  unfolding sweep
  sweep-IsTimeout e = flag_timeouts-IsTimeout _ e.state e.state λ j. refl

  -- On a table without repeated keys, every event of a sweep is a handshake timeout, a warning of the
  -- sweep's time whose value is how many seconds its flow has waited, and a flow has one exactly if
  -- its SYN has been unanswered for longer than the timeout and was not reported before.
  pub timeouts-sweep :
      (e : Engine F) (j : FlowKey)
      → Distinct FlowKey-discrete e.state.flows
      → All (IsTimeout ops now e.state) (sweep ops fmt now e).1
        × (listed j (keys_of (sweep ops fmt now e).1)
            ≡ passes (timed_out now (hto_ns e)) (flow_at j e.state))
  timeouts-sweep e j d = (sweep-IsTimeout e, listed-sweep ops fmt now e j d)

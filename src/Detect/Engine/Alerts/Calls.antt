-- ===== src/Detect/Engine/Alerts/Calls.antt =====
-- What a call of engine.rs does to the alerts, the rules and the configuration.
use network_l4_monitoring_co.Base.{
  ℕ, ◌-◌, ◌≡◌, refl, ap, ◌∙◌, Bool, false, List, [], ◌∷◌, ◌++◌, All, arith, leb, Bool-cases, inl,
  inr,
}
use mathlib.Core.List.{append-nil}
use network_l4_monitoring_co.Core.Float.{FloatOps, Fmt}
use network_l4_monitoring_co.Core.Types.{L4Event, EventKind, PacketMeta}
use network_l4_monitoring_co.Detect.Flow.{EngineState}
use network_l4_monitoring_co.Detect.Flow.Update.{update}
use network_l4_monitoring_co.Detect.Engine.{Engine, sweep, process, run_detectors}
use network_l4_monitoring_co.Detect.Engine.Trace.{context}
use network_l4_monitoring_co.Detect.Engine.HalfOpen.{process_cases}
use network_l4_monitoring_co.Detect.Engine.Reports.{cfg-sweep}
use network_l4_monitoring_co.Detect.Engine.SweepEvents.{IsTimeout, sweep-IsTimeout}
use network_l4_monitoring_co.Detect.Engine.Alerts.{alerts, alerts-append}

module _ {F : Type 0} (ops : FloatOps F) (fmt : Fmt F) where
  alerts-timeouts :
      (p : EventKind → Bool) (now : ℕ) (s : EngineState F) (evs : List (L4Event F))
      → p EventKind.handshake_timeout ≡ false
      → All (IsTimeout ops now s) evs
      → alerts p evs ≡ []
  unfolding alerts
  alerts-timeouts p now s [] q h = refl
  alerts-timeouts p now s (ev ∷ evs) q h = rw (h.0.kind, q) (alerts-timeouts p now s evs q h.1)

  pub alerts-sweep :
      (p : EventKind → Bool) (now : ℕ) (e : Engine F)
      → p EventKind.handshake_timeout ≡ false
      → alerts p (sweep ops fmt now e).1 ≡ []
  alerts-sweep p now e q =
      alerts-timeouts p now e.state (sweep ops fmt now e).1 q (sweep-IsTimeout ops fmt now e)

  -- The alerts of a packet are those of the rules.
  pub alerts-process :
      (p : EventKind → Bool) (pkt : PacketMeta) (e : Engine F)
      → p EventKind.handshake_timeout ≡ false
      → alerts p (process ops fmt pkt e).1
        ≡ alerts p (run_detectors ops fmt (context e pkt) e.detectors).1
  unfolding process
  alerts-process p pkt e q =
      let (ds, out) = run_detectors ops fmt (context e pkt) e.detectors in
      let due : Engine F = record e {
        state = (update e.state pkt).0;
        detectors = ds;
        last_sweep_ns = pkt.ts_nanos;
      } in
      elim (Bool-cases (leb e.sweep_interval_ns (pkt.ts_nanos - e.last_sweep_ns))) [
        | inl late ↦ rw late (
            alerts-append p out (sweep ops fmt pkt.ts_nanos due).1
            ∙ ap (λ xs. alerts p out ++ xs) (alerts-sweep p pkt.ts_nanos due q)
            ∙ append-nil (alerts p out))
        | inr early ↦ rw early refl
      ]

  pub detectors-process :
      (pkt : PacketMeta) (e : Engine F)
      → (process ops fmt pkt e).0.detectors ≡ (run_detectors ops fmt (context e pkt) e.detectors).0
  unfolding process sweep
  detectors-process pkt e = ground arith

  pub cfg-process :
      (pkt : PacketMeta) (e : Engine F) → (process ops fmt pkt e).0.state.cfg ≡ e.state.cfg
  cfg-process pkt e =
      process_cases ops fmt (λ s. s.cfg ≡ e.state.cfg) pkt e (unfold update in refl)
        λ now e' h. cfg-sweep ops fmt now e' ∙ h

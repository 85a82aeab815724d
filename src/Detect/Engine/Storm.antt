-- ===== src/Detect/Engine/Storm.antt =====
-- The RST-storm rule of l4scope/crates/l4scope-detect/src/detectors.rs, over the histories of
-- engine.rs.
use network_l4_monitoring_co.Base.{
  ℕ, ◌+◌, ◌^◌, ◌<◌, ◌≡◌, ap, ◌∙◌, List, [], ◌∷◌, arith, length, true, refl, not, ◌&&◌,
}
use network_l4_monitoring_co.Core.Float.{FloatOps, Fmt}
use network_l4_monitoring_co.Core.Config.{DetectConfig}
use network_l4_monitoring_co.Core.Types.{PacketMeta, L4Event}
use network_l4_monitoring_co.Detect.Window
use network_l4_monitoring_co.Detect.Window.{RollingRate, per_sec}
use network_l4_monitoring_co.Detect.Window.Counts.{record_all, Ordered, events_within}
use network_l4_monitoring_co.Detect.Flow.{EngineState}
use network_l4_monitoring_co.Detect.Flow.Update.{step, update, on_tcp, on_rst, clear_half_open}
use network_l4_monitoring_co.Detect.Engine.{Engine, new, process}
use network_l4_monitoring_co.Detect.Engine.Trace.{Call, run, context}
use network_l4_monitoring_co.Detect.Engine.Alerts.{
  is_storm, alerts, latest, may_alert, alert_if, asked-may_alert,
}
use network_l4_monitoring_co.Detect.Engine.Alerts.Rules.{storm_over}
use network_l4_monitoring_co.Detect.Engine.Alerts.History.{
  gap_ns, run-new-Remembers, storms-process,
}
use network_l4_monitoring_co.Detect.Engine.Rates.{
  is_reset, reset_times, length-reset_times, rst_rate-step, rst_rate-new, per_sec-record_all,
}

rst_seen-step :
    {F : Type 0} (s : EngineState F) (pkt : PacketMeta)
    → is_reset pkt ≡ true
    → (step s pkt).delta.rst_seen ≡ true
unfolding step on_tcp on_rst clear_half_open
rst_seen-step s pkt h = ground arith

module _ {F : Type 0} (ops : FloatOps F) (fmt : Fmt F) (cfg : DetectConfig F) (cs : List Call)
    (pkt : PacketMeta) where
  -- The resets so far, the one of the packet first.
  abbrev pub resets : List ℕ
  resets = pkt.ts_nanos ∷ reset_times cs []

  -- The rate that the resets of the packet's second amount to.
  abbrev pub reset_rate : F
  reset_rate = ops.div (ops.from_u64 (events_within 1 pkt.ts_nanos resets)) (ops.from_u64 1)

  -- The engine before the packet, and its events so far.
  abbrev pub before : Engine F × List (L4Event F)
  before = run ops fmt cs (new cfg)

  -- For a reset packet, at a time below 2^64, after any fewer than 2^64 - 1 packets and sweeps on a
  -- new engine, where the times of the resets do not decrease: `process` returns one RST storm, of
  -- the packet's time, if the rate that the resets of the packet's clock second, itself included,
  -- amount to is not below the threshold and the debounce gap has passed since the last RST storm of
  -- the history (or there was none, or it had time 0), and otherwise it returns no RST storm.
  pub rst_storm_alert :
      is_reset pkt ≡ true
      → pkt.ts_nanos < 2 ^ 64
      → length cs + 1 < 2 ^ 64
      → Ordered resets pkt.ts_nanos
      → alerts is_storm (process ops fmt pkt before.0).1
        ≡ alert_if
            (not (ops.lt reset_rate cfg.rst_storm_per_sec)
              && may_alert (gap_ns cfg) (latest 0 (alerts is_storm before.1)) pkt.ts_nanos)
            pkt.ts_nanos
  unfolding update record_all
  rst_storm_alert is u64 few ordered =
      let e = before.0 in
      let m = run-new-Remembers ops fmt cfg cs in
      let counted : (step e.state pkt).globals.rst_rate ≡ record_all (Window.new 1) resets =
        rst_rate-step e.state pkt ∙ ground (arith, is, rst_rate-new ops fmt cfg cs) in
      let rate : per_sec ops (step e.state pkt).globals.rst_rate pkt.ts_nanos ≡ reset_rate =
        ap (λ (r : RollingRate). per_sec ops r pkt.ts_nanos) counted
        ∙ per_sec-record_all ops pkt.ts_nanos resets u64 (omega (arith, length-reset_times cs []))
            ordered in
      storms-process ops fmt cfg before.1 pkt e m
      ∙ ap (λ fire. alert_if fire pkt.ts_nanos)
          (asked-may_alert (storm_over ops fmt (context e pkt)) m.storm pkt.ts_nanos)
      ∙ rw (rst_seen-step e.state pkt is, rate, m.same, m.of_storm.gap_is, m.of_storm.last) refl

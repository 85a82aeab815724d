-- ===== src/Detect/Engine/Alerts/History.antt =====
-- What the debounced rules of detectors.rs remember over a history of engine.rs: the last alert.
use network_l4_monitoring_co.Base.{
  ℕ, ◌≡◌, refl, sym, ap, subst, ◌∙◌, Bool, false, List, [], ◌∷◌, ◌++◌, wrapping_mul64, ns_per_sec,
}
use mathlib.Core.List.{append-nil, append_assoc}
use network_l4_monitoring_co.Core.Float.{FloatOps, Fmt}
use network_l4_monitoring_co.Core.Config.{DetectConfig}
use network_l4_monitoring_co.Core.Types.{L4Event, EventKind, PacketMeta}
use network_l4_monitoring_co.Detect.Debounce
use network_l4_monitoring_co.Detect.Debounce.{Debounce}
use network_l4_monitoring_co.Detect.Flow.{new_state}
use network_l4_monitoring_co.Detect.Detectors.{default_detectors}
use network_l4_monitoring_co.Detect.Engine.{Engine, new, sweep, process, run_detectors}
use network_l4_monitoring_co.Detect.Engine.Trace.{Call, packet, timer, call, run, context}
use network_l4_monitoring_co.Detect.Engine.Reports.{cfg-sweep}
use network_l4_monitoring_co.Detect.Engine.Alerts.{
  is_storm, is_backlog, alerts, latest, alerts-append, latest-append, rules, asked, alert_if,
  latest-asked, gap-asked,
}
use network_l4_monitoring_co.Detect.Engine.Alerts.Rules.{
  storm_over, backlog_over, storms, backlogs, after,
}
use network_l4_monitoring_co.Detect.Engine.Alerts.Calls.{
  alerts-sweep, alerts-process, detectors-process, cfg-process,
}

-- The gap between two alerts of a rule, in nanoseconds.
abbrev pub gap_ns : {F : Type 0} → DetectConfig F → ℕ
gap_ns cfg = wrapping_mul64 cfg.alert_debounce_secs ns_per_sec

-- A debounce that has let through alerts at these times.
pub record HasAlerted (g : ℕ) (times : List ℕ) (d : Debounce) : Type 0 where
  pub gap_is : d.gap_ns ≡ g
  pub last : d.last_ns ≡ latest 0 times

-- The engine has this configuration and the default rules, which remember the alerts among the
-- events.
pub record Remembers {F : Type 0} (cfg : DetectConfig F) (evs : List (L4Event F)) (e : Engine F)
    : Type 0 where
  pub same : e.state.cfg ≡ cfg
  pub storm : Debounce
  pub backlog : Debounce
  pub new_flows : Debounce
  pub are : e.detectors ≡ rules storm backlog new_flows
  pub of_storm : HasAlerted (gap_ns cfg) (alerts is_storm evs) storm
  pub of_backlog : HasAlerted (gap_ns cfg) (alerts is_backlog evs) backlog

asked-HasAlerted :
    (over : Bool) (gap now : ℕ) (times : List ℕ) (d : Debounce)
    → HasAlerted gap times d
    → HasAlerted gap (times ++ alert_if (asked over d now).1 now) (asked over d now).0
asked-HasAlerted over gap now times d h = record {
  gap_is = gap-asked over d now ∙ h.gap_is;
  last =
      latest-asked over d now
      ∙ ap (λ t. latest t (alert_if (asked over d now).1 now)) h.last
      ∙ sym (latest-append 0 times (alert_if (asked over d now).1 now));
}

module _ {F : Type 0} (ops : FloatOps F) (fmt : Fmt F) where
  module _ (cfg : DetectConfig F) (evs : List (L4Event F)) where
    pub storms-process :
        (pkt : PacketMeta) (e : Engine F) (m : Remembers cfg evs e)
        → alerts is_storm (process ops fmt pkt e).1
          ≡ alert_if
              (asked (storm_over ops fmt (context e pkt)) m.storm pkt.ts_nanos).1
              pkt.ts_nanos
    storms-process pkt e m =
        let ctx = context e pkt in
        alerts-process ops fmt is_storm pkt e refl
        ∙ ap (λ ds. alerts is_storm (run_detectors ops fmt ctx ds).1) m.are
        ∙ storms ops fmt ctx m.storm m.backlog m.new_flows

    pub backlogs-process :
        (pkt : PacketMeta) (e : Engine F) (m : Remembers cfg evs e)
        → alerts is_backlog (process ops fmt pkt e).1
          ≡ alert_if
              (asked (backlog_over ops fmt (context e pkt)) m.backlog pkt.ts_nanos).1
              pkt.ts_nanos
    backlogs-process pkt e m =
        let ctx = context e pkt in
        alerts-process ops fmt is_backlog pkt e refl
        ∙ ap (λ ds. alerts is_backlog (run_detectors ops fmt ctx ds).1) m.are
        ∙ backlogs ops fmt ctx m.storm m.backlog m.new_flows

    alerted :
        (p : EventKind → Bool) (out : List (L4Event F)) (over : Bool) (now : ℕ) (d : Debounce)
        → alerts p out ≡ alert_if (asked over d now).1 now
        → HasAlerted (gap_ns cfg) (alerts p evs) d
        → HasAlerted (gap_ns cfg) (alerts p (evs ++ out)) (asked over d now).0
    alerted p out over now d e h =
        subst (λ ts. HasAlerted (gap_ns cfg) ts (asked over d now).0)
          (sym (alerts-append p evs out ∙ ap (λ ts. alerts p evs ++ ts) e))
          (asked-HasAlerted over (gap_ns cfg) now (alerts p evs) d h)

    process-Remembers :
        (pkt : PacketMeta) (e : Engine F)
        → Remembers cfg evs e
        → Remembers cfg (evs ++ (process ops fmt pkt e).1) (process ops fmt pkt e).0
    process-Remembers pkt e m =
        let ctx = context e pkt in
        let out = (process ops fmt pkt e).1 in
        let (d, kept) = after ops fmt ctx m.storm m.backlog m.new_flows in
        record {
          same = cfg-process ops fmt pkt e ∙ m.same;
          storm = (asked (storm_over ops fmt ctx) m.storm pkt.ts_nanos).0;
          backlog = (asked (backlog_over ops fmt ctx) m.backlog pkt.ts_nanos).0;
          new_flows = d;
          are =
              detectors-process ops fmt pkt e
              ∙ ap (λ ds. (run_detectors ops fmt ctx ds).0) m.are
              ∙ kept;
          of_storm =
              alerted is_storm out (storm_over ops fmt ctx) pkt.ts_nanos m.storm
                (storms-process pkt e m) m.of_storm;
          of_backlog =
              alerted is_backlog out (backlog_over ops fmt ctx) pkt.ts_nanos m.backlog
                (backlogs-process pkt e m) m.of_backlog;
        }

    swept :
        (p : EventKind → Bool) (now : ℕ) (e : Engine F)
        → p EventKind.handshake_timeout ≡ false
        → alerts p (evs ++ (sweep ops fmt now e).1) ≡ alerts p evs
    swept p now e q =
        alerts-append p evs (sweep ops fmt now e).1
        ∙ ap (λ ts. alerts p evs ++ ts) (alerts-sweep ops fmt p now e q)
        ∙ append-nil (alerts p evs)

    sweep-Remembers :
        (now : ℕ) (e : Engine F)
        → Remembers cfg evs e
        → Remembers cfg (evs ++ (sweep ops fmt now e).1) (sweep ops fmt now e).0
    unfolding sweep
    sweep-Remembers now e m = record {
      same = cfg-sweep ops fmt now e ∙ m.same;
      storm = m.storm;
      backlog = m.backlog;
      new_flows = m.new_flows;
      are = m.are;
      of_storm =
          subst (λ ts. HasAlerted (gap_ns cfg) ts m.storm) (sym (swept is_storm now e refl))
            m.of_storm;
      of_backlog =
          subst (λ ts. HasAlerted (gap_ns cfg) ts m.backlog) (sym (swept is_backlog now e refl))
            m.of_backlog;
    }

  call-Remembers :
      (cfg : DetectConfig F) (evs : List (L4Event F)) (c : Call) (e : Engine F)
      → Remembers cfg evs e
      → Remembers cfg (evs ++ (call ops fmt c e).1) (call ops fmt c e).0
  call-Remembers cfg evs (packet pkt) e m = process-Remembers cfg evs pkt e m
  call-Remembers cfg evs (timer now) e m = sweep-Remembers cfg evs now e m

  run-Remembers :
      (cfg : DetectConfig F) (cs : List Call) (evs : List (L4Event F)) (e : Engine F)
      → Remembers cfg evs e
      → Remembers cfg (evs ++ (run ops fmt cs e).1) (run ops fmt cs e).0
  unfolding run
  run-Remembers cfg [] evs e m = subst (λ xs. Remembers cfg xs e) (sym (append-nil evs)) m
  run-Remembers cfg (c ∷ cs) evs e m =
      let (e', out) = call ops fmt c e in
      subst (λ xs. Remembers cfg xs (run ops fmt cs e').0)
        (append_assoc evs out (run ops fmt cs e').1)
        (run-Remembers cfg cs (evs ++ out) e' (call-Remembers cfg evs c e m))

  -- A new engine that has made calls remembers the alerts among their events.
  pub run-new-Remembers :
      (cfg : DetectConfig F) (cs : List Call)
      → Remembers cfg (run ops fmt cs (new cfg)).1 (run ops fmt cs (new cfg)).0
  unfolding new new_state default_detectors Debounce.new alerts latest
  run-new-Remembers cfg cs =
      let d = Debounce.new cfg.alert_debounce_secs in
      run-Remembers cfg cs [] (new cfg) (record {
        same = refl;
        storm = d;
        backlog = d;
        new_flows = d;
        are = refl;
        of_storm = record { gap_is = refl; last = refl };
        of_backlog = record { gap_is = refl; last = refl };
      })

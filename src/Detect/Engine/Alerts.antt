-- ===== src/Detect/Engine/Alerts.antt =====
-- The alerts among the events of engine.rs, and the debounce of detectors.rs that lets them through.
pub mod Rules
pub mod Calls
pub mod History
use network_l4_monitoring_co.Base.{
  ltb, ℕ, ◌+◌, ◌≡◌, refl, ap, ◌∙◌, Bool, true, false, not, ◌&&◌, ◌||◌, List, [], ◌∷◌, ◌++◌, Option,
  none, some, All, arith, if◌then◌else◌, leb, ◌==◌, saturating_sub, Bool-cases, Option-cases, inl,
  inr,
}
use mathlib.Core.List.{append-nil}
use network_l4_monitoring_co.Core.Float.{FloatOps, Fmt}
use network_l4_monitoring_co.Core.Types.{L4Event, EventKind}
use network_l4_monitoring_co.Detect.Debounce.{Debounce, ready}
use network_l4_monitoring_co.Detect.Window
use network_l4_monitoring_co.Detect.Flow.{half_open_for}
use network_l4_monitoring_co.Detect.Detectors.{
  DetectCtx, Detector, retransmission, out_of_order, dup_ack, zero_window, high_rtt,
  handshake_failure, rst_storm, syn_backlog, churn, inspect, inspect_retransmission,
  inspect_out_of_order, inspect_dup_ack, inspect_zero_window, inspect_high_rtt,
  inspect_handshake_failure, inspect_rst_storm, inspect_syn_backlog, inspect_churn, flow_of,
}
use network_l4_monitoring_co.Detect.Engine.{run_detectors}

abbrev pub is_storm : EventKind → Bool
is_storm EventKind.rst_storm = true
is_storm _ = false

abbrev pub is_backlog : EventKind → Bool
is_backlog EventKind.syn_backlog = true
is_backlog _ = false

-- The times of the events of some kind, in order.
unfoldable pub alerts : {F : Type 0} → (EventKind → Bool) → List (L4Event F) → List ℕ
alerts p [] = []
alerts p (ev ∷ evs) = let rest = alerts p evs in if p ev.kind then ev.ts_nanos ∷ rest else rest

-- The last one, or `t` if there is none.
unfoldable pub latest : ℕ → List ℕ → ℕ
latest t [] = t
latest t (u ∷ us) = latest u us

-- A gap has passed since the last alert, or there was none (time 0).
abbrev pub may_alert : ℕ → ℕ → ℕ → Bool
may_alert gap last now = leb gap (saturating_sub now last) || last == 0

-- What `run_detectors` adds of a rule.
abbrev pub events_of : {F : Type 0} → Option (L4Event F) → List (L4Event F)
events_of none = []
events_of (some ev) = ev ∷ []

pub alerts-append :
    {F : Type 0} (p : EventKind → Bool) (xs ys : List (L4Event F))
    → alerts p (xs ++ ys) ≡ alerts p xs ++ alerts p ys
unfolding alerts
alerts-append p [] ys = refl
alerts-append p (x ∷ xs) ys = ground (arith, alerts-append p xs ys)

pub latest-append : (t : ℕ) (xs ys : List ℕ) → latest t (xs ++ ys) ≡ latest (latest t xs) ys
unfolding latest
latest-append t [] ys = refl
latest-append t (x ∷ xs) ys = latest-append x xs ys

-- The rules of `default_detectors`, with the state of the debounced ones.
abbrev pub rules : Debounce → Debounce → Debounce → List Detector
rules storm backlog new_flows =
    retransmission
    ∷ out_of_order
    ∷ dup_ack
    ∷ zero_window
    ∷ high_rtt
    ∷ handshake_failure
    ∷ rst_storm storm
    ∷ syn_backlog backlog
    ∷ churn new_flows
    ∷ []

-- A debounce that is asked if a signal is over its threshold.
abbrev pub asked : Bool → Debounce → ℕ → Debounce × Bool
asked over d now = if over then ready d now else (d, false)

abbrev pub alert_if : Bool → ℕ → List ℕ
alert_if fire now = if fire then now ∷ [] else []

pub latest-asked :
    (over : Bool) (d : Debounce) (now : ℕ)
    → (asked over d now).0.last_ns ≡ latest d.last_ns (alert_if (asked over d now).1 now)
unfolding ready latest
latest-asked over d now = ground arith

pub gap-asked : (over : Bool) (d : Debounce) (now : ℕ) → (asked over d now).0.gap_ns ≡ d.gap_ns
unfolding ready
gap-asked over d now = ground arith

pub asked-may_alert :
    (over : Bool) (d : Debounce) (now : ℕ)
    → (asked over d now).1 ≡ (over && may_alert d.gap_ns d.last_ns now)
unfolding ready
asked-may_alert over d now = ground arith

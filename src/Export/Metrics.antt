-- ===== src/Export/Metrics.antt =====
-- l4scope/crates/l4scope-export/src/metrics.rs: the metrics registry. The handle's mutex is held for
-- one method at a time and no method panics while it holds it, so a method is a function on the
-- metrics; the branches for a poisoned mutex are not modelled.
pub mod Counts
pub mod Render
pub mod Order
use network_l4_monitoring_co.Base.{
  ℕ, String, List, [], ◌∷◌, map, Option, none, some, wrapping_add64,
}
use network_l4_monitoring_co.Base.Order.{string_ord, pair_ord}
use network_l4_monitoring_co.Base.BTreeMap.{BTreeMap}
use network_l4_monitoring_co.Base.BTreeMap.Counter.{increment}
use network_l4_monitoring_co.Core.Float.{FloatOps}
use network_l4_monitoring_co.Core.Types.{L4Event}
use network_l4_monitoring_co.Detect.Json.{kind_name, severity_name}

-- The key (pod_ip, kind, severity) is a pair of the address and the label, with the same order.
abbrev pub Label : Type 0
Label = String × String

pub record Metrics (F : Type 0) : Type 0 where
  pub packets_total : ℕ
  pub events_total : ℕ
  pub event_counts : BTreeMap Label ℕ
  pub pod_event_counts : BTreeMap (String × Label) ℕ
  pub pod_packets : BTreeMap String ℕ
  pub active_flows : ℕ
  pub half_open_max : ℕ
  pub rst_per_sec : F
  pub new_flow_per_sec : F

pub record MetricsSnapshot (F : Type 0) : Type 0 where
  pub packets_total : ℕ
  pub events_total : ℕ
  pub event_counts : List (String × String × ℕ)
  pub pod_event_counts : List (String × String × String × ℕ)
  pub pod_packets : List (String × ℕ)
  pub active_flows : ℕ
  pub half_open_max : ℕ
  pub rst_per_sec : F
  pub new_flow_per_sec : F

unfoldable pub new : {F : Type 0} → FloatOps F → Metrics F
new ops = record {
  packets_total = 0;
  events_total = 0;
  event_counts = [];
  pod_event_counts = [];
  pod_packets = [];
  active_flows = 0;
  half_open_max = 0;
  rst_per_sec = ops.from_u64 0;
  new_flow_per_sec = ops.from_u64 0;
}

unfoldable pub label_of : {F : Type 0} → L4Event F → Label
label_of ev = (kind_name ev.kind, severity_name ev.severity)

-- `if let Some(ip) = pod_ip` around the bump of one counter.
abbrev pub when_pod : {A : Type 0} → (String → A → A) → Option String → A → A
when_pod bump none m = m
when_pod bump (some ip) m = bump ip m

module _ {F : Type 0} where
  unfoldable pub record_packet : Option String → Metrics F → Metrics F
  record_packet pod_ip m = record m {
    packets_total = wrapping_add64 m.packets_total 1;
    pod_packets = when_pod increment pod_ip m.pod_packets;
  }

  unfoldable pub record_event : L4Event F → Option String → Metrics F → Metrics F
  unfolding label_of
  record_event ev pod_ip m =
      let label = label_of ev in
      record m {
        events_total = wrapping_add64 m.events_total 1;
        event_counts = increment label m.event_counts;
        pod_event_counts = when_pod (λ ip. increment (ip, label)) pod_ip m.pod_event_counts;
      }

  unfoldable pub set_gauges : ℕ → ℕ → F → F → Metrics F → Metrics F
  set_gauges active_flows half_open_max rst_per_sec new_flow_per_sec m = record m {
    active_flows = active_flows;
    half_open_max = half_open_max;
    rst_per_sec = rst_per_sec;
    new_flow_per_sec = new_flow_per_sec;
  }

  unfoldable pub snapshot : Metrics F → MetricsSnapshot F
  snapshot m = record {
    packets_total = m.packets_total;
    events_total = m.events_total;
    event_counts = map (λ ((k, s), n). (k, s, n)) m.event_counts;
    pod_event_counts = map (λ ((ip, (k, s)), n). (ip, k, s, n)) m.pod_event_counts;
    pod_packets = m.pod_packets;
    active_flows = m.active_flows;
    half_open_max = m.half_open_max;
    rst_per_sec = m.rst_per_sec;
    new_flow_per_sec = m.new_flow_per_sec;
  }

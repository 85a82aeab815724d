-- ===== src/Tests/Metrics.antt =====
-- metrics.rs at concrete inputs.
use network_l4_monitoring_co.Base.{ℕ, ◌≡◌, refl, [], ◌∷◌, none, some, arith}
use mathlib.Core.List.{Permᴰ}
use network_l4_monitoring_co.Base.Order.{string_ord, pair_ord}
use network_l4_monitoring_co.Base.BTreeMap.{get}
use network_l4_monitoring_co.Base.BTreeMap.Counter.{bumped, occurrences}
use network_l4_monitoring_co.Core.Types.{retransmission, zero_window, warning}
use network_l4_monitoring_co.Export.Metrics.{new, snapshot}
use network_l4_monitoring_co.Export.Metrics.Counts.{
  Attributed, labels, pod_labels, record_all, get-record_all,
}
use network_l4_monitoring_co.Export.Metrics.Order.{snapshot-record_all-Permᴰ}
use network_l4_monitoring_co.Tests.Values.{ops, key}

abbrev first : Attributed ℕ
first = (
  record {
    ts_nanos = 5;
    kind = retransmission;
    severity = warning;
    key = key;
    value = 1;
    detail = "";
  },
  some "10.0.0.1",
)

abbrev second : Attributed ℕ
second = (
  record {
    ts_nanos = 6;
    kind = zero_window;
    severity = warning;
    key = key;
    value = 2;
    detail = "";
  },
  none,
)

get-record_all_example :
    (get ("retransmission", "warning") (record_all (first ∷ second ∷ []) (new ops)).event_counts
      ≡ bumped none (occurrences ("retransmission", "warning") (labels (first ∷ second ∷ []))))
    × (get
          ("10.0.0.1", ("retransmission", "warning"))
          (record_all (first ∷ second ∷ []) (new ops)).pod_event_counts
        ≡ bumped none (
            occurrences
              ("10.0.0.1", ("retransmission", "warning"))
              (pod_labels (first ∷ second ∷ []))))
get-record_all_example =
    get-record_all ops (first ∷ second ∷ []) ("retransmission", "warning") "10.0.0.1" (omega arith)

snapshot-record_all-Permᴰ_example :
    snapshot (record_all (first ∷ second ∷ []) (new ops))
    ≡ snapshot (record_all (second ∷ first ∷ []) (new ops))
snapshot-record_all-Permᴰ_example =
    snapshot-record_all-Permᴰ ops {evs = first ∷ second ∷ []} {evs' = second ∷ first ∷ []}
      (Permᴰ.swap refl refl) (omega arith)

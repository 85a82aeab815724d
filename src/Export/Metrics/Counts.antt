-- ===== src/Export/Metrics/Counts.antt =====
-- What the registry of metrics.rs counts.
use network_l4_monitoring_co.Base.{
  ◌+◌, ◌^◌, ◌<◌, ◌≡◌, refl, ap, ◌∙◌, String, List, [], ◌∷◌, Option, none, some, arith, length, ◌≤◌,
}
use network_l4_monitoring_co.Base.Order.{string_ord, pair_ord}
use network_l4_monitoring_co.Base.BTreeMap.{get}
use network_l4_monitoring_co.Base.BTreeMap.Counter.{
  count_all, occurrences, sum_values, bumped, get-count_all, sum_values-count_all,
}
use network_l4_monitoring_co.Core.Float.{FloatOps}
use network_l4_monitoring_co.Core.Types.{L4Event}
use network_l4_monitoring_co.Export.Metrics.{Metrics, Label, new, label_of, record_event}

-- An event with the pod that it is attributed to.
abbrev pub Attributed : Type 0 → Type 0
Attributed F = L4Event F × Option String

abbrev pub labels : {F : Type 0} → List (Attributed F) → List Label
labels [] = []
labels ((ev, pod) ∷ evs) = label_of ev ∷ labels evs

abbrev pub pod_labels : {F : Type 0} → List (Attributed F) → List (String × Label)
pod_labels [] = []
pod_labels ((ev, none) ∷ evs) = pod_labels evs
pod_labels ((ev, some ip) ∷ evs) = (ip, label_of ev) ∷ pod_labels evs

unfoldable pub record_all : {F : Type 0} → List (Attributed F) → Metrics F → Metrics F
record_all [] m = m
record_all ((ev, pod) ∷ evs) m = record_all evs (record_event ev pod m)

module _ {F : Type 0} where
  pub events-record_all :
      (evs : List (Attributed F)) (m : Metrics F)
      → (record_all evs m).event_counts ≡ count_all (labels evs) m.event_counts
  unfolding record_all record_event count_all
  events-record_all [] m = refl
  events-record_all ((ev, pod) ∷ evs) m = events-record_all evs (record_event ev pod m)

  pub pods-record_all :
      (evs : List (Attributed F)) (m : Metrics F)
      → (record_all evs m).pod_event_counts ≡ count_all (pod_labels evs) m.pod_event_counts
  unfolding record_all record_event count_all
  pods-record_all [] m = refl
  pods-record_all ((ev, none) ∷ evs) m = pods-record_all evs (record_event ev none m)
  pods-record_all ((ev, some ip) ∷ evs) m = pods-record_all evs (record_event ev (some ip) m)

  pub total-record_all :
      (evs : List (Attributed F)) (m : Metrics F)
      → m.events_total + length evs < 2 ^ 64
      → (record_all evs m).events_total ≡ m.events_total + length evs
  unfolding record_all record_event
  total-record_all [] m h = omega arith
  total-record_all ((ev, pod) ∷ evs) m h =
      omega (arith, total-record_all evs (record_event ev pod m) (omega arith))

  pub length-labels : (evs : List (Attributed F)) → length (labels evs) ≡ length evs
  length-labels [] = refl
  length-labels (e ∷ evs) = omega (arith, length-labels evs)

  pub length-pod_labels-le : (evs : List (Attributed F)) → length (pod_labels evs) ≤ length evs
  length-pod_labels-le [] = omega arith
  length-pod_labels-le ((ev, none) ∷ evs) = omega (arith, length-pod_labels-le evs)
  length-pod_labels-le ((ev, some ip) ∷ evs) = omega (arith, length-pod_labels-le evs)

  -- After fewer than 2^64 events on a new registry, the counter of a kind and severity is the number
  -- of the events with them, the one of a pod, kind and severity is the number of those attributed
  -- to that pod, and a counter that was never bumped is absent.
  pub get-record_all :
      (ops : FloatOps F) (evs : List (Attributed F)) (label : Label) (ip : String)
      → length evs < 2 ^ 64
      → let m = record_all evs (new ops) in
        (get label m.event_counts ≡ bumped none (occurrences label (labels evs)))
        × (get (ip, label) m.pod_event_counts
            ≡ bumped none (occurrences (ip, label) (pod_labels evs)))
  unfolding new get
  get-record_all ops evs label ip few = (
    ap (get label) (events-record_all evs (new ops))
        ∙ get-count_all label (labels evs) [] tt (omega (arith, length-labels evs)),
    ap (get (ip, label)) (pods-record_all evs (new ops))
        ∙ get-count_all (ip, label) (pod_labels evs) [] tt
            (omega (arith, length-pod_labels-le evs)),
  )

  -- After fewer than 2^64 events on a new registry, the total is their number, it is the sum of the
  -- counters by kind and severity, and the counters of the pods have at most that sum.
  pub sum_values-record_all :
      (ops : FloatOps F) (evs : List (Attributed F))
      → length evs < 2 ^ 64
      → let m = record_all evs (new ops) in
        (m.events_total ≡ length evs)
        × (sum_values m.event_counts ≡ m.events_total)
        × (sum_values m.pod_event_counts ≤ m.events_total)
  unfolding new
  sum_values-record_all ops evs few =
      let total = total-record_all evs (new ops) (omega arith) in
      let events = ap sum_values (events-record_all evs (new ops)) in
      let pods = ap sum_values (pods-record_all evs (new ops)) in
      let by_label = sum_values-count_all (labels evs) [] (omega (arith, length-labels evs)) in
      let by_pod =
        sum_values-count_all (pod_labels evs) [] (omega (arith, length-pod_labels-le evs)) in
      (
        omega (arith, total),
        omega (arith, total, events, by_label, length-labels evs),
        omega (arith, total, pods, by_pod, length-pod_labels-le evs),
      )

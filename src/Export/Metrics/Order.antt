-- ===== src/Export/Metrics/Order.antt =====
-- What the registry of metrics.rs shows does not depend on the order of the events.
use network_l4_monitoring_co.Base.{
  ◌^◌, ◌<◌, ◌≡◌, refl, ap, subst, List, [], ◌∷◌, none, some, arith, length, length-Permᴰ,
}
use mathlib.Core.List.{Permᴰ}
use mathlib.Core.List.Permᴰ
use network_l4_monitoring_co.Base.Order.{string_ord, pair_ord}
use network_l4_monitoring_co.Base.BTreeMap.Counter.{count_all-Permᴰ}
use network_l4_monitoring_co.Core.Float.{FloatOps}
use network_l4_monitoring_co.Export.Metrics.{Metrics, new, label_of, record_event, snapshot}
use network_l4_monitoring_co.Export.Metrics.Counts.{
  Attributed, labels, pod_labels, record_all, events-record_all, pods-record_all, total-record_all,
  length-labels, length-pod_labels-le,
}

module _ {F : Type 0} where
  labels-Permᴰ :
      {evs evs' : List (Attributed F)} → Permᴰ evs evs' → Permᴰ (labels evs) (labels evs')
  labels-Permᴰ Permᴰ.nil = Permᴰ.nil
  labels-Permᴰ (Permᴰ.cons e p) = Permᴰ.cons (ap (λ a. label_of a.0) e) (labels-Permᴰ p)
  labels-Permᴰ (Permᴰ.swap d e) = Permᴰ.swap (ap (λ a. label_of a.0) d) (ap (λ a. label_of a.0) e)
  labels-Permᴰ (Permᴰ.trans p q) = Permᴰ.trans (labels-Permᴰ p) (labels-Permᴰ q)

  pod_labels-cons :
      (a : Attributed F) (evs evs' : List (Attributed F))
      → Permᴰ (pod_labels evs) (pod_labels evs')
      → Permᴰ (pod_labels (a ∷ evs)) (pod_labels (a ∷ evs'))
  pod_labels-cons (ev, none) evs evs' p = p
  pod_labels-cons (ev, some ip) evs evs' p = Permᴰ.cons refl p

  pod_labels-swap :
      (a b : Attributed F) (evs : List (Attributed F))
      → Permᴰ (pod_labels (a ∷ b ∷ evs)) (pod_labels (b ∷ a ∷ evs))
  pod_labels-swap (ev, none) (ev', none) evs = Permᴰ.refl _
  pod_labels-swap (ev, none) (ev', some ip) evs = Permᴰ.refl _
  pod_labels-swap (ev, some ip) (ev', none) evs = Permᴰ.refl _
  pod_labels-swap (ev, some ip) (ev', some jp) evs = Permᴰ.swap refl refl

  pod_labels-Permᴰ :
      {evs evs' : List (Attributed F)} → Permᴰ evs evs' → Permᴰ (pod_labels evs) (pod_labels evs')
  pod_labels-Permᴰ Permᴰ.nil = Permᴰ.nil
  pod_labels-Permᴰ (Permᴰ.cons {a} {b} {l₁} {l₂} e p) =
      subst (λ c. Permᴰ (pod_labels (a ∷ l₁)) (pod_labels (c ∷ l₂))) e
        (pod_labels-cons a l₁ l₂ (pod_labels-Permᴰ p))
  pod_labels-Permᴰ (Permᴰ.swap {a} {b} {a'} {b'} {l} d e) =
      subst (λ c. Permᴰ (pod_labels (a ∷ b ∷ l)) (pod_labels (a' ∷ c ∷ l))) d
        (subst (λ c. Permᴰ (pod_labels (a ∷ b ∷ l)) (pod_labels (c ∷ a ∷ l))) e
          (pod_labels-swap a b l))
  pod_labels-Permᴰ (Permᴰ.trans p q) = Permᴰ.trans (pod_labels-Permᴰ p) (pod_labels-Permᴰ q)

  -- Events touch three fields.
  record_all_fields :
      (evs : List (Attributed F)) (m : Metrics F)
      → let m' = record_all evs m in
        m' ≡ record m {
          events_total = m'.events_total;
          event_counts = m'.event_counts;
          pod_event_counts = m'.pod_event_counts;
        }
  unfolding record_all record_event
  record_all_fields [] m = refl
  record_all_fields ((ev, pod) ∷ evs) m = record_all_fields evs (record_event ev pod m)

  -- Two orders of the same fewer than 2^64 events, each with its pod, leave a new registry with the
  -- same snapshot.
  pub snapshot-record_all-Permᴰ :
      (ops : FloatOps F) {evs evs' : List (Attributed F)}
      → Permᴰ evs evs'
      → length evs < 2 ^ 64
      → snapshot (record_all evs (new ops)) ≡ snapshot (record_all evs' (new ops))
  unfolding new
  snapshot-record_all-Permᴰ ops {evs} {evs'} p few =
      let total : (record_all evs (new ops)).events_total
          ≡ (record_all evs' (new ops)).events_total =
        omega (
          arith,
          total-record_all evs (new ops) (omega arith),
          total-record_all evs' (new ops) (omega (arith, length-Permᴰ p)),
          length-Permᴰ p,
        ) in
      let events = count_all-Permᴰ (labels-Permᴰ p) (omega (arith, length-labels evs)) in
      let pods = count_all-Permᴰ (pod_labels-Permᴰ p) (omega (arith, length-pod_labels-le evs)) in
      cc (
        record_all_fields evs (new ops),
        record_all_fields evs' (new ops),
        total,
        events,
        pods,
        events-record_all evs (new ops),
        events-record_all evs' (new ops),
        pods-record_all evs (new ops),
        pods-record_all evs' (new ops),
      )

-- ===== src/Agent/Reports.antt =====
-- What the loop of main.rs leaves in the exporters: the events of the engine, each handled once.
use network_l4_monitoring_co.Base.{
  ◌%◌, ◌^◌, ◌≡◌, refl, sym, ap, ◌∙◌, String, List, [], ◌∷◌, ◌++◌, map, Option, none, some, arith,
  length, length-append, if◌then◌else◌, subst,
}
use mathlib.Core.List.{append_assoc, append-nil, map-append}
use network_l4_monitoring_co.Base.Order.{string_ord, pair_ord}
use network_l4_monitoring_co.Base.BTreeMap.Counter.{increment, count_all, count_all-concat}
use network_l4_monitoring_co.Core.Float.{FloatOps, Fmt}
use network_l4_monitoring_co.Core.Types.{L4Event}
use network_l4_monitoring_co.Detect.Json.{kind_name, to_json}
use network_l4_monitoring_co.Export.Attribution.{PodMatcher}
use network_l4_monitoring_co.Export.JsonSink.{JsonSink, writes, emit}
use network_l4_monitoring_co.Export.Metrics.{label_of, when_pod, record_event}
use network_l4_monitoring_co.Export.Metrics.Counts.{labels, pod_labels, Attributed}
use network_l4_monitoring_co.Agent.{Agent, pod_of, handle_event, handle_events}

module _ {F : Type 0} where
  labels-append : (xs ys : List (Attributed F)) → labels (xs ++ ys) ≡ labels xs ++ labels ys
  labels-append [] ys = refl
  labels-append ((ev, pod) ∷ xs) ys = ap (λ l. label_of ev ∷ l) (labels-append xs ys)

  pod_labels-append :
      (xs ys : List (Attributed F)) → pod_labels (xs ++ ys) ≡ pod_labels xs ++ pod_labels ys
  pod_labels-append [] ys = refl
  pod_labels-append ((ev, none) ∷ xs) ys = pod_labels-append xs ys
  pod_labels-append ((ev, some ip) ∷ xs) ys =
      ap (λ l. (ip, label_of ev) ∷ l) (pod_labels-append xs ys)

  when_pod-count_all :
      (xs : List (Attributed F)) (ev : L4Event F) (pod : Option String)
      → when_pod (λ ip. increment (ip, label_of ev)) pod (count_all (pod_labels xs) [])
        ≡ count_all (pod_labels (xs ++ (ev, pod) ∷ [])) []
  when_pod-count_all xs ev none =
      ap (λ l. count_all l [])
        (sym (pod_labels-append xs ((ev, none) ∷ []) ∙ append-nil (pod_labels xs)))
  when_pod-count_all xs ev (some ip) =
      sym (count_all-concat (pod_labels xs) (ip, label_of ev) [])
      ∙ ap (λ l. count_all l []) (sym (pod_labels-append xs ((ev, some ip) ∷ [])))

module _ {F : Type 0} (ops : FloatOps F) (fmt : Fmt F) (pod_matcher : Option PodMatcher)
    (sink : JsonSink) where
  -- The events with their pods.
  abbrev pub attributed : List (L4Event F) → List (Attributed F)
  attributed = map (λ ev. (ev, pod_of ops fmt pod_matcher ev.key))

  -- The exporters have these events, from a new registry and the sink of the section.
  pub record Reports (evs : List (L4Event F)) (a : Agent F) : Type 0 where
    pub events_total : a.registry.events_total ≡ length evs % 2 ^ 64
    pub event_counts : a.registry.event_counts ≡ count_all (labels (attributed evs)) []
    pub pod_event_counts : a.registry.pod_event_counts ≡ count_all (pod_labels (attributed evs)) []
    pub summary : a.summary ≡ count_all (map (λ ev. kind_name ev.kind) evs) []
    pub target : a.json_sink.target ≡ sink.target
    pub written :
        a.json_sink.written
        ≡ sink.written ++ (if writes sink.target then map (to_json fmt) evs else [])

  handle_event-Reports :
      (evs : List (L4Event F)) (ev : L4Event F) (a : Agent F)
      → Reports evs a
      → Reports (evs ++ ev ∷ []) (handle_event ops fmt pod_matcher ev a)
  unfolding handle_event record_event emit
  handle_event-Reports evs ev a h =
      let now = attributed (ev ∷ []) in
      let all : attributed (evs ++ ev ∷ []) ≡ attributed evs ++ now =
        map-append (λ e. (e, pod_of ops fmt pod_matcher e.key)) evs (ev ∷ []) in
      record {
        events_total = omega (arith, h.events_total, length-append evs (ev ∷ []));
        event_counts =
            ap (increment (label_of ev)) h.event_counts
            ∙ sym (count_all-concat (labels (attributed evs)) (label_of ev) [])
            ∙ ap (λ l. count_all l []) (sym (ap labels all ∙ labels-append (attributed evs) now));
        pod_event_counts =
            ap (when_pod (λ ip. increment (ip, label_of ev)) (pod_of ops fmt pod_matcher ev.key))
              h.pod_event_counts
            ∙ when_pod-count_all (attributed evs) ev (pod_of ops fmt pod_matcher ev.key)
            ∙ ap (λ l. count_all (pod_labels l) []) (sym all);
        summary =
            ap (increment (kind_name ev.kind)) h.summary
            ∙ sym (count_all-concat (map (λ e. kind_name e.kind) evs) (kind_name ev.kind) [])
            ∙ ap (λ l. count_all l []) (sym (map-append (λ e. kind_name e.kind) evs (ev ∷ [])));
        target = ground (arith, h.target);
        written = ground (
          arith,
          h.target,
          h.written,
          map-append (to_json fmt) evs (ev ∷ []),
          append_assoc sink.written (map (to_json fmt) evs) (to_json fmt ev ∷ []),
        );
      }

  pub handle_events-Reports :
      (evs out : List (L4Event F)) (a : Agent F)
      → Reports evs a
      → Reports (evs ++ out) (handle_events ops fmt pod_matcher out a)
  unfolding handle_events
  handle_events-Reports evs [] a h = subst (λ l. Reports l a) (sym (append-nil evs)) h
  handle_events-Reports evs (ev ∷ out) a h =
      subst
        (λ l.
          Reports l (handle_events ops fmt pod_matcher out (handle_event ops fmt pod_matcher ev a)))
        (append_assoc evs (ev ∷ []) out)
        (handle_events-Reports (evs ++ ev ∷ []) out (handle_event ops fmt pod_matcher ev a)
          (handle_event-Reports evs ev a h))

-- ===== src/Core/Config/Accepted.antt =====
-- The parser of config.rs rejects what it does not know, and says on which line.
use text.Mathlib.Text.{◌==◌ as str_eq}
use network_l4_monitoring_co.Base.{
  ◌≡◌, refl, subst, String, Bool, true, false, ◌||◌, List, [], ◌∷◌, Option, if◌then◌else◌, arith,
  Bool-cases, inl, inr,
}
use network_l4_monitoring_co.Core.Error.{Error, Result, ok, err, ◌>>=◌}
use network_l4_monitoring_co.Core.Float.{FloatOps, Fmt}
use network_l4_monitoring_co.Core.Config.{Config}
use network_l4_monitoring_co.Core.Config.Parse.{
  unquote, parse_backend, parse_bool, parse_u32, parse_u64, parse_f64, unknown_key, apply_capture,
  apply_detect, apply_export, apply_otlp, apply,
}

abbrev pub listed : String → List String → Bool
listed key [] = false
listed key (k ∷ keys) = str_eq key k || listed key keys

-- The keys of a section, as the configuration has its fields.
abbrev pub keys_of : String → List String
keys_of section =
    if str_eq section "capture"
    then "backend" ∷ "interface" ∷ "filter" ∷ "pcap_path" ∷ "live_command" ∷ []
    else if str_eq section "detect"
    then "flow_ttl_secs" ∷ "retransmit_ratio_warn" ∷ "dup_ack_threshold" ∷ "rst_storm_per_sec"
      ∷ "syn_backlog_threshold" ∷ "rtt_warn_ms" ∷ "handshake_timeout_secs" ∷ "churn_per_sec"
      ∷ "alert_debounce_secs" ∷ []
    else if str_eq section "export"
    then "prometheus_addr" ∷ "json_events" ∷ []
    else if str_eq section "otlp"
    then "enabled" ∷ "endpoint" ∷ "path" ∷ "interval_secs" ∷ "headers" ∷ "resource_attributes"
      ∷ "service_name" ∷ "pod_cidrs" ∷ "pod_attribution" ∷ []
    else []

-- Where the result is `ok`, its value has the property.
data EveryOk {E A : Type 0} (P : A → Type 0) : Result E A → Type 0 where
  of_ok : (a : A) → P a → EveryOk P (ok a)
  of_err : (e : Error E) → EveryOk P (err e)

module _ {E A : Type 0} {P : A → Type 0} where
  EveryOk-if :
      (b : Bool) {x y : Result E A} → EveryOk P x → EveryOk P y → EveryOk P (if b then x else y)
  EveryOk-if true hx hy = hx
  EveryOk-if false hx hy = hy

  EveryOk-bind :
      {B : Type 0} (r : Result E B) {f : B → Result E A}
      → ((b : B) → EveryOk P (f b))
      → EveryOk P (r >>= f)
  EveryOk-bind (ok b) h = h b
  EveryOk-bind (err e) h = of_err e

  EveryOk-elim : {r : Result E A} → EveryOk P r → (a : A) → r ≡ ok a → P a
  EveryOk-elim (of_ok b p) a h = subst P (cc) p
  EveryOk-elim (of_err e) a h = absurd (cc)

-- What a setting does: its key is one of the section's, and the other sections stay as they are.
pub record Sets {F : Type 0} (section key : String) (cfg cfg' : Config F) : Type 0 where
  pub known : listed key (keys_of section) ≡ true
  pub capture : str_eq section "capture" ≡ false → cfg'.capture ≡ cfg.capture
  pub detect : str_eq section "detect" ≡ false → cfg'.detect ≡ cfg.detect
  pub export : str_eq section "export" ≡ false → cfg'.export ≡ cfg.export
  pub otlp : str_eq section "otlp" ≡ false → cfg'.otlp ≡ cfg.otlp

module _ {E F : Type 0} (ops : FloatOps F) (fmt : Fmt F) (read_f64 : String → Option F) where
  capture_only :
      (cfg : Config F) (key val : String)
      → EveryOk
          (λ (c : Config F).
            (c.detect ≡ cfg.detect) × (c.export ≡ cfg.export) × (c.otlp ≡ cfg.otlp))
          (apply_capture {E = E} ops fmt read_f64 cfg key val)
  unfolding apply_capture unknown_key
  capture_only cfg key val =
      EveryOk-if (str_eq key "backend")
        (EveryOk-bind (parse_backend (unquote val)) (λ n. of_ok _ (refl, refl, refl)))
        (EveryOk-if (str_eq key "interface") (of_ok _ (refl, refl, refl)) (
          EveryOk-if (str_eq key "filter") (of_ok _ (refl, refl, refl)) (
            EveryOk-if (str_eq key "pcap_path") (of_ok _ (refl, refl, refl))
              (EveryOk-if (str_eq key "live_command") (of_ok _ (refl, refl, refl)) (of_err _)))))

  capture_known :
      (cfg cfg' : Config F) (key val : String)
      → apply_capture {E = E} ops fmt read_f64 cfg key val ≡ ok cfg'
      → listed key (keys_of "capture") ≡ true
  unfolding apply_capture unknown_key
  capture_known cfg cfg' key val h = ground arith

  detect_only :
      (cfg : Config F) (key val : String)
      → EveryOk
          (λ (c : Config F).
            (c.capture ≡ cfg.capture) × (c.export ≡ cfg.export) × (c.otlp ≡ cfg.otlp))
          (apply_detect {E = E} ops fmt read_f64 cfg key val)
  unfolding apply_detect unknown_key
  detect_only cfg key val =
      EveryOk-if (str_eq key "flow_ttl_secs")
        (EveryOk-bind (parse_u64 val) (λ n. of_ok _ (refl, refl, refl)))
        (EveryOk-if (str_eq key "retransmit_ratio_warn")
          (EveryOk-bind (parse_f64 read_f64 val) (λ n. of_ok _ (refl, refl, refl)))
          (EveryOk-if (str_eq key "dup_ack_threshold")
            (EveryOk-bind (parse_u32 val) (λ n. of_ok _ (refl, refl, refl)))
            (EveryOk-if (str_eq key "rst_storm_per_sec")
              (EveryOk-bind (parse_f64 read_f64 val) (λ n. of_ok _ (refl, refl, refl)))
              (EveryOk-if (str_eq key "syn_backlog_threshold")
                (EveryOk-bind (parse_u32 val) (λ n. of_ok _ (refl, refl, refl)))
                (EveryOk-if (str_eq key "rtt_warn_ms")
                  (EveryOk-bind (parse_f64 read_f64 val) (λ n. of_ok _ (refl, refl, refl)))
                  (EveryOk-if (str_eq key "handshake_timeout_secs")
                    (EveryOk-bind (parse_u64 val) (λ n. of_ok _ (refl, refl, refl)))
                    (EveryOk-if (str_eq key "churn_per_sec")
                      (EveryOk-bind (parse_f64 read_f64 val) (λ n. of_ok _ (refl, refl, refl)))
                      (EveryOk-if (str_eq key "alert_debounce_secs")
                        (EveryOk-bind (parse_u64 val) (λ n. of_ok _ (refl, refl, refl)))
                        (of_err _)))))))))

  detect_known :
      (cfg cfg' : Config F) (key val : String)
      → apply_detect {E = E} ops fmt read_f64 cfg key val ≡ ok cfg'
      → listed key (keys_of "detect") ≡ true
  unfolding apply_detect unknown_key
  detect_known cfg cfg' key val h = ground arith

  export_only :
      (cfg : Config F) (key val : String)
      → EveryOk
          (λ (c : Config F).
            (c.capture ≡ cfg.capture) × (c.detect ≡ cfg.detect) × (c.otlp ≡ cfg.otlp))
          (apply_export {E = E} ops fmt read_f64 cfg key val)
  unfolding apply_export unknown_key
  export_only cfg key val =
      EveryOk-if (str_eq key "prometheus_addr") (of_ok _ (refl, refl, refl))
        (EveryOk-if (str_eq key "json_events") (of_ok _ (refl, refl, refl)) (of_err _))

  export_known :
      (cfg cfg' : Config F) (key val : String)
      → apply_export {E = E} ops fmt read_f64 cfg key val ≡ ok cfg'
      → listed key (keys_of "export") ≡ true
  unfolding apply_export unknown_key
  export_known cfg cfg' key val h = ground arith

  otlp_only :
      (cfg : Config F) (key val : String)
      → EveryOk
          (λ (c : Config F).
            (c.capture ≡ cfg.capture) × (c.detect ≡ cfg.detect) × (c.export ≡ cfg.export))
          (apply_otlp {E = E} ops fmt read_f64 cfg key val)
  unfolding apply_otlp unknown_key
  otlp_only cfg key val =
      EveryOk-if (str_eq key "enabled")
        (EveryOk-bind (parse_bool (unquote val)) (λ n. of_ok _ (refl, refl, refl)))
        (EveryOk-if (str_eq key "endpoint") (of_ok _ (refl, refl, refl)) (
          EveryOk-if (str_eq key "path") (of_ok _ (refl, refl, refl)) (
            EveryOk-if (str_eq key "interval_secs")
              (EveryOk-bind (parse_u64 val) (λ n. of_ok _ (refl, refl, refl)))
              (EveryOk-if (str_eq key "headers") (of_ok _ (refl, refl, refl)) (
                EveryOk-if (str_eq key "resource_attributes") (of_ok _ (refl, refl, refl)) (
                  EveryOk-if (str_eq key "service_name") (of_ok _ (refl, refl, refl)) (
                    EveryOk-if (str_eq key "pod_cidrs") (of_ok _ (refl, refl, refl)) (
                      EveryOk-if (str_eq key "pod_attribution")
                        (EveryOk-bind (parse_bool (unquote val)) (λ n. of_ok _ (refl, refl, refl)))
                        (of_err _)))))))))

  otlp_known :
      (cfg cfg' : Config F) (key val : String)
      → apply_otlp {E = E} ops fmt read_f64 cfg key val ≡ ok cfg'
      → listed key (keys_of "otlp") ≡ true
  unfolding apply_otlp unknown_key
  otlp_known cfg cfg' key val h = ground arith

  pub apply-Sets :
      (cfg cfg' : Config F) (section key val : String)
      → apply {E = E} ops fmt read_f64 cfg section key val ≡ ok cfg'
      → Sets section key cfg cfg'
  unfolding apply unknown_key
  apply-Sets cfg cfg' section key val h = elim (Bool-cases (str_eq section "capture")) [
    | inl is_capture ↦
        let run : apply_capture {E = E} ops fmt read_f64 cfg key val ≡ ok cfg' = ground arith in
        let (a, b, c) = EveryOk-elim (capture_only cfg key val) cfg' run in
        record {
          known = rw is_capture (capture_known cfg cfg' key val run);
          capture = λ e. absurd (cc);
          detect = λ e. a;
          export = λ e. b;
          otlp = λ e. c;
        }
    | inr not_capture ↦ elim (Bool-cases (str_eq section "detect")) [
      | inl is_detect ↦
          let run : apply_detect {E = E} ops fmt read_f64 cfg key val ≡ ok cfg' = ground arith in
          let (a, b, c) = EveryOk-elim (detect_only cfg key val) cfg' run in
          record {
            known = rw not_capture (rw is_detect (detect_known cfg cfg' key val run));
            capture = λ e. a;
            detect = λ e. absurd (cc);
            export = λ e. b;
            otlp = λ e. c;
          }
      | inr not_detect ↦ elim (Bool-cases (str_eq section "export")) [
        | inl is_export ↦
            let run : apply_export {E = E} ops fmt read_f64 cfg key val ≡ ok cfg' = ground arith in
            let (a, b, c) = EveryOk-elim (export_only cfg key val) cfg' run in
            record {
              known =
                  rw not_capture (rw not_detect (rw is_export (export_known cfg cfg' key val run)));
              capture = λ e. a;
              detect = λ e. b;
              export = λ e. absurd (cc);
              otlp = λ e. c;
            }
        | inr not_export ↦ elim (Bool-cases (str_eq section "otlp")) [
          | inl is_otlp ↦
              let run : apply_otlp {E = E} ops fmt read_f64 cfg key val ≡ ok cfg' = ground arith in
              let (a, b, c) = EveryOk-elim (otlp_only cfg key val) cfg' run in
              record {
                known =
                    rw not_capture (
                      rw not_detect (rw not_export (rw is_otlp (otlp_known cfg cfg' key val run))));
                capture = λ e. a;
                detect = λ e. b;
                export = λ e. c;
                otlp = λ e. absurd (cc);
              }
          | inr not_otlp ↦ absurd (ground arith)
        ]
      ]
    ]
  ]

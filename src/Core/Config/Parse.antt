-- ===== src/Core/Config/Parse.antt =====
-- l4scope/crates/l4scope-core/src/config.rs: the parser of the configuration file, from its text.
use Prim.Native.Nat.{◌+◌}
use Prim.Native.String.{◌++◌}
use text.Mathlib.Text.{◌==◌ as str_eq}
use network_l4_monitoring_co.Base.{
  ℕ, ◌-◌, ◌^◌, String, Bool, true, false, ◌||◌, List, [], ◌∷◌, Option, none, some, if◌then◌else◌,
}
use network_l4_monitoring_co.Base.Text.{
  is_empty, trim, split_once, lines, strip_prefix, strip_suffix, parse_uint,
}
use network_l4_monitoring_co.Core.Error.{config, show_error, Result, ok, err, ◌>>=◌}
use network_l4_monitoring_co.Core.Float.{FloatOps, Fmt}
use network_l4_monitoring_co.Core.Config.{
  Backend, pcap_file, synthetic, live, ebpf, etw, Config, default,
}

-- `Backend::parse`
unfoldable pub parse_backend : {E : Type 0} → String → Result E Backend
parse_backend s =
    if str_eq s "pcap_file" || str_eq s "pcap"
    then ok pcap_file
    else if str_eq s "synthetic" || str_eq s "demo"
    then ok synthetic
    else if str_eq s "live" || str_eq s "tcpdump"
    then ok live
    else if str_eq s "ebpf"
    then ok ebpf
    else if str_eq s "etw"
    then ok etw
    else err (config ("unknown backend '" ++ s ++ "'"))

unfoldable pub strip_comment : String → String
strip_comment line = elim (split_once 35 line) [ none ↦ line | some (before, after) ↦ before ]

-- The text between two quotes, for a text of at least two bytes that starts and ends with one.
abbrev pub quoted : String → Option String
quoted v = elim (strip_prefix 34 v) [ none ↦ none | some s ↦ strip_suffix 34 s ]

unfoldable pub unquote : String → String
unquote text = let v = trim text in elim (quoted v) [ none ↦ v | some inner ↦ inner ]

unfoldable pub parse_bool : {E : Type 0} → String → Result E Bool
parse_bool v =
    if str_eq v "true"
    then ok true
    else if str_eq v "false"
    then ok false
    else err (config ("expected true/false, got '" ++ v ++ "'"))

-- The result of a number parser of the standard library, with the error of the caller.
abbrev pub expected : {E A : Type 0} → String → String → Option A → Result E A
expected what v none = err (config ("expected " ++ what ++ ", got '" ++ v ++ "'"))
expected what v (some n) = ok n

unfoldable pub parse_u64 : {E : Type 0} → String → Result E ℕ
parse_u64 v = expected "integer" v (parse_uint (2 ^ 64 - 1) v)

unfoldable pub parse_u32 : {E : Type 0} → String → Result E ℕ
parse_u32 v = expected "integer" v (parse_uint (2 ^ 32 - 1) v)

-- `read_f64` is `str::parse::<f64>`.
unfoldable pub parse_f64 : {E F : Type 0} → (String → Option F) → String → Result E F
parse_f64 read_f64 v = expected "number" v (read_f64 v)

-- The section that a header line names.
abbrev pub header : String → Option String
header line = elim (strip_prefix 91 line) [ none ↦ none | some s ↦ strip_suffix 93 s ]

module _ {E F : Type 0} (ops : FloatOps F) (fmt : Fmt F) (read_f64 : String → Option F) where
  unfoldable pub unknown_key : String → String → Result E (Config F)
  unknown_key section key = err (config ("unknown key '[" ++ section ++ "] " ++ key ++ "'"))

  -- The arms of `apply` for one section each.
  unfoldable pub apply_capture : Config F → String → String → Result E (Config F)
  unfolding unknown_key unquote
  apply_capture cfg key val =
      if str_eq key "backend"
      then (parse_backend (unquote val) >>= λ b.
          ok (record cfg { capture = record cfg.capture { backend = b } }))
      else if str_eq key "interface"
      then ok (record cfg { capture = record cfg.capture { interface = unquote val } })
      else if str_eq key "filter"
      then ok (record cfg { capture = record cfg.capture { filter = unquote val } })
      else if str_eq key "pcap_path"
      then ok (record cfg { capture = record cfg.capture { pcap_path = unquote val } })
      else if str_eq key "live_command"
      then ok (record cfg { capture = record cfg.capture { live_command = unquote val } })
      else unknown_key "capture" key

  unfoldable pub apply_detect : Config F → String → String → Result E (Config F)
  unfolding unknown_key
  apply_detect cfg key val =
      let d = cfg.detect in
      if str_eq key "flow_ttl_secs"
      then (parse_u64 val >>= λ n. ok (record cfg { detect = record d { flow_ttl_secs = n } }))
      else if str_eq key "retransmit_ratio_warn"
      then (parse_f64 read_f64 val >>= λ x.
          ok (record cfg { detect = record d { retransmit_ratio_warn = x } }))
      else if str_eq key "dup_ack_threshold"
      then (parse_u32 val >>= λ n. ok (record cfg { detect = record d { dup_ack_threshold = n } }))
      else if str_eq key "rst_storm_per_sec"
      then (parse_f64 read_f64 val >>= λ x.
          ok (record cfg { detect = record d { rst_storm_per_sec = x } }))
      else if str_eq key "syn_backlog_threshold"
      then (parse_u32 val >>= λ n.
          ok (record cfg { detect = record d { syn_backlog_threshold = n } }))
      else if str_eq key "rtt_warn_ms"
      then (parse_f64 read_f64 val >>= λ x.
          ok (record cfg { detect = record d { rtt_warn_ms = x } }))
      else if str_eq key "handshake_timeout_secs"
      then (parse_u64 val >>= λ n.
          ok (record cfg { detect = record d { handshake_timeout_secs = n } }))
      else if str_eq key "churn_per_sec"
      then (parse_f64 read_f64 val >>= λ x.
          ok (record cfg { detect = record d { churn_per_sec = x } }))
      else if str_eq key "alert_debounce_secs"
      then (parse_u64 val >>= λ n.
          ok (record cfg { detect = record d { alert_debounce_secs = n } }))
      else unknown_key "detect" key

  unfoldable pub apply_export : Config F → String → String → Result E (Config F)
  unfolding unknown_key unquote
  apply_export cfg key val =
      if str_eq key "prometheus_addr"
      then ok (record cfg { export = record cfg.export { prometheus_addr = unquote val } })
      else if str_eq key "json_events"
      then ok (record cfg { export = record cfg.export { json_events = unquote val } })
      else unknown_key "export" key

  unfoldable pub apply_otlp : Config F → String → String → Result E (Config F)
  unfolding unknown_key unquote
  apply_otlp cfg key val =
      let o = cfg.otlp in
      if str_eq key "enabled"
      then (parse_bool (unquote val) >>= λ b. ok (record cfg { otlp = record o { enabled = b } }))
      else if str_eq key "endpoint"
      then ok (record cfg { otlp = record o { endpoint = unquote val } })
      else if str_eq key "path"
      then ok (record cfg { otlp = record o { path = unquote val } })
      else if str_eq key "interval_secs"
      then (parse_u64 val >>= λ n. ok (record cfg { otlp = record o { interval_secs = n } }))
      else if str_eq key "headers"
      then ok (record cfg { otlp = record o { headers = unquote val } })
      else if str_eq key "resource_attributes"
      then ok (record cfg { otlp = record o { resource_attributes = unquote val } })
      else if str_eq key "service_name"
      then ok (record cfg { otlp = record o { service_name = unquote val } })
      else if str_eq key "pod_cidrs"
      then ok (record cfg { otlp = record o { pod_cidrs = unquote val } })
      else if str_eq key "pod_attribution"
      then (parse_bool (unquote val) >>= λ b.
          ok (record cfg { otlp = record o { pod_attribution = b } }))
      else unknown_key "otlp" key

  unfoldable pub apply : Config F → String → String → String → Result E (Config F)
  unfolding unknown_key apply_capture apply_detect apply_export apply_otlp
  apply cfg section key val =
      if str_eq section "capture"
      then apply_capture cfg key val
      else if str_eq section "detect"
      then apply_detect cfg key val
      else if str_eq section "export"
      then apply_export cfg key val
      else if str_eq section "otlp"
      then apply_otlp cfg key val
      else unknown_key section key

  -- `show_io` is the text of an `std::io::Error`.
  abbrev pub at_line : {A : Type 0} → (E → String) → ℕ → Result E A → Result E A
  at_line show_io n (ok a) = ok a
  at_line show_io n (err e) =
      err (config ("line " ++ fmt.show_nat n ++ ": " ++ show_error show_io e))

  -- A line that sets a key; `n` is its number from 1.
  unfoldable pub set_line : (E → String) → ℕ → String → String → Config F → Result E (Config F)
  unfolding apply
  set_line show_io n line section cfg = elim (split_once 61 line) [
    | none ↦ err (config ("line " ++ fmt.show_nat n ++ ": expected key = value"))
    | some (k, v) ↦ at_line show_io n (apply cfg section (trim k) (trim v))
  ]

  -- One turn of the loop, for line `n`: the section and the configuration after it.
  unfoldable pub take_line :
      (E → String) → ℕ → String → String → Config F → Result E (String × Config F)
  unfolding set_line strip_comment
  take_line show_io n raw section cfg =
      let line = trim (strip_comment raw) in
      elim (is_empty line) [
        | true ↦ ok (section, cfg)
        | false ↦ elim (header line) [
          | some sec ↦ ok (trim sec, cfg)
          | none ↦ set_line show_io n line section cfg >>= λ cfg'. ok (section, cfg')
        ]
      ]

  -- The loop, from line `n`.
  unfoldable pub parse_lines :
      (E → String) → ℕ → List String → String → Config F → Result E (Config F)
  unfolding take_line
  parse_lines show_io n [] section cfg = ok cfg
  parse_lines show_io n (raw ∷ raws) section cfg =
      take_line show_io n raw section cfg >>= λ (section', cfg').
      parse_lines show_io (n + 1) raws section' cfg'

  unfoldable pub from_str : (E → String) → String → Result E (Config F)
  unfolding parse_lines
  from_str show_io text = parse_lines show_io 1 (lines text) "" (default ops)

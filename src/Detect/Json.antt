-- ===== src/Detect/Json.antt =====
-- The rendering of an event in l4scope/crates/l4scope-core/src/types.rs: one line of JSON.
use Prim.Native.Char.{code}
use Prim.Native.String.{◌++◌}
use network_l4_monitoring_co.Base.{String, ◌==◌, if◌then◌else◌}
use network_l4_monitoring_co.Core.Float.{Fmt}
use network_l4_monitoring_co.Core.Types.{EventKind, Severity, L4Event}
use network_l4_monitoring_co.Detect.Detectors.Text.{protocol_name, show_endpoint}

unfoldable pub kind_name : EventKind → String
kind_name EventKind.retransmission = "retransmission"
kind_name EventKind.duplicate_ack = "duplicate_ack"
kind_name EventKind.out_of_order = "out_of_order"
kind_name EventKind.zero_window = "zero_window"
kind_name EventKind.rst_storm = "rst_storm"
kind_name EventKind.handshake_failure = "handshake_failure"
kind_name EventKind.handshake_timeout = "handshake_timeout"
kind_name EventKind.syn_backlog = "syn_backlog"
kind_name EventKind.high_rtt = "high_rtt"
kind_name EventKind.connection_churn = "connection_churn"

unfoldable pub severity_name : Severity → String
severity_name Severity.info = "info"
severity_name Severity.warning = "warning"
severity_name Severity.critical = "critical"

unfoldable pub json_escape : String → String
json_escape String.[] = ""
json_escape (String.◌∷◌ c s) =
    let rest = json_escape s in
    if code c == 34
    then "\\\"" ++ rest
    else if code c == 92
    then "\\\\" ++ rest
    else if code c == 10
    then "\\n" ++ rest
    else if code c == 9
    then "\\t" ++ rest
    else if code c == 13
    then "\\r" ++ rest
    else String.◌∷◌ c rest

module _ {F : Type 0} (fmt : Fmt F) where
  unfoldable pub to_json : L4Event F → String
  unfolding kind_name severity_name json_escape
  to_json ev =
      "{\"ts_ns\":"
      ++ fmt.show_nat ev.ts_nanos
      ++ ",\"kind\":\""
      ++ kind_name ev.kind
      ++ "\",\"severity\":\""
      ++ severity_name ev.severity
      ++ "\",\"proto\":\""
      ++ protocol_name ev.key.proto
      ++ "\",\"low\":\""
      ++ show_endpoint fmt ev.key.low
      ++ "\",\"high\":\""
      ++ show_endpoint fmt ev.key.high
      ++ "\",\"value\":"
      ++ fmt.show_f64 3 ev.value
      ++ ",\"detail\":\""
      ++ json_escape ev.detail
      ++ "\"}"

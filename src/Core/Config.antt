-- ===== src/Core/Config.antt =====
-- l4scope/crates/l4scope-core/src/config.rs: the configuration and its defaults; the parser of the
-- file format is in Config/Parse.
pub mod Parse
pub mod Accepted
pub mod Lines
pub mod Rejected
use network_l4_monitoring_co.Base.{ℕ, String, Bool, false}
use network_l4_monitoring_co.Core.Float.{FloatOps}

pub data Backend : Type 0 where
  pcap_file synthetic live ebpf etw : Backend

pub record CaptureConfig : Type 0 where
  pub backend : Backend
  pub interface : String
  pub filter : String
  pub pcap_path : String
  pub live_command : String

pub record DetectConfig (F : Type 0) : Type 0 where
  pub flow_ttl_secs : ℕ
  pub retransmit_ratio_warn : F
  pub dup_ack_threshold : ℕ
  pub rst_storm_per_sec : F
  pub syn_backlog_threshold : ℕ
  pub rtt_warn_ms : F
  pub handshake_timeout_secs : ℕ
  pub churn_per_sec : F
  pub alert_debounce_secs : ℕ

pub record ExportConfig : Type 0 where
  pub prometheus_addr : String
  pub json_events : String

pub record OtlpConfig : Type 0 where
  pub enabled : Bool
  pub endpoint : String
  pub path : String
  pub interval_secs : ℕ
  pub headers : String
  pub resource_attributes : String
  pub service_name : String
  pub pod_cidrs : String
  pub pod_attribution : Bool

pub record Config (F : Type 0) : Type 0 where
  pub capture : CaptureConfig
  pub detect : DetectConfig F
  pub export : ExportConfig
  pub otlp : OtlpConfig

-- `Config::default()`; the literal `0.05` is the quotient 5 / 100, which rounds to the same float.
unfoldable pub default : {F : Type 0} → FloatOps F → Config F
default ops = record {
  capture = record {
    backend = synthetic;
    interface = "";
    filter = "tcp or udp";
    pcap_path = "";
    live_command = "";
  };
  detect = record {
    flow_ttl_secs = 120;
    retransmit_ratio_warn = ops.div (ops.from_u64 5) (ops.from_u64 100);
    dup_ack_threshold = 3;
    rst_storm_per_sec = ops.from_u64 20;
    syn_backlog_threshold = 64;
    rtt_warn_ms = ops.from_u64 250;
    handshake_timeout_secs = 3;
    churn_per_sec = ops.from_u64 200;
    alert_debounce_secs = 10;
  };
  export = record { prometheus_addr = "127.0.0.1:9560"; json_events = "stdout" };
  otlp = record {
    enabled = false;
    endpoint = "http://localhost:4318";
    path = "/v1/metrics";
    interval_secs = 15;
    headers = "";
    resource_attributes = "";
    service_name = "l4scope";
    pod_cidrs = "";
    pod_attribution = false;
  };
}

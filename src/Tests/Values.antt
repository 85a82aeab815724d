-- ===== src/Tests/Values.antt =====
-- Concrete packets, flows and engines. The floats are natural numbers here and the formats are
-- empty texts, which shows that the parameters of the model can be met.
use network_l4_monitoring_co.Base.{ℕ, ◌*◌, ◌/◌, true, false, none, some, [], ◌∷◌, ltb, leb}
use network_l4_monitoring_co.Core.Float.{FloatOps, Fmt}
use network_l4_monitoring_co.Core.Config.{DetectConfig}
use network_l4_monitoring_co.Core.Types.{
  tcp, v4, Endpoint, FlowKey, Direction, forward, reverse, PacketMeta,
}
use network_l4_monitoring_co.Detect.Flow.{FlowState, TcpState, both, EngineState}
use network_l4_monitoring_co.Detect.Engine.{Engine}
use network_l4_monitoring_co.Detect.Window.{RollingRate}

abbrev pub ops : FloatOps ℕ
ops = record {
  from_u64 = λ n. n;
  div = λ a b. a / b;
  mul = λ a b. a * b;
  lt = ltb;
  ge = λ a b. leb b a;
}

abbrev pub fmt : Fmt ℕ
fmt = record {
  show_nat = λ n. "";
  show_ip = λ a. "";
  show_f64 = λ n x. "";
  show_plain_f64 = λ x. "";
  show_hex = λ n. "";
}

-- The defaults of config.rs, with integral thresholds.
abbrev pub cfg : DetectConfig ℕ
cfg = record {
  flow_ttl_secs = 120;
  retransmit_ratio_warn = 1;
  dup_ack_threshold = 3;
  rst_storm_per_sec = 20;
  syn_backlog_threshold = 64;
  rtt_warn_ms = 250;
  handshake_timeout_secs = 3;
  churn_per_sec = 200;
  alert_debounce_secs = 10;
}

abbrev pub client : Endpoint
client = record { ip = v4 0x0a000001; port = 5000 }

abbrev pub server : Endpoint
server = record { ip = v4 0x0a000002; port = 80 }

abbrev pub key : FlowKey
key = record { low = client; high = server; proto = tcp }

abbrev pub packet_of : ℕ → Direction → ℕ → ℕ → ℕ → ℕ → PacketMeta
packet_of ts dir flags seq ack payload_len = record {
  ts_nanos = ts;
  key = key;
  dir = dir;
  proto = tcp;
  flags = record { bits = flags };
  seq = seq;
  ack_no = ack;
  window = 64240;
  payload_len = payload_len;
  ttl = 64;
  iface = 0;
}

abbrev pub syn_packet : PacketMeta
syn_packet = packet_of 5 forward 0x02 100 0 0

-- Of another conversation, with the ports exchanged.
abbrev pub other_packet : PacketMeta
other_packet = record syn_packet {
  key = record { low = server; high = client; proto = tcp };
  ts_nanos = 6;
}

abbrev pub syn_ack_packet : PacketMeta
syn_ack_packet = packet_of 17 reverse 0x12 900 101 0

abbrev pub ack_packet : PacketMeta
ack_packet = packet_of 20 forward 0x10 101 901 0

abbrev pub data_packet : PacketMeta
data_packet = packet_of 30 forward 0x18 101 901 200

-- A flow whose SYN of time 5 is unanswered.
abbrev pub waiting_flow : FlowState
waiting_flow = record {
  proto = tcp;
  state = TcpState.syn_sent;
  first_seen_ns = 5;
  last_seen_ns = 5;
  syn_time_ns = some 5;
  synack_time_ns = none;
  rtt_ns = none;
  was_established = false;
  handshake_timeout_flagged = false;
  half_open_counted = true;
  service = server;
  next_seq = record { fwd = some 101; rev = none };
  last_ack = record { fwd = some 901; rev = none };
  dup_ack_count = both 0;
  zero_window = both false;
  retransmits = 0;
  data_segments = 0;
}

abbrev pub no_events : RollingRate
no_events = record { window_secs = 1; buckets = 0 ∷ []; epoch = 0 ∷ [] }

abbrev pub one_flow : EngineState ℕ
one_flow = record {
  cfg = cfg;
  flows = (key, waiting_flow) ∷ [];
  globals = record {
    rst_rate = no_events;
    new_flow_rate = no_events;
    half_open = (server, 1) ∷ [];
  };
}

abbrev pub engine : Engine ℕ
engine = record {
  state = one_flow;
  detectors = [];
  last_sweep_ns = 0;
  sweep_interval_ns = 1_000_000_000;
}

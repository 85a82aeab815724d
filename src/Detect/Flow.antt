-- ===== src/Detect/Flow.antt =====
-- l4scope/crates/l4scope-detect/src/flow.rs: the per-flow state, the host-wide signals and the
-- tables. What a packet does to them is in `Flow/Update`.
pub mod Seq
pub mod Checks
pub mod Update
pub mod HalfOpen
pub mod Invariant
pub mod Segments
pub mod DupAcks
pub mod HandshakeSteps
pub mod Handshake
use network_l4_monitoring_co.Base.{
  ℕ, Bool, true, false, Option, none, some, List, [], ◌∷◌, ◌&&◌, ◌==◌, leb, ltb, if◌then◌else◌, ◌+◌,
  ◌-◌, unwrap_or, wrapping_add32,
}
use network_l4_monitoring_co.Base.HashMap
use network_l4_monitoring_co.Base.HashMap.{HashMap}
use network_l4_monitoring_co.Core.Types.{
  Protocol, Endpoint, FlowKey, Endpoint-discrete, FlowKey-discrete, PacketMeta, forward, reverse,
  Direction, is_tcp, is_syn_only,
}
use network_l4_monitoring_co.Core.Float.{FloatOps}
use network_l4_monitoring_co.Core.Config.{DetectConfig}
use network_l4_monitoring_co.Detect.Window.{RollingRate}
use network_l4_monitoring_co.Detect.Window
use Prim.Native.Nat.{max}

pub data TcpState : Type 0 where
  new syn_sent syn_ack_seen established closing reset : TcpState

abbrev pub is_syn_sent : TcpState → Bool
is_syn_sent TcpState.syn_sent = true
is_syn_sent _ = false

-- An array of two that a direction indexes.
pub record Sides (A : Type 0) : Type 0 where
  pub fwd : A
  pub rev : A

-- `Direction::index` selects the side.
abbrev pub at : {A : Type 0} → Direction → Sides A → A
at forward s = s.fwd
at reverse s = s.rev

abbrev pub put : {A : Type 0} → Direction → A → Sides A → Sides A
put forward a s = record s { fwd = a }
put reverse a s = record s { rev = a }

abbrev pub both : {A : Type 0} → A → Sides A
both a = record { fwd = a; rev = a }

pub record FlowState : Type 0 where
  pub proto : Protocol
  pub state : TcpState
  pub first_seen_ns : ℕ
  pub last_seen_ns : ℕ
  pub syn_time_ns : Option ℕ
  pub synack_time_ns : Option ℕ
  pub rtt_ns : Option ℕ
  pub was_established : Bool
  pub handshake_timeout_flagged : Bool
  pub half_open_counted : Bool
  pub service : Endpoint
  pub next_seq : Sides (Option ℕ)
  pub last_ack : Sides (Option ℕ)
  pub dup_ack_count : Sides ℕ
  pub zero_window : Sides Bool
  pub retransmits : ℕ
  pub data_segments : ℕ

unfoldable pub new_flow_state : Protocol → ℕ → Endpoint → FlowState
new_flow_state proto now service = record {
  proto = proto;
  state = TcpState.new;
  first_seen_ns = now;
  last_seen_ns = now;
  syn_time_ns = none;
  synack_time_ns = none;
  rtt_ns = none;
  was_established = false;
  handshake_timeout_flagged = false;
  half_open_counted = false;
  service = service;
  next_seq = both none;
  last_ack = both none;
  dup_ack_count = both 0;
  zero_window = both false;
  retransmits = 0;
  data_segments = 0;
}

unfoldable pub retransmit_ratio : {F : Type 0} → FloatOps F → FlowState → F
retransmit_ratio ops f =
    if f.data_segments == 0
    then ops.from_u64 0
    else ops.div (ops.from_u64 f.retransmits) (ops.from_u64 f.data_segments)

pub record PacketDelta : Type 0 where
  pub new_flow : Bool
  pub is_retransmit : Bool
  pub is_out_of_order : Bool
  pub is_dup_ack : Bool
  pub dup_ack_count : ℕ
  pub zero_window_edge : Bool
  pub rtt_sample_ns : Option ℕ
  pub handshake_refused : Bool
  pub established_now : Bool
  pub rst_seen : Bool
  pub service : Option Endpoint

-- `PacketDelta::default()`.
abbrev pub no_delta : PacketDelta
no_delta = record {
  new_flow = false;
  is_retransmit = false;
  is_out_of_order = false;
  is_dup_ack = false;
  dup_ack_count = 0;
  zero_window_edge = false;
  rtt_sample_ns = none;
  handshake_refused = false;
  established_now = false;
  rst_seen = false;
  service = none;
}

pub record Globals : Type 0 where
  pub rst_rate : RollingRate
  pub new_flow_rate : RollingRate
  pub half_open : HashMap Endpoint ℕ

unfoldable pub new_globals : Globals
new_globals = record { rst_rate = Window.new 1; new_flow_rate = Window.new 1; half_open = [] }

unfoldable pub half_open_for : Globals → Endpoint → ℕ
half_open_for g ep = unwrap_or (HashMap.get Endpoint-discrete ep g.half_open) 0

-- `values().max().unwrap_or(0)`.
unfoldable pub max_value : HashMap Endpoint ℕ → ℕ
max_value [] = 0
max_value ((ep, n) ∷ m) = max n (max_value m)

unfoldable pub half_open_max : Globals → ℕ
unfolding max_value
half_open_max g = max_value g.half_open

pub record EngineState (F : Type 0) : Type 0 where
  pub cfg : DetectConfig F
  pub flows : HashMap FlowKey FlowState
  pub globals : Globals

-- The flow of a key.
abbrev pub flow_at : {F : Type 0} → FlowKey → EngineState F → Option FlowState
flow_at k s = HashMap.get FlowKey-discrete k s.flows

unfoldable pub new_state : {F : Type 0} → DetectConfig F → EngineState F
unfolding new_globals
new_state cfg = record { cfg = cfg; flows = []; globals = new_globals }

-- `*half_open.entry(ep).or_insert(0) += 1`.
unfoldable pub count_half_open : Endpoint → Globals → Globals
count_half_open ep g = record g {
  half_open =
      HashMap.insert Endpoint-discrete ep
        (wrapping_add32 (unwrap_or (HashMap.get Endpoint-discrete ep g.half_open) 0) 1) g.half_open;
}

-- `if let Some(c) = half_open.get_mut(&ep) { *c = c.saturating_sub(1); }`.
unfoldable pub uncount_half_open : Endpoint → Globals → Globals
uncount_half_open ep g = elim (HashMap.get Endpoint-discrete ep g.half_open) [
  | none ↦ g
  | some c ↦ record g { half_open = HashMap.insert Endpoint-discrete ep (c - 1) g.half_open }
]

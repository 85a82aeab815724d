-- ===== src/Core/Types.antt =====
-- l4scope/crates/l4scope-core/src/types.rs: the normalized data model.
pub mod Canonical
use network_l4_monitoring_co.Base.{
  ℕ, String, Bool, true, false, not, ◌&&◌, ltb, leb, ◌==◌, if◌then◌else◌, bit_and, ℕ_discrete,
}

pub data Protocol : Type 0 where
  tcp udp : Protocol

abbrev pub is_tcp : Protocol → Bool
is_tcp tcp = true
is_tcp udp = false

-- `std::net::IpAddr`; an address is the number that its octets spell, big-endian, so the
-- octet-wise order of the standard library is the order of the numbers.
pub data IpAddr : Type 0 where
  v4 v6 : ℕ → IpAddr

pub record Endpoint : Type 0 where
  pub ip : IpAddr
  pub port : ℕ

pub data Direction : Type 0 where
  forward reverse : Direction

pub record FlowKey : Type 0 where
  pub low : Endpoint
  pub high : Endpoint
  pub proto : Protocol

-- The derived `PartialEq` of the types that key the hash maps.
unfoldable pub Endpoint-discrete : Discrete Endpoint
Endpoint-discrete = hlevel ℕ_discrete

unfoldable pub FlowKey-discrete : Discrete FlowKey
FlowKey-discrete = hlevel ℕ_discrete

-- The derived order: constructors in the order of their declaration, fields lexicographically.
abbrev pub ip_lt : IpAddr → IpAddr → Bool
ip_lt (v4 a) (v4 b) = ltb a b
ip_lt (v4 a) (v6 b) = true
ip_lt (v6 a) (v4 b) = false
ip_lt (v6 a) (v6 b) = ltb a b

-- `a <= b` on endpoints.
unfoldable pub endpoint_le : Endpoint → Endpoint → Bool
endpoint_le a b =
    if ip_lt a.ip b.ip then true else if ip_lt b.ip a.ip then false else leb a.port b.port

unfoldable pub canonical : Endpoint → Endpoint → Protocol → FlowKey × Direction
unfolding endpoint_le
canonical src dst proto =
    if endpoint_le src dst
    then (record { low = src; high = dst; proto = proto }, forward)
    else (record { low = dst; high = src; proto = proto }, reverse)

pub record TcpFlags : Type 0 where
  pub bits : ℕ

abbrev pub fin_bit : ℕ
fin_bit = 0x01

abbrev pub syn_bit : ℕ
syn_bit = 0x02

abbrev pub rst_bit : ℕ
rst_bit = 0x04

abbrev pub ack_bit : ℕ
ack_bit = 0x10

unfoldable pub has : TcpFlags → ℕ → Bool
has f bit = not (bit_and f.bits bit == 0)

abbrev pub syn : TcpFlags → Bool
syn f = has f syn_bit

abbrev pub ack : TcpFlags → Bool
ack f = has f ack_bit

abbrev pub fin : TcpFlags → Bool
fin f = has f fin_bit

abbrev pub rst : TcpFlags → Bool
rst f = has f rst_bit

-- A bare SYN: a connection request.
abbrev pub is_syn_only : TcpFlags → Bool
is_syn_only f = syn f && not (ack f)

abbrev pub is_syn_ack : TcpFlags → Bool
is_syn_ack f = syn f && ack f

pub record PacketMeta : Type 0 where
  pub ts_nanos : ℕ
  pub key : FlowKey
  pub dir : Direction
  pub proto : Protocol
  pub flags : TcpFlags
  pub seq : ℕ
  pub ack_no : ℕ
  pub window : ℕ
  pub payload_len : ℕ
  pub ttl : ℕ
  pub iface : ℕ

pub data EventKind : Type 0 where
  retransmission duplicate_ack out_of_order zero_window rst_storm handshake_failure : EventKind
  handshake_timeout syn_backlog high_rtt connection_churn : EventKind

pub data Severity : Type 0 where
  info warning critical : Severity

pub record L4Event (F : Type 0) : Type 0 where
  pub ts_nanos : ℕ
  pub kind : EventKind
  pub severity : Severity
  pub key : FlowKey
  pub value : F
  pub detail : String

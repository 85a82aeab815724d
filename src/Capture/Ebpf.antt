-- ===== src/Capture/Ebpf.antt =====
-- l4scope/crates/l4scope-capture/src/ebpf.rs: the records of the kernel program. Loading and attaching
-- the program are input and output; the ring buffer is a script of what its reads find.
pub mod Directions
use network_l4_monitoring_co.Base.{
  ℕ, ◌+◌, ◌*◌, ◌^◌, List, [], ◌∷◌, Option, none, some, get_or, length, leb, ◌==◌, if◌then◌else◌,
  wrapping_add64,
}
use network_l4_monitoring_co.Core.Error.{Error, io, Result, ok, err}
use network_l4_monitoring_co.Core.Types.{
  Protocol, tcp, udp, IpAddr, v4, v6, Endpoint, canonical, PacketMeta,
}

pub record BpfL4Event : Type 0 where
  pub ts_nanos : ℕ
  pub saddr : List ℕ
  pub daddr : List ℕ
  pub sport : ℕ
  pub dport : ℕ
  pub seq : ℕ
  pub ack_no : ℕ
  pub window : ℕ
  pub payload_len : ℕ
  pub family : ℕ
  pub proto : ℕ
  pub flags : ℕ
  pub ttl : ℕ
  pub iface : ℕ

-- `std::mem::size_of::<BpfL4Event>()`: 68 bytes, padded to the alignment of a u64.
abbrev pub event_size : ℕ
event_size = 72

-- The number that octets spell, most significant first.
abbrev pub spelled : ℕ → List ℕ → ℕ
spelled acc [] = acc
spelled acc (b ∷ bs) = spelled (acc * 256 + b) bs

abbrev pub protocol_of : ℕ → Option Protocol
protocol_of n = if n == 6 then some tcp else if n == 17 then some udp else none

-- The address in an array of 16 bytes, of which IPv4 has the first four.
abbrev pub address_of : ℕ → List ℕ → Option IpAddr
address_of family a =
    if family == 4
    then some (v4 (spelled 0 (get_or a 0 0 ∷ get_or a 1 0 ∷ get_or a 2 0 ∷ get_or a 3 0 ∷ [])))
    else if family == 6
    then some (v6 (spelled 0 a))
    else none

abbrev pub decoded : ℕ → BpfL4Event → Protocol → IpAddr → IpAddr → PacketMeta
decoded wall_offset_ns ev proto src_ip dst_ip =
    let (key, dir) =
      canonical (record { ip = src_ip; port = ev.sport }) (record { ip = dst_ip; port = ev.dport })
        proto in
    record {
      ts_nanos = wrapping_add64 wall_offset_ns ev.ts_nanos;
      key = key;
      dir = dir;
      proto = proto;
      flags = record { bits = ev.flags };
      seq = ev.seq;
      ack_no = ev.ack_no;
      window = ev.window;
      payload_len = ev.payload_len;
      ttl = ev.ttl;
      iface = ev.iface;
    }

unfoldable pub decode : ℕ → BpfL4Event → Option PacketMeta
decode wall_offset_ns ev = elim (protocol_of ev.proto) [
  | none ↦ none
  | some proto ↦ elim (address_of ev.family ev.saddr) [
    | none ↦ none
    | some src_ip ↦ elim (address_of ev.family ev.daddr) [
      | none ↦ none
      | some dst_ip ↦ some (decoded wall_offset_ns ev proto src_ip dst_ip)
    ]
  ]
]

-- What a turn of the loop finds: the bytes of a record, or an empty ring and what `poll` did then.
pub data Found (E : Type 0) : Type 0 where
  item : List ℕ → Found E
  polled : Found E
  poll_failed : E → Found E

-- The result of a call and the turns that are left; `waiting` is a call at the end of the script.
pub data Next (E : Type 0) : Type 0 where
  packet : PacketMeta → List (Found E) → Next E
  error : Error E → List (Found E) → Next E
  waiting : Next E

-- `cast` reads the bytes as the structure, in the layout of the machine.
unfoldable pub next_packet : {E : Type 0} → (List ℕ → BpfL4Event) → ℕ → List (Found E) → Next E
unfolding decode
next_packet cast wall [] = waiting
next_packet cast wall (item bytes ∷ ring) =
    let rest = next_packet cast wall ring in
    if leb event_size (length bytes)
    then elim (decode wall (cast bytes)) [ none ↦ rest | some pkt ↦ packet pkt ring ]
    else rest
next_packet cast wall (polled ∷ ring) = next_packet cast wall ring
next_packet cast wall (poll_failed e ∷ ring) = error (io e) ring

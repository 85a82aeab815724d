-- ===== src/Capture/Parse/RoundTrip.antt =====
-- parse.rs against an encoder: a frame that is built from its fields is parsed to those fields.
use network_l4_monitoring_co.Base.{
  ℕ, ◌+◌, ◌^◌, ◌<◌, ◌≤◌, ◌≡◌, List, [], ◌∷◌, bit_and, arith, length, ap, refl, true,
}
use network_l4_monitoring_co.Core.Types.{IpAddr, v4, tcp, PacketMeta, canonical, endpoint_le}
use network_l4_monitoring_co.Core.Types.Canonical.{observed}
use network_l4_monitoring_co.Capture.Parse.Frames.{
  put16, put32, Segment, put_tcp, Header, put_ipv4, Tag, Macs, put_frame,
}
use network_l4_monitoring_co.Capture.Bytes.{
  found, get, index, get_from, index_from, checked_sub, be16, be32, octets,
}
use network_l4_monitoring_co.Capture.Parse.{
  build, finish_tcp, finish, parse_ipv4, strip_tags, strip_link, parse_l3, parse_frame, dlt_en10mb,
}

be16-put16 : (n : ℕ) (rest : List ℕ) → be16 (put16 n rest) ≡ found n
unfolding be16
be16-put16 n rest = ap found (omega arith)

be32-put32 : (n : ℕ) (rest : List ℕ) → be32 (put32 n rest) ≡ found n
unfolding be32
be32-put32 n rest = ap found (omega arith)

finish_tcp-put_tcp :
    (src dst : IpAddr) (ttl : ℕ) (s : Segment) (ts iface : ℕ)
    → length s.payload < 2 ^ 32
    → finish_tcp src dst ttl (put_tcp s) (20 + length s.payload) ts iface
      ≡ found (
          build src s.sport dst s.dport tcp
            (record { bits = bit_and s.flags 0x3f })
            s.seq
            s.ack
            s.window
            (length s.payload)
            ttl
            ts
            iface)
unfolding finish_tcp index_from index
finish_tcp-put_tcp src dst ttl s ts iface lt = ground (
  arith,
  be16-put16 s.sport (
      put16 s.dport (
        put32 s.seq (
          put32 s.ack
            (0x50 ∷ s.flags ∷ put16 s.window (put16 s.checksum (put16 s.urgent s.payload)))))),
  be16-put16 s.dport (
      put32 s.seq (
        put32 s.ack
          (0x50 ∷ s.flags ∷ put16 s.window (put16 s.checksum (put16 s.urgent s.payload))))),
  be32-put32 s.seq
      (put32 s.ack (0x50 ∷ s.flags ∷ put16 s.window (put16 s.checksum (put16 s.urgent s.payload)))),
  be32-put32 s.ack (0x50 ∷ s.flags ∷ put16 s.window (put16 s.checksum (put16 s.urgent s.payload))),
  be16-put16 s.window (put16 s.checksum (put16 s.urgent s.payload)),
)

parse_ipv4-put_ipv4 :
    (h : Header) (s : Segment) (ts iface : ℕ)
    → h.src < 2 ^ 32
    → h.dst < 2 ^ 32
    → 40 + length s.payload < 2 ^ 16
    → parse_ipv4 (put_ipv4 h s) ts iface
      ≡ found (
          build
            (v4 h.src)
            s.sport
            (v4 h.dst)
            s.dport
            tcp
            (record { bits = bit_and s.flags 0x3f })
            s.seq
            s.ack
            s.window
            (length s.payload)
            h.ttl
            ts
            iface)
unfolding parse_ipv4 index_from index be16 octets checked_sub finish
parse_ipv4-put_ipv4 h s ts iface ls ld lt =
    ground (arith, finish_tcp-put_tcp (v4 h.src) (v4 h.dst) h.ttl s ts iface)

strip_link-put_frame :
    (m : Macs) (tags : List Tag) (l3 : List ℕ)
    → length tags ≤ 2
    → strip_link dlt_en10mb (put_frame m tags l3) ≡ found (0x0800, l3)
unfolding strip_link strip_tags get_from be16 get
strip_link-put_frame m [] l3 le = ground arith
strip_link-put_frame m (t ∷ []) l3 le = ground arith
strip_link-put_frame m (t ∷ u ∷ []) l3 le = ground arith
strip_link-put_frame m (t ∷ u ∷ v ∷ ts) l3 le = absurd (omega arith)

parse_frame-built :
    (m : Macs) (tags : List Tag) (h : Header) (s : Segment) (ts iface : ℕ)
    → length tags ≤ 2
    → h.src < 2 ^ 32
    → h.dst < 2 ^ 32
    → 40 + length s.payload < 2 ^ 16
    → parse_frame dlt_en10mb (put_frame m tags (put_ipv4 h s)) ts iface
      ≡ found (
          build
            (v4 h.src)
            s.sport
            (v4 h.dst)
            s.dport
            tcp
            (record { bits = bit_and s.flags 0x3f })
            s.seq
            s.ack
            s.window
            (length s.payload)
            h.ttl
            ts
            iface)
unfolding parse_frame parse_l3
parse_frame-built m tags h s ts iface le ls ld lt =
    rw (strip_link-put_frame m tags (put_ipv4 h s) le) (parse_ipv4-put_ipv4 h s ts iface ls ld lt)

-- The packet that a frame with these headers stands for: its key has the smaller endpoint as `low`,
-- and says with the direction which endpoint sent it.
pub record IsPacketOf (h : Header) (s : Segment) (ts i : ℕ) (p : PacketMeta) : Type 0 where
  pub ends :
      observed p.key p.dir
      ≡ (record { ip = v4 h.src; port = s.sport }, record { ip = v4 h.dst; port = s.dport })
  pub sorted : endpoint_le p.key.low p.key.high ≡ true
  pub key_proto : p.key.proto ≡ tcp
  pub proto : p.proto ≡ tcp
  pub ts_nanos : p.ts_nanos ≡ ts
  pub flags : p.flags.bits ≡ bit_and s.flags 0x3f
  pub seq : p.seq ≡ s.seq
  pub ack_no : p.ack_no ≡ s.ack
  pub window : p.window ≡ s.window
  pub payload_len : p.payload_len ≡ length s.payload
  pub ttl : p.ttl ≡ h.ttl
  pub iface : p.iface ≡ i

build-IsPacketOf :
    (h : Header) (s : Segment) (ts iface : ℕ)
    → IsPacketOf h s ts iface (
        build
          (v4 h.src)
          s.sport
          (v4 h.dst)
          s.dport
          tcp
          (record { bits = bit_and s.flags 0x3f })
          s.seq
          s.ack
          s.window
          (length s.payload)
          h.ttl
          ts
          iface)
unfolding build canonical endpoint_le
build-IsPacketOf h s ts iface = record {
  ends = ground arith;
  sorted = ground arith;
  key_proto = ground arith;
  proto = refl;
  ts_nanos = refl;
  flags = refl;
  seq = refl;
  ack_no = refl;
  window = refl;
  payload_len = refl;
  ttl = refl;
  iface = refl;
}

-- An Ethernet frame with at most two VLAN tags, around an IPv4 packet with no options, around a
-- TCP segment with no options, is parsed to a packet with the fields that the frame was built from:
-- the source and destination, under a key with the smaller one first, TCP, the time and interface,
-- the low six flag bits, the sequence and acknowledgement numbers, the window, the payload's length
-- and the hop limit.
pub parse_frame-put_frame :
    (m : Macs) (tags : List Tag) (h : Header) (s : Segment) (ts iface : ℕ)
    → length tags ≤ 2
    → h.src < 2 ^ 32
    → h.dst < 2 ^ 32
    → 40 + length s.payload < 2 ^ 16
    → (p : PacketMeta) × (parse_frame dlt_en10mb (put_frame m tags (put_ipv4 h s)) ts iface
        ≡ found p)
      × IsPacketOf h s ts iface p
parse_frame-put_frame m tags h s ts iface le ls ld lt =
    (_, parse_frame-built m tags h s ts iface le ls ld lt, build-IsPacketOf h s ts iface)

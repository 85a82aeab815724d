-- ===== src/Capture/Parse/Frames.antt =====
-- Ethernet frames of IPv4 and TCP as bytes, which parse.rs is stated against.
use network_l4_monitoring_co.Base.{ℕ, ◌+◌, ◌/◌, ◌%◌, Bool, List, [], ◌∷◌, length, if◌then◌else◌}

abbrev pub put16 : ℕ → List ℕ → List ℕ
put16 n rest = (n / 256) ∷ (n % 256) ∷ rest

abbrev pub put32 : ℕ → List ℕ → List ℕ
put32 n rest = (n / 0x1000000) ∷ (n / 0x10000 % 256) ∷ (n / 256 % 256) ∷ (n % 256) ∷ rest

pub record Segment : Type 0 where
  pub sport : ℕ
  pub dport : ℕ
  pub seq : ℕ
  pub ack : ℕ
  pub flags : ℕ
  pub window : ℕ
  pub checksum : ℕ
  pub urgent : ℕ
  pub payload : List ℕ

-- A TCP segment with no options.
abbrev pub put_tcp : Segment → List ℕ
put_tcp s = put16 s.sport (
    put16 s.dport (
      put32 s.seq (
        put32 s.ack
          (0x50 ∷ s.flags ∷ put16 s.window (put16 s.checksum (put16 s.urgent s.payload))))))

pub record Header : Type 0 where
  pub tos : ℕ
  pub id : ℕ
  pub fragment : ℕ
  pub ttl : ℕ
  pub checksum : ℕ
  pub src : ℕ
  pub dst : ℕ

-- An IPv4 packet with no options, with a TCP segment in it.
abbrev pub put_ipv4 : Header → Segment → List ℕ
put_ipv4 h s =
    0x45
    ∷ h.tos
    ∷ put16 (40 + length s.payload) (
        put16 h.id
          (put16 h.fragment (h.ttl ∷ 6 ∷ put16 h.checksum (put32 h.src (put32 h.dst (put_tcp s))))))

-- A VLAN tag: 802.1Q or 802.1ad, and its control information.
pub record Tag : Type 0 where
  pub outer : Bool
  pub control : ℕ

abbrev pub put_tags : List Tag → List ℕ → List ℕ
put_tags [] rest = put16 0x0800 rest
put_tags (t ∷ ts) rest =
    put16 (if t.outer then 0x88a8 else 0x8100) (put16 t.control (put_tags ts rest))

pub record Macs : Type 0 where
  pub dst_high : ℕ
  pub dst_mid : ℕ
  pub dst_low : ℕ
  pub src_high : ℕ
  pub src_mid : ℕ
  pub src_low : ℕ

-- An Ethernet II frame with VLAN tags around an IPv4 packet.
abbrev pub put_frame : Macs → List Tag → List ℕ → List ℕ
put_frame m tags l3 = put16 m.dst_high (
    put16 m.dst_mid
      (put16 m.dst_low (put16 m.src_high (put16 m.src_mid (put16 m.src_low (put_tags tags l3))))))

-- ===== src/Capture/Synthetic.antt =====
-- l4scope/crates/l4scope-capture/src/synthetic.rs: the scripted source of packets.
pub mod Drain
use network_l4_monitoring_co.Base.{
  ℕ, zero, suc, ◌+◌, ◌*◌, ◌%◌, ◌^◌, List, [], ◌∷◌, ◌++◌, Option, none, some, get_elem?,
}
use network_l4_monitoring_co.Core.Types.{Protocol, tcp, IpAddr, v4, Endpoint, canonical, PacketMeta}

pub record SyntheticSource : Type 0 where
  pub packets : List PacketMeta
  pub idx : ℕ

-- The result of a call, and the source after it.
unfoldable pub next_packet : SyntheticSource → Option PacketMeta × SyntheticSource
next_packet s = elim (get_elem? s.packets s.idx) [
  | none ↦ (none, s)
  | some p ↦ (some p, record s { idx = s.idx + 1 })
]

abbrev pub ms : ℕ
ms = 1_000_000

abbrev pub sec : ℕ
sec = 1_000_000_000

abbrev pub ipv4 : ℕ → ℕ → ℕ → ℕ → IpAddr
ipv4 a b c d = v4 (a * 0x1000000 + b * 0x10000 + c * 256 + d)

unfoldable pub pkt : ℕ → IpAddr → ℕ → IpAddr → ℕ → Protocol → ℕ → ℕ → ℕ → ℕ → ℕ → PacketMeta
pkt ts src_ip sport dst_ip dport proto flags seq ack window payload_len =
    let src : Endpoint = record { ip = src_ip; port = sport } in
    let dst : Endpoint = record { ip = dst_ip; port = dport } in
    let (key, dir) = canonical src dst proto in
    record {
      ts_nanos = ts;
      key = key;
      dir = dir;
      proto = proto;
      flags = record { bits = flags };
      seq = seq;
      ack_no = ack;
      window = window;
      payload_len = payload_len;
      ttl = 64;
      iface = 0;
    }

-- The packets of `count` turns of a loop, the first of which is number `i`.
unfoldable pub turns : ℕ → ℕ → (ℕ → List PacketMeta) → List PacketMeta
turns zero i body = []
turns (suc count) i body = body i ++ turns count (i + 1) body

abbrev pub t0 : ℕ
t0 = 1_700_000_000 * sec

abbrev pub client : IpAddr
client = ipv4 10 0 0 5

abbrev pub server : IpAddr
server = ipv4 10 0 0 9

unfoldable pub high_rtt : List PacketMeta
unfolding pkt
high_rtt =
    pkt t0 client 40001 server 443 tcp 0x02 1000 0 64240 0
    ∷ pkt (t0 + 300 * ms) server 443 client 40001 tcp 0x12 5000 1001 65160 0
    ∷ pkt (t0 + 305 * ms) client 40001 server 443 tcp 0x10 1001 5001 64240 0
    ∷ []

unfoldable pub retransmissions : List PacketMeta
unfolding pkt turns
retransmissions =
    let base = t0 + 400 * ms in
    (pkt base client 40002 server 80 tcp 0x02 2000 0 64240 0
      ∷ pkt (base + ms) server 80 client 40002 tcp 0x12 9000 2001 65160 0
      ∷ pkt (base + 2 * ms) client 40002 server 80 tcp 0x10 2001 9001 64240 0
      ∷ [])
    ++ turns 4 0 λ i.
      pkt (base + (10 + i * 200) * ms) client 40002 server 80 tcp 0x18 2001 9001 64240 200 ∷ []

unfoldable pub dup_acks : List PacketMeta
unfolding pkt turns
dup_acks =
    let base = t0 + 400 * ms in
    turns 4 0
      λ i. pkt (base + (900 + i * 5) * ms) server 80 client 40002 tcp 0x10 9001 2201 65160 0 ∷ []

unfoldable pub zero_window : List PacketMeta
unfolding pkt
zero_window =
    let zt = t0 + 2 * sec in
    pkt zt client 40003 server 5432 tcp 0x02 3000 0 64240 0
    ∷ pkt (zt + ms) server 5432 client 40003 tcp 0x12 7000 3001 65160 0
    ∷ pkt (zt + 2 * ms) client 40003 server 5432 tcp 0x10 3001 7001 64240 0
    ∷ pkt (zt + 50 * ms) client 40003 server 5432 tcp 0x10 3001 7001 0 0
    ∷ []

unfoldable pub rst_storm : List PacketMeta
unfolding pkt turns
rst_storm =
    let rt = t0 + 3 * sec in
    turns 40 0 λ i.
      let cli = ipv4 10 0 1 (i % 250 + 1) in
      let sp = 50000 + i in
      let at = rt + i * 10 * ms in
      pkt at cli sp server 8080 tcp 0x02 (4000 + i) 0 64240 0
      ∷ pkt (at + ms) server 8080 cli sp tcp 0x14 0 (4001 + i) 0 0
      ∷ []

unfoldable pub syn_backlog : List PacketMeta
unfolding pkt turns
syn_backlog =
    let st = t0 + 5 * sec in
    turns 80 0 λ i.
      let cli = ipv4 10 0 2 (i % 250 + 1) in
      pkt (st + i * ms) cli (60000 + i) server 3306 tcp 0x02 (6000 + i) 0 64240 0 ∷ []

-- A late packet, which makes a sweep due.
unfoldable pub late_packet : PacketMeta
unfolding pkt
late_packet = pkt (t0 + 5 * sec + 10 * sec) client 40009 server 22 tcp 0x02 7000 0 64240 0

unfoldable pub build_script : List PacketMeta
unfolding high_rtt retransmissions dup_acks zero_window rst_storm syn_backlog late_packet
build_script =
    high_rtt
    ++ (retransmissions
        ++ (dup_acks ++ (zero_window ++ (rst_storm ++ (syn_backlog ++ (late_packet ∷ []))))))

unfoldable pub new : SyntheticSource
unfolding build_script
new = record { packets = build_script; idx = 0 }

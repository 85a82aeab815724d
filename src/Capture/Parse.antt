-- ===== src/Capture/Parse.antt =====
-- l4scope/crates/l4scope-capture/src/parse.rs: a link-layer frame to a `PacketMeta`.
pub mod Safety
pub mod Frames
pub mod RoundTrip
pub mod Extensions
use network_l4_monitoring_co.Base.{
  ℕ, zero, suc, ◌+◌, ◌-◌, ◌*◌, ◌/◌, ◌%◌, ◌^◌, bit_and, List, Bool, ◌||◌, leb, ltb, ◌==◌,
  if◌then◌else◌, length, saturating_sub,
}
use network_l4_monitoring_co.Core.Types.{
  Protocol, tcp, udp, IpAddr, v4, v6, Endpoint, canonical, TcpFlags, PacketMeta,
}
use network_l4_monitoring_co.Capture.Bytes.{
  Outcome, found, nothing, ◌>>=◌, get, index, get_from, index_from, checked_sub, be16, be32, octets,
}
use Prim.Native.Nat.{min}

abbrev pub dlt_en10mb : ℕ
dlt_en10mb = 1

abbrev pub dlt_raw : ℕ
dlt_raw = 101

abbrev pub dlt_linux_sll : ℕ
dlt_linux_sll = 113

abbrev pub dlt_null : ℕ
dlt_null = 0

abbrev pub eth_p_ip : ℕ
eth_p_ip = 0x0800

abbrev pub eth_p_ipv6 : ℕ
eth_p_ipv6 = 0x86dd

abbrev pub eth_p_vlan : ℕ
eth_p_vlan = 0x8100

abbrev pub eth_p_qinq : ℕ
eth_p_qinq = 0x88a8

abbrev pub ipproto_tcp : ℕ
ipproto_tcp = 6

abbrev pub ipproto_udp : ℕ
ipproto_udp = 17

-- The loop over the VLAN tags: rounds left, ethertype and offset.
unfoldable pub strip_tags : ℕ → List ℕ → ℕ → ℕ → Outcome (ℕ × ℕ)
strip_tags zero d et off = found (et, off)
strip_tags (suc n) d et off =
    let tagged = (do rest ← get_from d (off + 2); et' ← be16 rest; strip_tags n d et' (off + 4)) in
    if et == eth_p_vlan || et == eth_p_qinq then tagged else found (et, off)

abbrev pub by_version : ℕ → List ℕ → Outcome (ℕ × List ℕ)
by_version v l3 =
    if v == 4 then found (eth_p_ip, l3) else if v == 6 then found (eth_p_ipv6, l3) else nothing

unfoldable pub strip_link : ℕ → List ℕ → Outcome (ℕ × List ℕ)
strip_link linktype d =
    if linktype == dlt_en10mb
    then (do
      head ← get_from d 12
      et ← be16 head
      (et', off) ← strip_tags 2 d et 14
      l3 ← get_from d off
      found (et', l3))
    else if linktype == dlt_linux_sll
    then (do head ← get_from d 14; et ← be16 head; l3 ← get_from d 16; found (et, l3))
    else if linktype == dlt_raw
    then (do b ← get d 0; by_version (b / 16) d)
    else if linktype == dlt_null
    then (do b ← get d 4; l3 ← get_from d 4; by_version (b / 16) l3)
    else nothing

unfoldable pub build :
    IpAddr → ℕ → IpAddr → ℕ → Protocol → TcpFlags → ℕ → ℕ → ℕ → ℕ → ℕ → ℕ → ℕ → PacketMeta
build src_ip sport dst_ip dport proto flags seq ack window payload_len ttl ts_nanos iface =
    let (key, dir) =
      canonical (record { ip = src_ip; port = sport }) (record { ip = dst_ip; port = dport })
        proto in
    record {
      ts_nanos = ts_nanos;
      key = key;
      dir = dir;
      proto = proto;
      flags = flags;
      seq = seq;
      ack_no = ack;
      window = window;
      payload_len = payload_len;
      ttl = ttl;
      iface = iface;
    }

-- The two arms of `finish`.
unfoldable pub finish_tcp : IpAddr → IpAddr → ℕ → List ℕ → ℕ → ℕ → ℕ → Outcome PacketMeta
finish_tcp src_ip dst_ip ttl l4 ip_payload_len ts_nanos iface =
    if ltb (length l4) 20 then nothing else do
      s ← index_from l4 0
      sport ← be16 s
      t ← index_from l4 2
      dport ← be16 t
      u ← index_from l4 4
      seq ← be32 u
      v ← index_from l4 8
      ack ← be32 v
      o ← index l4 12
      let data_off = o / 16 * 4
      if ltb data_off 20 then nothing else do
        f ← index l4 13
        w ← index_from l4 14
        window ← be16 w
        let payload_len = saturating_sub ip_payload_len data_off % 2 ^ 32
        found (
            build src_ip sport dst_ip dport tcp (record { bits = bit_and f 0x3f }) seq ack window
              payload_len ttl ts_nanos iface)

unfoldable pub finish_udp : IpAddr → IpAddr → ℕ → List ℕ → ℕ → ℕ → Outcome PacketMeta
finish_udp src_ip dst_ip ttl l4 ts_nanos iface = if ltb (length l4) 8 then nothing else do
  s ← index_from l4 0
  sport ← be16 s
  t ← index_from l4 2
  dport ← be16 t
  u ← index_from l4 4
  ulen ← be16 u
  found (
      build src_ip sport dst_ip dport udp (record { bits = 0 }) 0 0 0 (saturating_sub ulen 8) ttl
        ts_nanos iface)

unfoldable pub finish : ℕ → IpAddr → IpAddr → ℕ → List ℕ → ℕ → ℕ → ℕ → Outcome PacketMeta
finish proto_num src_ip dst_ip ttl l4 ip_payload_len ts_nanos iface =
    if proto_num == ipproto_tcp
    then finish_tcp src_ip dst_ip ttl l4 ip_payload_len ts_nanos iface
    else if proto_num == ipproto_udp
    then finish_udp src_ip dst_ip ttl l4 ts_nanos iface
    else nothing

unfoldable pub parse_ipv4 : List ℕ → ℕ → ℕ → Outcome PacketMeta
parse_ipv4 d ts_nanos iface = if ltb (length d) 20 then nothing else do
  b ← index d 0
  let ihl = bit_and b 0x0f * 4
  if ltb ihl 20 || ltb (length d) ihl then nothing else do
    t ← index_from d 2
    total_len ← be16 t
    proto ← index d 9
    ttl ← index d 8
    src ← octets d 12 4 0
    dst ← octets d 16 4 0
    captured ← checked_sub (length d) ihl
    let ip_payload = min (saturating_sub total_len ihl) captured
    l4 ← index_from d ihl
    finish proto (v4 src) (v4 dst) ttl l4 ip_payload ts_nanos iface

-- One extension header: the next header's number and offset.
unfoldable pub extension : List ℕ → ℕ → ℕ → Outcome (ℕ × ℕ)
extension d next off =
    if next == 0 || next == 43 || next == 60 || next == 51
    then (do
      next' ← get d off
      len ← get d (off + 1)
      found (next', off + (if next' == 51 then (len + 2) * 4 else (len + 1) * 8)))
    else if next == 44
    then (do next' ← get d off; found (next', off + 8))
    else nothing

-- The loop over the extension headers: rounds left, next header and offset.
unfoldable pub walk : ℕ → List ℕ → ℕ → ℕ → ℕ → Outcome (ℕ × ℕ)
walk zero d end_off next off = found (next, off)
walk (suc n) d end_off next off =
    let onward = (do
      (next', off') ← extension d next off
      (let rest = walk n d end_off next' off' in if leb end_off off' then nothing else rest)) in
    if next == ipproto_tcp || next == ipproto_udp then found (next, off) else onward

unfoldable pub parse_ipv6 : List ℕ → ℕ → ℕ → Outcome PacketMeta
parse_ipv6 d ts_nanos iface = if ltb (length d) 40 then nothing else do
  t ← index_from d 4
  payload_len ← be16 t
  next ← index d 6
  ttl ← index d 7
  src ← octets d 8 16 0
  dst ← octets d 24 16 0
  let end_off = min (40 + payload_len) (length d)
  (proto, off) ← walk 8 d end_off next 40
  l4 ← get_from d off
  finish proto (v6 src) (v6 dst) ttl l4 (saturating_sub end_off off) ts_nanos iface

unfoldable pub parse_l3 : ℕ → List ℕ → ℕ → ℕ → Outcome PacketMeta
parse_l3 ethertype l3 ts_nanos iface =
    if ethertype == eth_p_ip
    then parse_ipv4 l3 ts_nanos iface
    else if ethertype == eth_p_ipv6
    then parse_ipv6 l3 ts_nanos iface
    else nothing

unfoldable pub parse_frame : ℕ → List ℕ → ℕ → ℕ → Outcome PacketMeta
unfolding parse_l3
parse_frame linktype d ts_nanos iface = do
  (ethertype, l3) ← strip_link linktype d
  parse_l3 ethertype l3 ts_nanos iface

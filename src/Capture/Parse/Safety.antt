-- ===== src/Capture/Parse/Safety.antt =====
-- No input makes parse.rs index out of bounds or subtract below zero.
use network_l4_monitoring_co.Base.{
  ℕ, zero, suc, ◌*◌, ◌≤◌, ◌≢◌, List, ◌||◌, ltb, if◌then◌else◌, length, arith, bit_and,
}
use network_l4_monitoring_co.Core.Types.{IpAddr}
use network_l4_monitoring_co.Capture.Bytes.{
  Outcome, nothing, panic, Safe, safe_found, safe_nothing, Safe-ne-panic, safe_rules, Safe-bind,
  Safe-if, index-Safe, index_from-Safe, checked_sub-Safe, octets-Safe,
}
use network_l4_monitoring_co.Capture.Parse.{
  strip_tags, strip_link, finish_tcp, finish_udp, finish, parse_ipv4, extension, walk, parse_ipv6,
  parse_l3, parse_frame,
}

strip_tags-Safe : (n : ℕ) (d : List ℕ) (et off : ℕ) → Safe (strip_tags n d et off)
unfolding strip_tags
strip_tags-Safe zero d et off = safe_found _
strip_tags-Safe (suc n) d et off = let ih = strip_tags-Safe n d in search (safe_rules, ih) depth 8

strip_link-Safe : (linktype : ℕ) (d : List ℕ) → Safe (strip_link linktype d)
unfolding strip_link
strip_link-Safe linktype d = search (safe_rules, strip_tags-Safe) depth 12

extension-Safe : (d : List ℕ) (next off : ℕ) → Safe (extension d next off)
unfolding extension
extension-Safe d next off = search safe_rules depth 9

walk-Safe : (n : ℕ) (d : List ℕ) (end_off next off : ℕ) → Safe (walk n d end_off next off)
unfolding walk
walk-Safe zero d end_off next off = safe_found _
walk-Safe (suc n) d end_off next off =
    let ih = walk-Safe n d end_off in search (safe_rules, extension-Safe, ih) depth 9

by_length :
    {A : Type 0} (d : List ℕ) (n : ℕ) (m : Outcome A)
    → (n ≤ length d → Safe m)
    → Safe (if ltb (length d) n then nothing else m)
by_length d n m h = Safe-if _ _ m (λ _. safe_nothing) (λ e. h (ground arith))

module _ (src dst : IpAddr) (ttl : ℕ) (l4 : List ℕ) (len ts iface : ℕ) where
  finish_tcp-Safe : Safe (finish_tcp src dst ttl l4 len ts iface)
  unfolding finish_tcp
  finish_tcp-Safe = by_length l4 20 _ λ h.
      let i0 = index_from-Safe l4 0 (omega arith) in
      let i2 = index_from-Safe l4 2 (omega arith) in
      let i4 = index_from-Safe l4 4 (omega arith) in
      let i8 = index_from-Safe l4 8 (omega arith) in
      let i14 = index_from-Safe l4 14 (omega arith) in
      let b12 = index-Safe l4 12 (omega arith) in
      let b13 = index-Safe l4 13 (omega arith) in
      search (safe_rules, i0, i2, i4, i8, i14, b12, b13) depth 16

  finish_udp-Safe : Safe (finish_udp src dst ttl l4 ts iface)
  unfolding finish_udp
  finish_udp-Safe = by_length l4 8 _ λ h.
      let i0 = index_from-Safe l4 0 (omega arith) in
      let i2 = index_from-Safe l4 2 (omega arith) in
      let i4 = index_from-Safe l4 4 (omega arith) in search (safe_rules, i0, i2, i4) depth 9

  finish-Safe : (proto_num : ℕ) → Safe (finish proto_num src dst ttl l4 len ts iface)
  unfolding finish
  finish-Safe proto_num = search (safe_rules, finish_tcp-Safe, finish_udp-Safe)

parse_ipv4-Safe : (d : List ℕ) (ts iface : ℕ) → Safe (parse_ipv4 d ts iface)
unfolding parse_ipv4
parse_ipv4-Safe d ts iface = by_length d 20 _ λ h. Safe-bind _ _ (index-Safe d 0 (omega arith)) λ b.
    let ihl = bit_and b 0x0f * 4 in
    Safe-if (ltb ihl 20 || ltb (length d) ihl) nothing _ (λ _. safe_nothing)
      λ e.
        let fits : ihl ≤ length d = ground arith in
        let total = index_from-Safe d 2 (omega arith) in
        let proto = index-Safe d 9 (omega arith) in
        let ttl = index-Safe d 8 (omega arith) in
        let src = octets-Safe d 12 4 0 (omega arith) in
        let dst = octets-Safe d 16 4 0 (omega arith) in
        let room = checked_sub-Safe (length d) ihl fits in
        let l4 = index_from-Safe d ihl fits in
        search (safe_rules, total, proto, ttl, src, dst, room, l4, finish-Safe) depth 12

parse_ipv6-Safe : (d : List ℕ) (ts iface : ℕ) → Safe (parse_ipv6 d ts iface)
unfolding parse_ipv6
parse_ipv6-Safe d ts iface = by_length d 40 _ λ h.
    let len = index_from-Safe d 4 (omega arith) in
    let next = index-Safe d 6 (omega arith) in
    let ttl = index-Safe d 7 (omega arith) in
    let src = octets-Safe d 8 16 0 (omega arith) in
    let dst = octets-Safe d 24 16 0 (omega arith) in
    search (safe_rules, len, next, ttl, src, dst, walk-Safe, finish-Safe) depth 12

parse_l3-Safe : (ethertype : ℕ) (l3 : List ℕ) (ts iface : ℕ) → Safe (parse_l3 ethertype l3 ts iface)
unfolding parse_l3
parse_l3-Safe ethertype l3 ts iface = search (safe_rules, parse_ipv4-Safe, parse_ipv6-Safe)

-- Whatever the bytes and the link type, the parser returns a packet or `None`: it makes no access
-- out of bounds and no subtraction below zero.
pub parse_frame-ne-panic :
    (linktype : ℕ) (d : List ℕ) (ts iface : ℕ) → parse_frame linktype d ts iface ≢ panic
unfolding parse_frame
parse_frame-ne-panic linktype d ts iface =
    Safe-ne-panic (Safe-bind _ _ (strip_link-Safe linktype d) λ r. parse_l3-Safe r.0 r.1 ts iface)

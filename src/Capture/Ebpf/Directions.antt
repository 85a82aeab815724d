-- ===== src/Capture/Ebpf/Directions.antt =====
-- ebpf.rs: the records of the two directions of a conversation.
use network_l4_monitoring_co.Base.{ℕ, ◌≡◌, ◌≢◌, ap, sym, ◌∙◌, some, arith, inl, inr, Option-cases}
use network_l4_monitoring_co.Core.Types.{Protocol, Endpoint, PacketMeta, canonical}
use network_l4_monitoring_co.Core.Types.Canonical.{opposite, canonical_lem}
use network_l4_monitoring_co.Capture.Ebpf.{BpfL4Event, protocol_of, address_of, decoded, decode}

-- The record of a packet in the other direction, with its own fields.
abbrev pub turned : BpfL4Event → BpfL4Event → BpfL4Event
turned ev other = record other {
  saddr = ev.daddr;
  daddr = ev.saddr;
  sport = ev.dport;
  dport = ev.sport;
  family = ev.family;
  proto = ev.proto;
}

canonical-same :
    (a b : Endpoint) (proto : Protocol)
    → a ≡ b
    → (canonical a b proto).0.low ≡ (canonical a b proto).0.high
unfolding canonical
canonical-same a b proto e = ground arith

some_parts : {A : Type 0} (a b : A) → some a ≡ some b → b ≡ a
some_parts a b h = cc

-- A record that is decoded to a packet of two different endpoints, and any record of the other
-- direction, are decoded to packets of one key and opposite directions.
pub decode-turned :
    (wall : ℕ) (ev other : BpfL4Event) (pkt : PacketMeta)
    → decode wall ev ≡ some pkt
    → pkt.key.low ≢ pkt.key.high
    → (back : PacketMeta) × (decode wall (turned ev other) ≡ some back)
      × (back.key ≡ pkt.key)
      × (pkt.dir ≡ opposite back.dir)
unfolding decode
decode-turned wall ev other pkt h ne = elim (Option-cases (protocol_of ev.proto)) [
  | inl e ↦ absurd (ground arith)
  | inr (proto, p) ↦ elim (Option-cases (address_of ev.family ev.saddr)) [
    | inl e ↦ absurd (ground arith)
    | inr (src, s) ↦ elim (Option-cases (address_of ev.family ev.daddr)) [
      | inl e ↦ absurd (ground arith)
      | inr (dst, d) ↦
          let a : Endpoint = record { ip = src; port = ev.sport } in
          let b : Endpoint = record { ip = dst; port = ev.dport } in
          let is : pkt ≡ decoded wall ev proto src dst =
            some_parts (decoded wall ev proto src dst) pkt (ground arith) in
          let key : pkt.key ≡ (canonical a b proto).0 = ap (λ q. q.key) is in
          let apart : a ≢ b = λ same.
            ne (ap (λ k. k.low) key ∙ canonical-same a b proto same ∙ sym (ap (λ k. k.high) key)) in
          let (keys, dirs, ends) = canonical_lem a b proto apart in
          (
            decoded wall (turned ev other) proto dst src,
            ground arith,
            sym keys ∙ sym key,
            ap (λ q. q.dir) is ∙ dirs,
          )
    ]
  ]
]

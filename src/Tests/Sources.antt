-- ===== src/Tests/Sources.antt =====
-- ebpf.rs at concrete inputs.
use network_l4_monitoring_co.Base.{◌≡◌, refl, ap, arith, replicate, ◌∷◌, some}
use network_l4_monitoring_co.Core.Types.{PacketMeta, Endpoint, forward, canonical, endpoint_le}
use network_l4_monitoring_co.Core.Types.Canonical.{opposite}
use network_l4_monitoring_co.Capture.Ebpf.{BpfL4Event, decode}
use network_l4_monitoring_co.Capture.Ebpf.Directions.{turned, decode-turned}
use network_l4_monitoring_co.Tests.Values.{syn_packet, key}

abbrev event : BpfL4Event
event = record {
  ts_nanos = 3;
  saddr = 10 ∷ 0 ∷ 0 ∷ 1 ∷ replicate 12 0;
  daddr = 10 ∷ 0 ∷ 0 ∷ 2 ∷ replicate 12 0;
  sport = 5000;
  dport = 80;
  seq = 100;
  ack_no = 0;
  window = 64240;
  payload_len = 0;
  family = 4;
  proto = 6;
  flags = 2;
  ttl = 64;
  iface = 0;
}

abbrev answer : BpfL4Event
answer = record event { ts_nanos = 5; seq = 900; ack_no = 101; flags = 0x12 }

-- The packet of Tests/Values, two nanoseconds after the machine's offset.
event_decodes : decode 2 event ≡ some syn_packet
unfolding decode canonical endpoint_le
event_decodes = refl

decode-turned_example :
    (back : PacketMeta) × (decode 2 (turned event answer) ≡ some back)
    × (back.key ≡ key)
    × (forward ≡ opposite back.dir)
decode-turned_example =
    decode-turned 2 event answer syn_packet event_decodes
      (λ e. absurd (omega (arith, ap (λ (n : Endpoint). n.port) e)))

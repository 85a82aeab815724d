-- ===== src/Tests/Parse.antt =====
-- parse.rs at concrete inputs.
use network_l4_monitoring_co.Base.{
  ℕ, ◌+◌, ◌≡◌, ◌≢◌, ◌↔◌, ◌⊎◌, refl, true, false, List, [], ◌∷◌, arith, ◌==◌,
}
use network_l4_monitoring_co.Core.Types.{PacketMeta}
use network_l4_monitoring_co.Capture.Bytes.{found, panic, get}
use network_l4_monitoring_co.Capture.Parse.{parse_frame, extension}
use network_l4_monitoring_co.Capture.Parse.Safety.{parse_frame-ne-panic}
use network_l4_monitoring_co.Capture.Parse.Frames.{Segment, Header, Macs, Tag, put_frame, put_ipv4}
use network_l4_monitoring_co.Capture.Parse.RoundTrip.{IsPacketOf, parse_frame-put_frame}
use network_l4_monitoring_co.Capture.Parse.Extensions.{standard_length, extension-standard_iff}

parse_frame-ne-panic_example : parse_frame 1 (0 ∷ 1 ∷ 2 ∷ []) 5 0 ≢ panic
parse_frame-ne-panic_example = parse_frame-ne-panic 1 (0 ∷ 1 ∷ 2 ∷ []) 5 0

abbrev pub segment : Segment
segment = record {
  sport = 5000;
  dport = 80;
  seq = 100;
  ack = 901;
  flags = 0x18;
  window = 64240;
  checksum = 0;
  urgent = 0;
  payload = 104 ∷ 105 ∷ [];
}

abbrev pub header : Header
header = record {
  tos = 0;
  id = 1;
  fragment = 0x4000;
  ttl = 64;
  checksum = 0;
  src = 0x0a000001;
  dst = 0x0a000002;
}

abbrev macs : Macs
macs = record { dst_high = 1; dst_mid = 2; dst_low = 3; src_high = 4; src_mid = 5; src_low = 6 }

abbrev tags : List Tag
tags = record { outer = true; control = 7 } ∷ record { outer = false; control = 8 } ∷ []

parse_frame-put_frame_example :
    (p : PacketMeta) × (parse_frame 1 (put_frame macs tags (put_ipv4 header segment)) 5 0 ≡ found p)
    × IsPacketOf header segment 5 0 p
parse_frame-put_frame_example =
    parse_frame-put_frame macs tags header segment 5 0 (omega arith) (omega arith) (omega arith)
      (omega arith)

-- An authentication header of 24 bytes before TCP.
abbrev ah : List ℕ
ah = 6 ∷ 4 ∷ 0 ∷ 0 ∷ []

extension-standard_iff_example :
    (extension ah 51 0 ≡ found (6, 0 + standard_length 51 4))
    ↔ (((51 == 51) ≡ (6 == 51)) ⊎ (◌≡◌ {A = ℕ} 4 0))
unfolding get
extension-standard_iff_example = extension-standard_iff ah 51 0 6 4 refl refl refl

-- ===== src/Tests/Pcap.antt =====
-- pcapio.rs at concrete inputs.
use network_l4_monitoring_co.Base.{◌≡◌, refl, String, true, false, [], ◌∷◌, take, drop, arith}
use network_l4_monitoring_co.Core.Error.{ok}
use network_l4_monitoring_co.Capture.Parse.Frames.{put_ipv4}
use network_l4_monitoring_co.Capture.Reader.{Reader, chunk, interrupted, failed}
use network_l4_monitoring_co.Capture.Pcap.{PcapStream, new, next_packet, ended}
use network_l4_monitoring_co.Capture.Pcap.Format.{File, put_file, packets_of}
use network_l4_monitoring_co.Capture.Pcap.Replay.{drain, drain-put_file}
use network_l4_monitoring_co.Capture.Pcap.Returns.{Returned, next_packet-Returned}
use network_l4_monitoring_co.Tests.Values.{fmt}
use network_l4_monitoring_co.Tests.Parse.{segment, header}

-- An IPv4 packet, and a frame that holds none, in the other byte order and in nanoseconds.
abbrev pub file : File
file = record {
  little = false;
  nanos = true;
  version = 0x00020004;
  thiszone = 0;
  sigfigs = 0;
  snaplen = 65535;
  linktype = 101;
  records =
      record { ts_sec = 3; ts_frac = 7; orig_len = 60; frame = put_ipv4 header segment }
      ∷ record { ts_sec = 4; ts_frac = 8; orig_len = 1; frame = 0 ∷ [] }
      ∷ [];
}

-- The file in two arrivals, with an interrupted read between them.
abbrev pub reader : Reader String
reader = chunk (take 30 (put_file file)) ∷ interrupted ∷ chunk (drop 30 (put_file file)) ∷ []

drain-put_file_example :
    (s : PcapStream String) × (s' : PcapStream String) × (new fmt reader 0 ≡ ok s)
    × (drain fmt 3 3 s ≡ (packets_of 101 true 0 file.records, ended s'))
drain-put_file_example = drain-put_file fmt file reader 0 tt refl (omega arith) (
  record { sec_u32 = omega arith; frac_u32 = omega arith; plausible = omega arith },
  (record { sec_u32 = omega arith; frac_u32 = omega arith; plausible = omega arith }, tt),
)

-- A stream whose reader has one byte and then fails.
abbrev broken : PcapStream String
broken = record {
  inner = chunk (1 ∷ []) ∷ failed "reset" ∷ [];
  little = true;
  nanos = false;
  linktype = 1;
  iface = 0;
}

next_packet-Returned_example : Returned fmt 3 (next_packet fmt 4 broken)
next_packet-Returned_example = next_packet-Returned fmt 4 broken (omega arith)

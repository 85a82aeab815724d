-- ===== src/Capture/Pcap/Replay.antt =====
-- pcapio.rs on a whole file in the format that it reads, whatever the arrivals in which it comes.
use network_l4_monitoring_co.Base.{
  ℕ, zero, suc, ◌^◌, ◌≤◌, ◌<◌, ◌≡◌, refl, ap, ◌∙◌, Bool, List, [], ◌∷◌, length, drop, All, arith,
}
use network_l4_monitoring_co.Core.Float.{Fmt}
use network_l4_monitoring_co.Core.Types.{PacketMeta}
use network_l4_monitoring_co.Core.Error.{ok}
use network_l4_monitoring_co.Capture.Reader.{Reader, read_full}
use network_l4_monitoring_co.Capture.Reader.Bytes.{bytes, Clean, fill-Filled}
use network_l4_monitoring_co.Capture.Pcap.{PcapStream, new, Turn, packet, ended, again, next_packet}
use network_l4_monitoring_co.Capture.Pcap.Format.{
  Record, IsRecord, File, put_records, put_file, packets_of, header_parts,
}
use network_l4_monitoring_co.Capture.Pcap.Next.{At, next_packet-Gives}

pub length-packets_of-le :
    (linktype : ℕ) (nanos : Bool) (iface : ℕ) (recs : List Record)
    → length (packets_of linktype nanos iface recs) ≤ length recs
length-packets_of-le linktype nanos iface [] = omega arith
length-packets_of-le linktype nanos iface (rec ∷ recs) =
    ground (arith, length-packets_of-le linktype nanos iface recs)

module _ {E F : Type 0} (fmt : Fmt F) where
  -- The packets of at most `rounds` calls of `next_packet`, and what stopped them.
  unfoldable pub drain : ℕ → ℕ → PcapStream E → List PacketMeta × Turn E
  drain zero fuel s = ([], again s)
  drain (suc rounds) fuel s = elim (next_packet fmt fuel s) [
    | packet p s' ↦ let (ps, t) = drain rounds fuel s' in (p ∷ ps, t)
    | t ↦ ([], t)
  ]

  drain-At :
      (rounds fuel : ℕ) (s : PcapStream E) (recs : List Record) (ps : List PacketMeta)
      → At fmt s recs
      → All IsRecord recs
      → length recs < fuel
      → length ps < rounds
      → packets_of s.linktype s.nanos s.iface recs ≡ ps
      → (s' : PcapStream E) × (drain rounds fuel s ≡ (ps, ended s'))
  unfolding drain
  drain-At zero fuel s recs ps at ok_recs enough calls e = absurd (omega arith)
  drain-At (suc rounds) fuel s recs [] at ok_recs enough calls e =
      let (r, t) = (next_packet-Gives fmt recs s fuel at ok_recs enough).at_end e in
      (record s { inner = r }, ground (arith, t))
  drain-At (suc rounds) fuel s recs (p ∷ ps) at ok_recs enough calls e =
      let (r, recs', t, rest, at', ok', short) =
        (next_packet-Gives fmt recs s fuel at ok_recs enough).at_packet p ps e in
      let (s', u) =
        drain-At rounds fuel (record s { inner = r }) recs' ps at' ok' (omega arith) (omega arith)
          rest in
      (s', ground (arith, t, u))

  pub new-put_file :
      (f : File) (r : Reader E) (iface : ℕ)
      → Clean r
      → bytes r ≡ put_file f
      → f.linktype < 2 ^ 32
      → (s : PcapStream E) × (new fmt r iface ≡ ok s)
        × At fmt s f.records
        × (packets_of s.linktype s.nanos s.iface f.records
            ≡ packets_of f.linktype f.nanos iface f.records)
  unfolding new read_full
  new-put_file f r iface clean e h =
      let (after, long, link, magic) = header_parts f (put_records f.little f.records) h in
      let (r', got, left, clean') =
        fill-Filled "unexpected end of pcap stream" 24 r clean (omega (arith, ap length e, long)) in
      (
        record {
          inner = r';
          little = f.little;
          nanos = f.nanos;
          linktype = f.linktype;
          iface = iface;
        },
        ground (arith, got, e, link, magic),
        (clean', left ∙ ap (drop 24) e ∙ after),
        refl,
      )

  -- A reader that does not fail and whose bytes are a pcap file, in either byte order and with either
  -- resolution, opens as a stream. Its calls of `next_packet` give the packets that the parser finds
  -- in the frames, in order and with the times of the records, and then the end, however the bytes
  -- are cut into arrivals.
  pub drain-put_file :
      (f : File) (r : Reader E) (iface : ℕ)
      → Clean r
      → bytes r ≡ put_file f
      → f.linktype < 2 ^ 32
      → All IsRecord f.records
      → let n = suc (length f.records) in
        (s : PcapStream E) × (s' : PcapStream E) × (new fmt r iface ≡ ok s)
        × (drain n n s ≡ (packets_of f.linktype f.nanos iface f.records, ended s'))
  drain-put_file f r iface clean e h ok_recs =
      let (s, opened, at, same) = new-put_file f r iface clean e h in
      let (s', drained) =
        drain-At (suc (length f.records)) (suc (length f.records)) s f.records _ at ok_recs
          (omega arith) (omega (arith, length-packets_of-le f.linktype f.nanos iface f.records))
          same in
      (s, s', opened, drained)

-- ===== src/Capture/Source/Given.antt =====
-- What the sources of l4scope/crates/l4scope-capture/src/lib.rs give: the records of a pcap file, and the
-- packets of a script.
use network_l4_monitoring_co.Base.{
  ℕ, zero, suc, ◌+◌, ◌≤◌, ◌<◌, ◌≡◌, ap, Bool, true, false, List, [], ◌∷◌, none, some, Option-cases,
  inl, inr, drop, length, length-append, get_elem?, All, arith,
}
use network_l4_monitoring_co.Core.Float.{Fmt}
use network_l4_monitoring_co.Core.Types.{PacketMeta}
use network_l4_monitoring_co.Core.Error.{ok}
use network_l4_monitoring_co.Capture.Reader.{Reader, chunk, interrupted, failed}
use network_l4_monitoring_co.Capture.Reader.Bytes.{bytes}
use network_l4_monitoring_co.Capture.Pcap
use network_l4_monitoring_co.Capture.Pcap.{PcapStream, Turn, packet, ended, error, panicked, again}
use network_l4_monitoring_co.Capture.Pcap.Format.{Record, IsRecord, put_records, packets_of}
use network_l4_monitoring_co.Capture.Pcap.Next.{At, next_packet-Gives}
use network_l4_monitoring_co.Capture.Pcap.Returns.{size, Returned, next_packet-Returned}
use network_l4_monitoring_co.Capture.Synthetic
use network_l4_monitoring_co.Capture.Synthetic.Drain.{drop-get_elem, drop-get_none}
use network_l4_monitoring_co.Capture.Source.{
  PcapSource, Source, synthetic, pcap, reply, next_in_stream, next_packet,
}
use network_l4_monitoring_co.Capture.Source.Total.{given, script_packet, script_end}

length-records :
    (little : Bool) (recs : List Record) → length recs ≤ length (put_records little recs)
length-records little [] = omega arith
length-records true (rec ∷ recs) =
    omega (arith, length-append rec.frame (put_records true recs), length-records true recs)
length-records false (rec ∷ recs) =
    omega (arith, length-append rec.frame (put_records false recs), length-records false recs)

length-bytes : {E : Type 0} (r : Reader E) → length (bytes r) ≤ size r
length-bytes [] = omega arith
length-bytes (chunk bs ∷ r) = omega (arith, length-append bs (bytes r), length-bytes r)
length-bytes (interrupted ∷ r) = omega (arith, length-bytes r)
length-bytes (failed e ∷ r) = omega (arith, length-bytes r)

module _ {E F : Type 0} (fmt : Fmt F) where
  reply-packet :
      (k : ℕ) (t : Turn E) (h : Returned fmt k t) (p : PacketMeta) (s : PcapStream E)
      → t ≡ packet p s
      → reply fmt k t h ≡ ok (some p, s)
  unfolding reply
  reply-packet k (packet q u) h p s e = ground (arith, e)
  reply-packet k (ended u) h p s e = absurd (cc)
  reply-packet k (error u) h p s e = absurd (cc)
  reply-packet k panicked h p s e = absurd h
  reply-packet k (again u) h p s e = absurd h

  reply-ended :
      (k : ℕ) (t : Turn E) (h : Returned fmt k t) (s : PcapStream E)
      → t ≡ ended s
      → reply fmt k t h ≡ ok (none, s)
  unfolding reply
  reply-ended k (packet q u) h s e = absurd (cc)
  reply-ended k (ended u) h s e = ground (arith, e)
  reply-ended k (error u) h s e = absurd (cc)
  reply-ended k panicked h s e = absurd h
  reply-ended k (again u) h s e = absurd h

  pub enough_turns :
      (s : PcapStream E) (recs : List Record) → At fmt s recs → length recs < suc (size s.inner)
  enough_turns s recs (clean, e) =
      omega (arith, length-records s.little recs, length-bytes s.inner, ap length e)

  -- A source whose reader has these records to come gives their packets, and then ends.
  pub given-At :
      {C : Type 0} (n : ℕ) (s : PcapSource E C) (recs : List Record) (ps : List PacketMeta)
      → At fmt s.stream recs
      → All IsRecord recs
      → length ps < n
      → packets_of s.stream.linktype s.stream.nanos s.stream.iface recs ≡ ps
      → given fmt n (pcap s) ≡ ps
  unfolding given next_packet next_in_stream
  given-At zero s recs ps at ok_recs calls e = absurd (omega arith)
  given-At (suc n) s recs [] at ok_recs calls e =
      let st = s.stream in
      let fuel = suc (size st.inner) in
      let (r, t) =
        (next_packet-Gives fmt recs st fuel at ok_recs (enough_turns st recs at)).at_end e in
      let got =
        reply-ended (size st.inner) (Pcap.next_packet fmt fuel st)
          (next_packet-Returned fmt fuel st (omega arith)) (record st { inner = r }) t in
      ground (arith, got)
  given-At (suc n) s recs (p ∷ ps) at ok_recs calls e =
      let st = s.stream in
      let fuel = suc (size st.inner) in
      let (r, recs', t, rest, at', ok', short) =
        (next_packet-Gives fmt recs st fuel at ok_recs (enough_turns st recs at)).at_packet p ps
          e in
      let got =
        reply-packet (size st.inner) (Pcap.next_packet fmt fuel st)
          (next_packet-Returned fmt fuel st (omega arith)) p (record st { inner = r }) t in
      let s' = record s { stream = record st { inner = r } } in
      ground (arith, got, given-At n s' recs' ps at' ok' (omega arith) rest)

-- A script gives the packets that are left of it.
pub given-script :
    (E C : Type 0) {F : Type 0} (fmt : Fmt F) (n : ℕ) (s : Synthetic.SyntheticSource)
    → length (drop s.idx s.packets) < n
    → let src : Source E C = synthetic s in given fmt n src ≡ drop s.idx s.packets
unfolding given next_packet
given-script E C fmt zero s h = absurd (omega arith)
given-script E C fmt (suc n) s h = elim (Option-cases (get_elem? s.packets s.idx)) [
  | inl e ↦ ground (arith, script_end s e, drop-get_none s.packets s.idx e)
  | inr (p, e) ↦
      let rest = drop-get_elem s.packets s.idx p e in
      ground (
        arith,
        script_packet s p e,
        rest,
        given-script E C fmt n (record s { idx = s.idx + 1 }) (omega (arith, h, ap length rest)),
      )
]

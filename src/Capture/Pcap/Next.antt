-- ===== src/Capture/Pcap/Next.antt =====
-- One call of `next_packet` of pcapio.rs, before records in the format that it reads.
use network_l4_monitoring_co.Base.{
  ℕ, zero, suc, ◌≤◌, ◌<◌, ◌≡◌, sym, ap, ◌∙◌, List, [], ◌∷◌, ◌++◌, length, take, drop, All, arith,
  inl, inr, ◌≢◌, take-length-append, drop-length-append, length-append,
}
use network_l4_monitoring_co.Core.Float.{Fmt}
use network_l4_monitoring_co.Core.Types.{PacketMeta}
use network_l4_monitoring_co.Capture.Bytes.{Outcome-cases}
use network_l4_monitoring_co.Capture.Parse.{parse_frame}
use network_l4_monitoring_co.Capture.Parse.Safety.{parse_frame-ne-panic}
use network_l4_monitoring_co.Capture.Reader.{Reader, read_full}
use network_l4_monitoring_co.Capture.Reader.Bytes.{
  bytes, Clean, fill-Filled, read_full_opt-some, read_full_opt-none,
}
use network_l4_monitoring_co.Capture.Pcap.{
  PcapStream, Turn, packet, ended, of_outcome, read_record, turn, next_packet,
}
use network_l4_monitoring_co.Capture.Pcap.Format.{
  Record, IsRecord, put_record_header, put_records, time_in, packets_of, record_fields,
  record_header_parts, time_of-time_in,
}

nil-ne-cons {ℓ} : {A : Type ℓ} {x : A} {xs : List A} → [] ≢ (x ∷ xs)
nil-ne-cons h = cc

module _ {E F : Type 0} (fmt : Fmt F) where
  -- The reader of the stream has exactly these records to come.
  abbrev pub At : PcapStream E → List Record → Type 0
  At s recs = Clean s.inner × (bytes s.inner ≡ put_records s.little recs)

  read_record_lem :
      (s : PcapStream E) (rec : Record) (recs : List Record) (r : Reader E)
      → IsRecord rec
      → Clean r
      → bytes r ≡ rec.frame ++ put_records s.little recs
      → (r' : Reader E) × (read_record fmt s
            (take 16 (put_record_header s.little rec (rec.frame ++ put_records s.little recs)))
            r
          ≡ of_outcome
              (record s { inner = r' })
              (parse_frame s.linktype rec.frame (time_in s.nanos rec) s.iface))
        × Clean r'
        × (bytes r' ≡ put_records s.little recs)
  unfolding read_record read_full
  read_record_lem s rec recs r ok_rec c e =
      let rest = put_records s.little recs in
      let (sec, frac, len) = record_fields s.little rec (rec.frame ++ rest) ok_rec in
      let (r', got, left, clean) =
        fill-Filled "unexpected end of pcap stream" (length rec.frame) r c
          (omega (arith, ap length e, length-append rec.frame rest)) in
      let frame : take (length rec.frame) (bytes r) ≡ rec.frame =
        rw e (take-length-append rec.frame rest) in
      (
        r',
        ground (
          arith,
          sec,
          frac,
          len,
          got,
          frame,
          ok_rec.plausible,
          time_of-time_in s.nanos rec ok_rec,
        ),
        clean,
        left ∙ rw e (drop-length-append rec.frame rest),
      )

  turn_record :
      (s : PcapStream E) (rec : Record) (recs : List Record)
      → IsRecord rec
      → At s (rec ∷ recs)
      → (r : Reader E) × (turn fmt s
          ≡ of_outcome
              (record s { inner = r })
              (parse_frame s.linktype rec.frame (time_in s.nanos rec) s.iface))
        × Clean r
        × (bytes r ≡ put_records s.little recs)
  unfolding turn
  turn_record s rec recs ok_rec (c, e) =
      let all = put_record_header s.little rec (rec.frame ++ put_records s.little recs) in
      let (after, long) =
        record_header_parts s.little rec (rec.frame ++ put_records s.little recs) in
      let (r, got, left, clean) =
        read_full_opt-some 16 s.inner c (omega arith) (omega (arith, ap length e, long)) in
      let (r', read, clean', left') =
        read_record_lem s rec recs r ok_rec clean (left ∙ ap (drop 16) e ∙ after) in
      (r', ground (arith, got, e, read), clean', left')

  turn_end :
      (s : PcapStream E) → At s [] → (r : Reader E) × (turn fmt s ≡ ended (record s { inner = r }))
  unfolding turn
  turn_end s (c, e) =
      let (r, got, left) = read_full_opt-none 15 s.inner c e in (r, ground (arith, got))

  -- What `next_packet` returns before these records: the first packet among them, or the end.
  pub record Gives (s : PcapStream E) (recs : List Record) (t : Turn E) : Type 0 where
    pub at_end :
        packets_of s.linktype s.nanos s.iface recs ≡ []
        → (r : Reader E) × (t ≡ ended (record s { inner = r }))
    pub at_packet :
        (p : PacketMeta) (ps : List PacketMeta)
        → packets_of s.linktype s.nanos s.iface recs ≡ p ∷ ps
        → (r : Reader E) × (recs' : List Record) × (t ≡ packet p (record s { inner = r }))
          × (packets_of s.linktype s.nanos s.iface recs' ≡ ps)
          × At (record s { inner = r }) recs'
          × All IsRecord recs'
          × (length recs' ≤ length recs)

  pub next_packet-Gives :
      (recs : List Record) (s : PcapStream E) (fuel : ℕ)
      → At s recs
      → All IsRecord recs
      → length recs < fuel
      → Gives s recs (next_packet fmt fuel s)
  unfolding next_packet
  next_packet-Gives recs s zero at ok_recs enough = absurd (omega arith)
  next_packet-Gives [] s (suc fuel) at ok_recs enough =
      let (r, e) = turn_end s at in
      record { at_end = λ h. (r, ground (arith, e)); at_packet = λ p ps h. absurd (nil-ne-cons h) }
  next_packet-Gives (rec ∷ recs) s (suc fuel) at ok_recs enough =
      let (r, e, clean, left) = turn_record s rec recs ok_recs.0 at in
      let s' : PcapStream E = record s { inner = r } in
      let frame = parse_frame s.linktype rec.frame (time_in s.nanos rec) s.iface in
      elim (Outcome-cases frame (parse_frame-ne-panic s.linktype rec.frame _ s.iface)) [
        | inl (p0, parsed) ↦
            let stop : next_packet fmt (suc fuel) s ≡ packet p0 s' = ground (arith, e, parsed) in
            record {
              at_end = λ h. absurd (ground (arith, h, parsed));
              at_packet = λ p ps h. (
                r,
                recs,
                ground (arith, stop, parsed, h),
                ground (arith, parsed, h),
                (clean, left),
                ok_recs.1,
                omega arith,
              );
            }
        | inr skipped ↦
            let go_on : next_packet fmt (suc fuel) s ≡ next_packet fmt fuel s' =
              ground (arith, e, skipped) in
            let same : packets_of s.linktype s.nanos s.iface (rec ∷ recs)
                ≡ packets_of s.linktype s.nanos s.iface recs =
              ground (arith, skipped) in
            let ih = next_packet-Gives recs s' fuel (clean, left) ok_recs.1 (omega arith) in
            record {
              at_end = λ h. let (r', t) = ih.at_end (sym same ∙ h) in (r', go_on ∙ t);
              at_packet = λ p ps h.
                  let (r', recs', t, rest, at', ok', short) = ih.at_packet p ps (sym same ∙ h) in
                  (r', recs', go_on ∙ t, rest, at', ok', omega arith);
            }
      ]

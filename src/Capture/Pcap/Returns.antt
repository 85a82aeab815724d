-- ===== src/Capture/Pcap/Returns.antt =====
-- `next_packet` of pcapio.rs returns, whatever the reader does, and does not panic.
use network_l4_monitoring_co.Base.{
  Bool-cases, inl, inr, ltb, refl, ◌≢◌, ℕ, zero, suc, ◌+◌, ◌-◌, ◌≤◌, ◌<◌, String, List, [], ◌∷◌,
  Option, none, some, arith, length, drop, length-drop,
}
use network_l4_monitoring_co.Core.Float.{Fmt}
use network_l4_monitoring_co.Core.Error.{Result, ok, err, ◌>>=◌}
use network_l4_monitoring_co.Core.Types.{PacketMeta}
use network_l4_monitoring_co.Capture.Bytes.{Outcome, found, nothing, panic}
use network_l4_monitoring_co.Capture.Parse.{parse_frame}
use network_l4_monitoring_co.Capture.Parse.Safety.{parse_frame-ne-panic}
use network_l4_monitoring_co.Capture.Reader.{
  chunk, interrupted, failed, Reader, put_back, join, fill, read_full, read_full_opt,
}
use network_l4_monitoring_co.Capture.Pcap.{
  PcapStream, Turn, packet, ended, error, panicked, again, read_record, turn, next_packet,
  of_outcome, of_result, read_u32,
}

-- The arrivals and the bytes that a reader has left.
abbrev pub size : {E : Type 0} → Reader E → ℕ
size [] = 0
size (chunk bs ∷ r) = suc (length bs + size r)
size (interrupted ∷ r) = suc (size r)
size (failed e ∷ r) = suc (size r)

abbrev AtMost : {E A : Type 0} → ℕ → Result E (A × Reader E) → Type 0
AtMost k (ok (a, r)) = size r ≤ k
AtMost k (err e) = Unit

module _ {E : Type 0} where
  size-put_back : (bs : List ℕ) (r : Reader E) → size (put_back bs r) ≤ suc (length bs + size r)
  size-put_back [] r = omega arith
  size-put_back (b ∷ bs) r = omega arith

  AtMost-join :
      (k : ℕ) (bs : List ℕ) (res : Result E (List ℕ × Reader E))
      → AtMost k res
      → AtMost k (join bs res)
  AtMost-join k bs (ok (cs, r)) h = h
  AtMost-join k bs (err e) h = h

  AtMost-le :
      {A : Type 0} (j k : ℕ) (res : Result E (A × Reader E)) → j ≤ k → AtMost j res → AtMost k res
  AtMost-le j k (ok (a, r)) le h = omega arith
  AtMost-le j k (err e) le h = tt

  -- An arrival that is read from becomes smaller, if what follows does not grow.
  chunk-AtMost :
      (why : String) (n b : ℕ) (bs : List ℕ) (r : Reader E)
      → AtMost (size r) (fill why (n - length bs) r)
      → AtMost (suc (length bs) + size r) (fill why (suc n) (chunk (b ∷ bs) ∷ r))
  unfolding fill
  chunk-AtMost why n b bs r h = ground (
    arith,
    AtMost-join (size r) (b ∷ bs) (fill why (n - length bs) r) h,
    AtMost-le (size r) (suc (length bs) + size r) (join (b ∷ bs) (fill why (n - length bs) r))
        (omega arith),
    size-put_back (drop n bs) r,
    length-drop n bs,
  )

  fill-AtMost : (why : String) (n : ℕ) (r : Reader E) → AtMost (size r) (fill why n r)
  unfolding fill
  fill-AtMost why zero r = omega arith
  fill-AtMost why (suc n) [] = tt
  fill-AtMost why (suc n) (chunk [] ∷ r) = tt
  fill-AtMost why (suc n) (failed e ∷ r) = tt
  fill-AtMost why (suc n) (interrupted ∷ r) =
      AtMost-le (size r) (suc (size r)) (fill why (suc n) r) (omega arith)
        (fill-AtMost why (suc n) r)
  fill-AtMost why (suc n) (chunk (b ∷ bs) ∷ r) =
      AtMost-le (suc (length bs) + size r) _ (fill why (suc n) (chunk (b ∷ bs) ∷ r)) (omega arith)
        (chunk-AtMost why n b bs r (fill-AtMost why (n - length bs) r))

  -- A record header that was read has made the reader smaller.
  abbrev Smaller : ℕ → Result E (Option (List ℕ) × Reader E) → Type 0
  Smaller k (ok (none, r)) = Unit
  Smaller k (ok (some bs, r)) = size r < k
  Smaller k (err e) = Unit

  AtMost-Smaller :
      (k : ℕ) (res : Result E (List ℕ × Reader E))
      → AtMost k res
      → Smaller (suc k) (res >>= λ (got, r). ok (some got, r))
  AtMost-Smaller k (ok (bs, r)) h = omega arith
  AtMost-Smaller k (err e) h = tt

  Smaller-le :
      (j k : ℕ) (res : Result E (Option (List ℕ) × Reader E))
      → j ≤ k
      → Smaller j res
      → Smaller k res
  Smaller-le j k (ok (none, r)) le h = tt
  Smaller-le j k (ok (some bs, r)) le h = omega arith
  Smaller-le j k (err e) le h = tt

  read_full_opt-Smaller : (n : ℕ) (r : Reader E) → Smaller (size r) (read_full_opt (suc n) r)
  unfolding read_full_opt
  read_full_opt-Smaller n [] = tt
  read_full_opt-Smaller n (chunk [] ∷ r) = tt
  read_full_opt-Smaller n (failed e ∷ r) = tt
  read_full_opt-Smaller n (interrupted ∷ r) =
      Smaller-le (size r) (suc (size r)) (read_full_opt (suc n) r) (omega arith)
        (read_full_opt-Smaller n r)
  read_full_opt-Smaller n (chunk (b ∷ bs) ∷ r) =
      AtMost-Smaller (suc (length bs) + size r)
        (fill "truncated pcap record header" (suc n) (chunk (b ∷ bs) ∷ r))
        (chunk-AtMost "truncated pcap record header" n b bs r
          (fill-AtMost "truncated pcap record header" (n - length bs) r))

module _ {E F : Type 0} (fmt : Fmt F) where
  -- A turn that goes on or gives a packet leaves a reader smaller than `k`, and no turn panics.
  abbrev Progress : ℕ → Turn E → Type 0
  Progress k (packet p s) = size s.inner < k
  Progress k (ended s) = Unit
  Progress k (error e) = Unit
  Progress k panicked = ⊥
  Progress k (again s) = size s.inner < k

  outcome-Progress :
      (k : ℕ) (s : PcapStream E) (o : Outcome PacketMeta)
      → o ≢ panic
      → size s.inner < k
      → Progress k (of_outcome s o)
  outcome-Progress k s (found p) safe h = h
  outcome-Progress k s nothing safe h = h
  outcome-Progress k s panic safe h = absurd (safe refl)

  frame-Progress :
      (j k : ℕ) (s : PcapStream E) (ts : ℕ) (res : Result E (List ℕ × Reader E))
      → j < k
      → AtMost j res
      → Progress k (
          of_result res
            λ (buf, r). of_outcome (record s { inner = r }) (parse_frame s.linktype buf ts s.iface))
  frame-Progress j k s ts (ok (buf, r)) lt h =
      outcome-Progress k (record s { inner = r }) (parse_frame s.linktype buf ts s.iface)
        (parse_frame-ne-panic s.linktype buf ts s.iface) (omega arith)
  frame-Progress j k s ts (err e) lt h = tt

  read_record-Progress :
      (k : ℕ) (s : PcapStream E) (rec : List ℕ) (r : Reader E)
      → size r < k
      → Progress k (read_record fmt s rec r)
  unfolding read_record read_full
  read_record-Progress k s rec r lt =
      let incl_len = read_u32 rec 8 s.little in
      elim (Bool-cases (ltb 262_144 incl_len)) [
        | inl long ↦ rw (long, Progress) tt
        | inr short ↦
            rw (short, Progress)
              (frame-Progress (size r) k s _ (fill "unexpected end of pcap stream" incl_len r) lt
                (fill-AtMost _ incl_len r))
      ]

  header-Progress :
      (k : ℕ) (s : PcapStream E) (res : Result E (Option (List ℕ) × Reader E))
      → Smaller k res
      → Progress k (
          of_result res λ (got, r). elim got [
            | none ↦ ended (record s { inner = r })
            | some rec ↦ read_record fmt s rec r
          ])
  header-Progress k s (ok (none, r)) h = tt
  header-Progress k s (ok (some rec, r)) h = read_record-Progress k s rec r h
  header-Progress k s (err e) h = tt

  turn-Progress : (s : PcapStream E) → Progress (size s.inner) (turn fmt s)
  unfolding turn
  turn-Progress s =
      header-Progress (size s.inner) s (read_full_opt 16 s.inner) (read_full_opt-Smaller 15 s.inner)

  -- The call has returned, and after a packet the reader is smaller than `k`.
  abbrev pub Returned : ℕ → Turn E → Type 0
  Returned k (packet p s) = size s.inner < k
  Returned k (ended s) = Unit
  Returned k (error e) = Unit
  Returned k panicked = ⊥
  Returned k (again s) = ⊥

  Returned-le : (j k : ℕ) (t : Turn E) → j ≤ k → Returned j t → Returned k t
  Returned-le j k (packet p s) le h = omega arith
  Returned-le j k (ended s) le h = tt
  Returned-le j k (error e) le h = tt
  Returned-le j k panicked le h = h
  Returned-le j k (again s) le h = h

  go_on-Returned :
      (k fuel : ℕ) (t : Turn E)
      → Progress k t
      → ((s : PcapStream E) → size s.inner < k → Returned (size s.inner) (next_packet fmt fuel s))
      → Returned k (elim t [ again s ↦ next_packet fmt fuel s | u ↦ u ])
  go_on-Returned k fuel (packet p s) h ih = h
  go_on-Returned k fuel (ended s) h ih = tt
  go_on-Returned k fuel (error e) h ih = tt
  go_on-Returned k fuel panicked h ih = h
  go_on-Returned k fuel (again s) h ih =
      Returned-le (size s.inner) k (next_packet fmt fuel s) (omega arith) (ih s h)

  -- Whatever the reader does, `next_packet` returns a packet, the end or an error, and does not
  -- panic, within one turn more than the reader has arrivals and bytes; after a packet the reader
  -- has fewer of these left.
  pub next_packet-Returned :
      (fuel : ℕ) (s : PcapStream E)
      → size s.inner < fuel
      → Returned (size s.inner) (next_packet fmt fuel s)
  unfolding next_packet
  next_packet-Returned zero s h = absurd (omega arith)
  next_packet-Returned (suc fuel) s h =
      go_on-Returned (size s.inner) fuel (turn fmt s) (turn-Progress s)
        (λ s' lt. next_packet-Returned fuel s' (omega arith))

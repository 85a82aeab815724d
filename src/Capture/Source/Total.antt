-- ===== src/Capture/Source/Total.antt =====
-- The sources of l4scope/crates/l4scope-capture/src/lib.rs: how many calls have a packet.
use network_l4_monitoring_co.Base.{
  ℕ, zero, suc, ◌+◌, ◌<◌, ◌≡◌, ap, List, [], ◌∷◌, Option, none, some, Option-cases, inl, inr, drop,
  length, get_elem?, arith,
}
use network_l4_monitoring_co.Core.Float.{Fmt}
use network_l4_monitoring_co.Core.Types.{PacketMeta}
use network_l4_monitoring_co.Core.Error.{Result, ok, err, ◌>>=◌}
use network_l4_monitoring_co.Capture.Pcap
use network_l4_monitoring_co.Capture.Pcap.{PcapStream, Turn, packet, ended, error, panicked, again}
use network_l4_monitoring_co.Capture.Pcap.Returns.{size, Returned}
use network_l4_monitoring_co.Capture.Synthetic
use network_l4_monitoring_co.Capture.Synthetic.Drain.{drop-get_elem}
use network_l4_monitoring_co.Capture.Source.{
  PcapSource, Source, synthetic, pcap, reply, next_in_stream, next_packet,
}

-- A bound of the packets that a source has left.
abbrev pub left : {E C : Type 0} → Source E C → ℕ
left (synthetic s) = length (drop s.idx s.packets)
left (pcap s) = size s.stream.inner

-- The two results of a call of a script.
pub script_packet :
    (s : Synthetic.SyntheticSource) (p : PacketMeta)
    → get_elem? s.packets s.idx ≡ some p
    → Synthetic.next_packet s ≡ (some p, record s { idx = s.idx + 1 })
unfolding Synthetic.next_packet
script_packet s p e = ground (arith, e)

pub script_end :
    (s : Synthetic.SyntheticSource)
    → get_elem? s.packets s.idx ≡ none
    → Synthetic.next_packet s ≡ (none, s)
unfolding Synthetic.next_packet
script_end s e = ground (arith, e)

-- A result with a packet, after which fewer are left.
abbrev pub Shrinks : {E S : Type 0} → (S → ℕ) → ℕ → Result E (Option PacketMeta × S) → Type 0
Shrinks m k (ok (some p, s)) = m s < k
Shrinks m k (ok (none, s)) = Unit
Shrinks m k (err e) = Unit

synthetic-Shrinks :
    (E C : Type 0) (s : Synthetic.SyntheticSource)
    → let (p, s') = Synthetic.next_packet s in
      Shrinks {E = E}
        (left {E = E} {C = C})
        (left {E = E} {C = C} (synthetic s))
        (ok (p, synthetic s'))
synthetic-Shrinks E C s = elim (Option-cases (get_elem? s.packets s.idx)) [
  | inl e ↦ rw (script_end s e) tt
  | inr (p, e) ↦
      rw (script_packet s p e) (omega (arith, ap length (drop-get_elem s.packets s.idx p e)))
]

module _ {E F : Type 0} (fmt : Fmt F) where
  reply-Shrinks :
      (k : ℕ) (t : Turn E) (h : Returned fmt k t)
      → Shrinks (λ (s : PcapStream E). size s.inner) k (reply fmt k t h)
  unfolding reply
  reply-Shrinks k (packet p s) h = h
  reply-Shrinks k (ended s) h = tt
  reply-Shrinks k (error e) h = tt
  reply-Shrinks k panicked h = absurd h
  reply-Shrinks k (again s) h = absurd h

  next_in_stream-Shrinks :
      (s : PcapStream E)
      → Shrinks (λ (s : PcapStream E). size s.inner) (size s.inner) (next_in_stream fmt s)
  unfolding next_in_stream
  next_in_stream-Shrinks s = reply-Shrinks (size s.inner) (Pcap.next_packet fmt _ s) _

  in_source-Shrinks :
      {C : Type 0} (s : PcapSource E C) (k : ℕ) (res : Result E (Option PacketMeta × PcapStream E))
      → Shrinks (λ (s : PcapStream E). size s.inner) k res
      → Shrinks
          (left {E = E} {C = C})
          k
          (res >>= λ (p, stream). ok (p, pcap (record s { stream = stream })))
  in_source-Shrinks s k (ok (some p, t)) h = h
  in_source-Shrinks s k (ok (none, t)) h = tt
  in_source-Shrinks s k (err e) h = tt

  pub next_packet-Shrinks :
      {C : Type 0} (s : Source E C) → Shrinks (left {E = E} {C = C}) (left s) (next_packet fmt s)
  unfolding next_packet
  next_packet-Shrinks {C} (synthetic s) = synthetic-Shrinks E C s
  next_packet-Shrinks {C} (pcap s) =
      in_source-Shrinks s (size s.stream.inner) (next_in_stream fmt s.stream)
        (next_in_stream-Shrinks s.stream)

  -- The packets of at most `n` calls, up to the end of the stream or an error.
  unfoldable pub given : {C : Type 0} → ℕ → Source E C → List PacketMeta
  given zero s = []
  given (suc n) s = elim (next_packet fmt s) [ ok (some p, s') ↦ p ∷ given n s' | other ↦ [] ]

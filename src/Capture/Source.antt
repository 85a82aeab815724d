-- ===== src/Capture/Source.antt =====
-- l4scope/crates/l4scope-capture/src/lib.rs: the sources of packets. `E` is `std::io::Error`, `C` is
-- `std::process::Child`.
pub mod Live
pub mod Open
pub mod Total
pub mod Given
use network_l4_monitoring_co.Base.{
  ℕ, suc, ◌≡◌, refl, String, List, [], ◌∷◌, Option, none, some, ◌⊎◌, inl, inr, Bool, arith,
}
use network_l4_monitoring_co.Core.Float.{Fmt}
use network_l4_monitoring_co.Core.Types.{PacketMeta}
use network_l4_monitoring_co.Core.Error.{Error, Result, ok, err, ◌>>=◌}
use network_l4_monitoring_co.Capture.Reader.{Reader}
use network_l4_monitoring_co.Capture.Pcap
use network_l4_monitoring_co.Capture.Pcap.{PcapStream, Turn, packet, ended, error, panicked, again}
use network_l4_monitoring_co.Capture.Pcap.Returns.{size, Returned, next_packet-Returned}
use network_l4_monitoring_co.Capture.Synthetic
use network_l4_monitoring_co.Capture.Synthetic.{SyntheticSource}

-- What the sources use of the operating system. A reader is the script of the buffered reader that
-- is put around a file, or around the output of a child.
pub record System (E C : Type 0) : Type 0 where
  pub open_file : String → E ⊎ Reader E
  pub spawn : String → List String → E ⊎ C
  pub stdout : C → Option (Reader E)
  pub other : String → E
  pub show_io : E → String
  pub windows : Bool

pub record PcapSource (E C : Type 0) : Type 0 where
  pub name : String
  pub stream : PcapStream E
  pub child : Option C

-- The implementations of `CaptureSource` in a build without optional features.
pub data Source (E C : Type 0) : Type 0 where
  synthetic : SyntheticSource → Source E C
  pcap : PcapSource E C → Source E C

module _ {E F : Type 0} (fmt : Fmt F) where
  unfoldable pub from_reader :
      {C : Type 0} → String → Reader E → ℕ → Option C → Result E (PcapSource E C)
  from_reader name reader iface child = do
    stream ← Pcap.new fmt reader iface
    ok (record { name = name; stream = stream; child = child })

  -- A call that has returned has a packet, no packet, or an error as its result.
  unfoldable pub reply :
      (k : ℕ) (t : Turn E) → Returned fmt k t → Result E (Option PacketMeta × PcapStream E)
  reply k (packet p s) h = ok (some p, s)
  reply k (ended s) h = ok (none, s)
  reply k (error e) h = err e
  reply k panicked h = absurd h
  reply k (again s) h = absurd h

  -- The loop gets one turn more than the reader has arrivals and bytes, with which it returns.
  unfoldable pub next_in_stream : PcapStream E → Result E (Option PacketMeta × PcapStream E)
  unfolding reply
  next_in_stream s =
      let fuel = suc (size s.inner) in
      reply (size s.inner) (Pcap.next_packet fmt fuel s)
        (next_packet-Returned fmt fuel s (omega arith))

  unfoldable pub next_packet : {C : Type 0} → Source E C → Result E (Option PacketMeta × Source E C)
  unfolding next_in_stream
  next_packet (synthetic s) = let (p, s') = Synthetic.next_packet s in ok (p, synthetic s')
  next_packet (pcap s) = do
    (p, stream) ← next_in_stream s.stream
    ok (p, pcap (record s { stream = stream }))

unfoldable pub source_name : {E C : Type 0} → Source E C → String
source_name (synthetic s) = "synthetic"
source_name (pcap s) = s.name

-- The processes that dropping a source kills and waits for.
unfoldable pub killed_on_drop : {E C : Type 0} → Source E C → List C
killed_on_drop (synthetic s) = []
killed_on_drop (pcap s) = elim s.child [ none ↦ [] | some child ↦ child ∷ [] ]

-- ===== src/Capture/Pcap.antt =====
-- l4scope/crates/l4scope-capture/src/pcapio.rs: the reader of a pcap stream.
pub mod Format
pub mod Next
pub mod Replay
pub mod Returns
use network_l4_monitoring_co.Base.{
  ℕ, zero, suc, ◌+◌, ◌*◌, ◌-◌, ◌^◌, Bool, true, false, List, Option, none, some, ltb, ◌==◌,
  if◌then◌else◌, get_or,
}
use Prim.Native.Nat.{min}
use Prim.Native.String.{◌++◌}
use network_l4_monitoring_co.Core.Float.{Fmt}
use network_l4_monitoring_co.Core.Types.{PacketMeta}
use network_l4_monitoring_co.Core.Error.{Error, parse, Result, ok, err, ◌>>=◌}
use network_l4_monitoring_co.Capture.Bytes.{Outcome, found, nothing, panic}
use network_l4_monitoring_co.Capture.Parse.{parse_frame}
use network_l4_monitoring_co.Capture.Reader.{Reader, read_full, read_full_opt}

abbrev pub magic_us_le : ℕ
magic_us_le = 0xa1b2c3d4

abbrev pub magic_us_be : ℕ
magic_us_be = 0xd4c3b2a1

abbrev pub magic_ns_le : ℕ
magic_ns_le = 0xa1b23c4d

abbrev pub magic_ns_be : ℕ
magic_ns_be = 0x4d3cb2a1

pub record PcapStream (E : Type 0) : Type 0 where
  pub inner : Reader E
  pub little : Bool
  pub nanos : Bool
  pub linktype : ℕ
  pub iface : ℕ

-- The four bytes from an offset of a buffer that has them.
unfoldable pub read_u32 : List ℕ → ℕ → Bool → ℕ
read_u32 b i little =
    let b0 = get_or b i 0 in
    let b1 = get_or b (i + 1) 0 in
    let b2 = get_or b (i + 2) 0 in
    let b3 = get_or b (i + 3) 0 in
    if little
    then b0 + b1 * 256 + b2 * 0x10000 + b3 * 0x1000000
    else b0 * 0x1000000 + b1 * 0x10000 + b2 * 256 + b3

-- The byte order and the resolution that a magic number stands for.
unfoldable pub variant : ℕ → Option (Bool × Bool)
variant magic =
    if magic == magic_us_le
    then some (true, false)
    else if magic == magic_us_be
    then some (false, false)
    else if magic == magic_ns_le
    then some (true, true)
    else if magic == magic_ns_be
    then some (false, true)
    else none

unfoldable pub new : {E F : Type 0} → Fmt F → Reader E → ℕ → Result E (PcapStream E)
unfolding read_u32 variant
new fmt r iface = do
  (hdr, r') ← read_full 24 r
  let magic = read_u32 hdr 0 true
  elim (variant magic) [
    | none ↦ err (parse ("not a pcap stream (magic " ++ fmt.show_hex magic ++ ")"))
    | some (little, nanos) ↦ ok (record {
      inner = r';
      little = little;
      nanos = nanos;
      linktype = read_u32 hdr 20 little;
      iface = iface;
    })
  ]

abbrev pub saturating_add64 : ℕ → ℕ → ℕ
saturating_add64 a b = min (a + b) (2 ^ 64 - 1)

abbrev pub saturating_mul64 : ℕ → ℕ → ℕ
saturating_mul64 a b = min (a * b) (2 ^ 64 - 1)

unfoldable pub time_of : Bool → ℕ → ℕ → ℕ
time_of nanos ts_sec ts_frac =
    saturating_add64 (saturating_mul64 ts_sec 1_000_000_000)
      (if nanos then ts_frac else ts_frac * 1_000)

-- What one turn of the loop of `next_packet` comes to: it returns, or goes on with the next record.
pub data Turn (E : Type 0) : Type 0 where
  packet : PacketMeta → PcapStream E → Turn E
  ended : PcapStream E → Turn E
  error : Error E → Turn E
  panicked : Turn E
  again : PcapStream E → Turn E

abbrev pub of_outcome : {E : Type 0} → PcapStream E → Outcome PacketMeta → Turn E
of_outcome s (found pkt) = packet pkt s
of_outcome s nothing = again s
of_outcome s panic = panicked

abbrev pub of_result : {E A : Type 0} → Result E A → (A → Turn E) → Turn E
of_result (ok a) f = f a
of_result (err e) f = error e

module _ {E F : Type 0} (fmt : Fmt F) where
  -- The record whose header is `rec`.
  unfoldable pub read_record : PcapStream E → List ℕ → Reader E → Turn E
  unfolding read_u32 time_of
  read_record s rec r =
      let ts_sec = read_u32 rec 0 s.little in
      let ts_frac = read_u32 rec 4 s.little in
      let incl_len = read_u32 rec 8 s.little in
      if ltb 262_144 incl_len
      then error (parse ("implausible record length " ++ fmt.show_nat incl_len))
      else of_result (read_full incl_len r) λ (buf, r').
        of_outcome (record s { inner = r' })
          (parse_frame s.linktype buf (time_of s.nanos ts_sec ts_frac) s.iface)

  unfoldable pub turn : PcapStream E → Turn E
  unfolding read_record
  turn s = of_result (read_full_opt 16 s.inner) λ (got, r). elim got [
    | none ↦ ended (record s { inner = r })
    | some rec ↦ read_record s rec r
  ]

  -- The loop, at most `fuel` turns of it; `again` is a loop that has not returned.
  unfoldable pub next_packet : ℕ → PcapStream E → Turn E
  next_packet zero s = again s
  next_packet (suc fuel) s = elim (turn s) [ again s' ↦ next_packet fuel s' | t ↦ t ]

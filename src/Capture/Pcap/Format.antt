-- ===== src/Capture/Pcap/Format.antt =====
-- The pcap format that pcapio.rs reads, as a writer: its two byte orders and two resolutions.
use network_l4_monitoring_co.Base.{
  ap, ◌∙◌, ℕ, ◌+◌, ◌*◌, ◌/◌, ◌%◌, ◌^◌, ◌≤◌, ◌<◌, ◌≡◌, refl, Bool, true, false, List, [], ◌∷◌, ◌++◌,
  some, if◌then◌else◌, length, take, drop, arith,
}
use network_l4_monitoring_co.Core.Types.{PacketMeta}
use network_l4_monitoring_co.Capture.Bytes.{found, nothing, panic}
use network_l4_monitoring_co.Capture.Parse.{parse_frame}
use network_l4_monitoring_co.Capture.Pcap.{read_u32, time_of, variant, magic_us_le, magic_ns_le}

abbrev pub byte : ℕ → ℕ → ℕ
byte n i = n / 256 ^ i % 256

abbrev pub put_u32 : Bool → ℕ → List ℕ → List ℕ
put_u32 true n rest = byte n 0 ∷ byte n 1 ∷ byte n 2 ∷ byte n 3 ∷ rest
put_u32 false n rest = byte n 3 ∷ byte n 2 ∷ byte n 1 ∷ byte n 0 ∷ rest

-- A record: seconds, fraction, original length, and the captured bytes.
pub record Record : Type 0 where
  pub ts_sec : ℕ
  pub ts_frac : ℕ
  pub orig_len : ℕ
  pub frame : List ℕ

pub record IsRecord (rec : Record) : Type 0 where
  pub sec_u32 : rec.ts_sec < 2 ^ 32
  pub frac_u32 : rec.ts_frac < 2 ^ 32
  pub plausible : length rec.frame ≤ 262_144

abbrev pub put_record_header : Bool → Record → List ℕ → List ℕ
put_record_header little rec rest = put_u32 little rec.ts_sec (
    put_u32 little rec.ts_frac
      (put_u32 little (length rec.frame) (put_u32 little rec.orig_len rest)))

abbrev pub put_records : Bool → List Record → List ℕ
put_records little [] = []
put_records little (rec ∷ recs) =
    put_record_header little rec (rec.frame ++ put_records little recs)

-- The number of a byte order and a resolution, as its writer has it.
abbrev pub magic_of : Bool → ℕ
magic_of nanos = if nanos then magic_ns_le else magic_us_le

-- A file: magic number, version, zone, accuracy, snapshot length, link type, records.
pub record File : Type 0 where
  pub little : Bool
  pub nanos : Bool
  pub version : ℕ
  pub thiszone : ℕ
  pub sigfigs : ℕ
  pub snaplen : ℕ
  pub linktype : ℕ
  pub records : List Record

abbrev pub put_header : File → List ℕ → List ℕ
put_header f rest = put_u32 f.little (magic_of f.nanos) (
    put_u32 f.little f.version (
      put_u32 f.little f.thiszone (
        put_u32 f.little f.sigfigs
          (put_u32 f.little f.snaplen (put_u32 f.little f.linktype rest)))))

abbrev pub put_file : File → List ℕ
put_file f = put_header f (put_records f.little f.records)

abbrev pub time_in : Bool → Record → ℕ
time_in nanos rec =
    rec.ts_sec * 1_000_000_000 + (if nanos then rec.ts_frac else rec.ts_frac * 1_000)

pub read_u32-put_u32 :
    (little : Bool) (n : ℕ) (rest : List ℕ)
    → n < 2 ^ 32
    → read_u32 (put_u32 little n rest) 0 little ≡ n
unfolding read_u32
read_u32-put_u32 true n rest h = omega arith
read_u32-put_u32 false n rest h = omega arith

-- A file header with its byte order made a variable.
header_bytes :
    (little : Bool) (m v z g n l : ℕ) (rest : List ℕ)
    → l < 2 ^ 32
    → let hdr = put_u32 little m (
        put_u32 little v
          (put_u32 little z (put_u32 little g (put_u32 little n (put_u32 little l rest))))) in
      (drop 24 hdr ≡ rest)
      × (24 ≤ length hdr)
      × (read_u32 (take 24 hdr) 20 little ≡ l)
      × (read_u32 (take 24 hdr) 0 true ≡ read_u32 (put_u32 little m []) 0 true)
unfolding read_u32
header_bytes true m v z g n l rest h = (refl, omega arith, omega arith, refl)
header_bytes false m v z g n l rest h = (refl, omega arith, omega arith, refl)

variant-magic_of :
    (little nanos : Bool)
    → variant (read_u32 (put_u32 little (magic_of nanos) []) 0 true) ≡ some (little, nanos)
unfolding variant read_u32
variant-magic_of true true = refl
variant-magic_of true false = refl
variant-magic_of false true = refl
variant-magic_of false false = refl

pub header_parts :
    (f : File) (rest : List ℕ)
    → f.linktype < 2 ^ 32
    → let hdr = take 24 (put_header f rest) in
      (drop 24 (put_header f rest) ≡ rest)
      × (24 ≤ length (put_header f rest))
      × (read_u32 hdr 20 f.little ≡ f.linktype)
      × (variant (read_u32 hdr 0 true) ≡ some (f.little, f.nanos))
header_parts f rest h =
    let (after, long, link, magic) =
      header_bytes f.little (magic_of f.nanos) f.version f.thiszone f.sigfigs f.snaplen f.linktype
        rest h in
    (after, long, link, ap variant magic ∙ variant-magic_of f.little f.nanos)

pub record_fields :
    (little : Bool) (rec : Record) (rest : List ℕ)
    → IsRecord rec
    → let hdr = take 16 (put_record_header little rec rest) in
      (read_u32 hdr 0 little ≡ rec.ts_sec)
      × (read_u32 hdr 4 little ≡ rec.ts_frac)
      × (read_u32 hdr 8 little ≡ length rec.frame)
unfolding read_u32
record_fields true rec rest r = omega (arith, r.sec_u32, r.frac_u32, r.plausible)
record_fields false rec rest r = omega (arith, r.sec_u32, r.frac_u32, r.plausible)

pub record_header_parts :
    (little : Bool) (rec : Record) (rest : List ℕ)
    → let hdr = put_record_header little rec rest in (drop 16 hdr ≡ rest) × (16 ≤ length hdr)
record_header_parts true rec rest = (refl, omega arith)
record_header_parts false rec rest = (refl, omega arith)

pub time_of-time_in :
    (nanos : Bool) (rec : Record)
    → IsRecord rec
    → time_of nanos rec.ts_sec rec.ts_frac ≡ time_in nanos rec
unfolding time_of
time_of-time_in true rec r = ground (arith, r.sec_u32, r.frac_u32)
time_of-time_in false rec r = ground (arith, r.sec_u32, r.frac_u32)

-- The packets that the frames of the records hold.
abbrev pub packets_of : ℕ → Bool → ℕ → List Record → List PacketMeta
packets_of linktype nanos iface [] = []
packets_of linktype nanos iface (rec ∷ recs) =
    let rest = packets_of linktype nanos iface recs in
    elim (parse_frame linktype rec.frame (time_in nanos rec) iface) [
      | found p ↦ p ∷ rest
      | nothing ↦ rest
      | panic ↦ rest
    ]

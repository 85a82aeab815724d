-- ===== src/Agent/Args.antt =====
-- l4scope/crates/l4scope-agent/src/main.rs: the command line and what it overrides. The text of the
-- help is output and is not modelled.
pub mod RoundTrip
use Prim.Native.String.{◌++◌}
use text.Mathlib.Text.{◌==◌ as str_eq}
use network_l4_monitoring_co.Base.{
  String, Bool, true, false, ◌||◌, ◌&&◌, not, List, [], ◌∷◌, Option, none, some, if◌then◌else◌,
}
use network_l4_monitoring_co.Base.Text.{is_empty, trim}
use network_l4_monitoring_co.Core.Config.{Backend, pcap_file, synthetic, live, ebpf, etw, Config}

pub record Args : Type 0 where
  pub config : Option String
  pub backend : Option String
  pub pcap : Option String
  pub iface : Option String
  pub live_cmd : Option String
  pub json : Option String
  pub no_metrics : Bool
  pub quiet : Bool

-- `help` prints the help and exits.
pub data Parsed (A : Type 0) : Type 0 where
  parsed : A → Parsed A
  help : Parsed A
  wrong : String → Parsed A

abbrev pub no_args : Args
no_args = record {
  config = none;
  backend = none;
  pcap = none;
  iface = none;
  live_cmd = none;
  json = none;
  no_metrics = false;
  quiet = false;
}

-- The arms that take no value; `none` for another word.
unfoldable pub take_flag : String → Args → Option Args
take_flag arg a =
    if str_eq arg "--demo"
    then some (record a { backend = some "synthetic" })
    else if str_eq arg "--no-metrics"
    then some (record a { no_metrics = true })
    else if str_eq arg "--quiet"
    then some (record a { quiet = true })
    else none

-- The arms that take the next word as their value; `none` for another word.
unfoldable pub take_value : String → String → Args → Option Args
take_value arg value a =
    if str_eq arg "--config"
    then some (record a { config = some value })
    else if str_eq arg "--backend"
    then some (record a { backend = some value })
    else if str_eq arg "--pcap"
    then some (record a { pcap = some value })
    else if str_eq arg "--iface"
    then some (record a { iface = some value })
    else if str_eq arg "--live-cmd"
    then some (record a { live_cmd = some value })
    else if str_eq arg "--json"
    then some (record a { json = some value })
    else none

abbrev pub wants_value : String → Bool
wants_value arg =
    str_eq arg "--config"
    || str_eq arg "--backend"
    || str_eq arg "--pcap"
    || str_eq arg "--iface"
    || str_eq arg "--live-cmd"
    || str_eq arg "--json"

abbrev pub unknown_argument : String → Parsed Args
unknown_argument arg = wrong ("unknown argument '" ++ arg ++ "' (try --help)")

-- The loop over the words after the name of the program.
unfoldable pub parse_args : List String → Args → Parsed Args
unfolding take_flag take_value
parse_args [] a = parsed a
parse_args (arg ∷ []) a =
    if str_eq arg "-h" || str_eq arg "--help"
    then help
    else if wants_value arg
    then wrong (arg ++ " needs a value")
    else elim (take_flag arg a) [ some b ↦ parsed b | none ↦ unknown_argument arg ]
parse_args (arg ∷ value ∷ rest) a =
    if str_eq arg "-h" || str_eq arg "--help" then help else elim (take_flag arg a) [
      | some b ↦ parse_args (value ∷ rest) b
      | none ↦ elim (take_value arg value a) [
        | some b ↦ parse_args rest b
        | none ↦ unknown_argument arg
      ]
    ]

module _ {F : Type 0} where
  unfoldable pub apply_backend : String → Config F → Parsed (Config F)
  apply_backend name cfg =
      let set =
        λ (b : Backend). parsed (record cfg { capture = record cfg.capture { backend = b } }) in
      if str_eq name "pcap_file" || str_eq name "pcap"
      then set pcap_file
      else if str_eq name "synthetic" || str_eq name "demo"
      then set synthetic
      else if str_eq name "live" || str_eq name "tcpdump"
      then set live
      else if str_eq name "ebpf"
      then set ebpf
      else if str_eq name "etw"
      then set etw
      else wrong ("unknown backend '" ++ name ++ "'")

  abbrev pub with_pcap : Option String → Config F → Config F
  with_pcap none cfg = cfg
  with_pcap (some p) cfg = record cfg {
    capture = record cfg.capture { backend = pcap_file; pcap_path = p };
  }

  abbrev pub with_iface : Option String → Config F → Config F
  with_iface none cfg = cfg
  with_iface (some i) cfg = record cfg { capture = record cfg.capture { interface = i } }

  abbrev pub with_live_cmd : Option String → Config F → Config F
  with_live_cmd none cfg = cfg
  with_live_cmd (some c) cfg = record cfg { capture = record cfg.capture { live_command = c } }

  abbrev pub with_json : Option String → Config F → Config F
  with_json none cfg = cfg
  with_json (some j) cfg = record cfg { export = record cfg.export { json_events = j } }

  -- The overrides of `run` after the backend.
  unfoldable pub override : Args → Config F → Config F
  override a cfg =
      with_json a.json (with_live_cmd a.live_cmd (with_iface a.iface (with_pcap a.pcap cfg)))

  -- The configuration that `run` starts with, from the one of the file or the defaults.
  unfoldable pub layer : Args → Config F → Parsed (Config F)
  unfolding apply_backend override
  layer a cfg = elim a.backend [
    | none ↦ parsed (override a cfg)
    | some b ↦ elim (apply_backend b cfg) [
      | parsed c ↦ parsed (override a c)
      | help ↦ help
      | wrong e ↦ wrong e
    ]
  ]

-- The matcher of `run`, if the configuration asks for one; `new` is `PodMatcher::new`.
unfoldable pub pod_matcher : {F M : Type 0} → (String → M) → Config F → Option M
pod_matcher new cfg =
    if cfg.otlp.pod_attribution && not (is_empty (trim cfg.otlp.pod_cidrs))
    then some (new cfg.otlp.pod_cidrs)
    else none

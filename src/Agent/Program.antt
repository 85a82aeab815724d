-- ===== src/Agent/Program.antt =====
-- `run` of l4scope/crates/l4scope-agent/src/main.rs as a whole: from the words of the command line to the
-- state of the agent when it ends. The threads that serve and push the registry, which only read it,
-- and what is printed are left out.
pub mod Ends
pub mod Replay
pub mod Commands
use network_l4_monitoring_co.Base.{
  ℕ, zero, suc, String, Option, none, some, ◌⊎◌, inl, inr, List, [], ◌∷◌, Bool, if◌then◌else◌,
}
use Prim.Native.String
use mathlib.Core.Option
use network_l4_monitoring_co.Core.Float.{FloatOps, Fmt}
use network_l4_monitoring_co.Core.Types.{IpAddr, PacketMeta}
use network_l4_monitoring_co.Core.Config.{Config, OtlpConfig, default}
use network_l4_monitoring_co.Core.Config.Parse.{from_str}
use network_l4_monitoring_co.Core.Error.{config, Error, Result, ok, err, show_error}
use network_l4_monitoring_co.Capture.Source.{System, Source, next_packet}
use network_l4_monitoring_co.Capture.Source.Open.{open_source}
use network_l4_monitoring_co.Capture.Source.Total.{left}
use network_l4_monitoring_co.Export.Attribution
use network_l4_monitoring_co.Export.Attribution.{PodMatcher}
use network_l4_monitoring_co.Export.Metrics.{Metrics, snapshot}
use network_l4_monitoring_co.Export.Otlp.Client.{Connection, parse_target, flush}
use network_l4_monitoring_co.Agent.Resource.{Attribute, build_resource_attrs}
use network_l4_monitoring_co.Export.JsonSink.{JsonSink, from_target}
use network_l4_monitoring_co.Agent.{Agent, handle_packet, finish, start}
use network_l4_monitoring_co.Agent.Args.{
  Args, Parsed, parsed, help, wrong, no_args, parse_args, layer, pod_matcher,
}

-- What `run` uses of the system besides the sources; `opens` is the error of opening a file to append.
pub record Files (E : Type 0) : Type 0 where
  pub read_file : String → E ⊎ String
  pub opens : String → Option String

-- What the exporters use of it: the environment, a connection to the collector, and the times that the
-- clock gives for the start and the end of the last push.
pub record Network (E : Type 0) : Type 0 where
  pub var : String → Option String
  pub connect : String → ℕ → String ⊎ Connection
  pub start_ns : ℕ
  pub now_ns : ℕ

-- The parsers of numbers and addresses of the standard library.
pub record Parsers (F : Type 0) : Type 0 where
  pub parse_f64 : String → Option F
  pub parse_ip : String → Option IpAddr

infixl 5 ◌>>=◌
abbrev pub ◌>>=◌ : {A : Type 0} {B : Type 0} → Parsed A → (A → Parsed B) → Parsed B
parsed a >>= f = f a
help >>= f = help
wrong e >>= f = wrong e

-- `map_err(|e| e.to_string())`
abbrev pub to_parsed : {E A : Type 0} → (E → String) → Result E A → Parsed A
to_parsed show_io (ok a) = parsed a
to_parsed show_io (err e) = wrong (show_error show_io e)

module _ {E C F : Type 0} (ops : FloatOps F) (fmt : Fmt F) where
  -- The loop, at most `fuel` turns; `none` is a loop that has not ended.
  unfoldable pub feed : Option PodMatcher → ℕ → Source E C → Agent F → Option (Agent F)
  feed pods zero source a = none
  feed pods (suc fuel) source a = elim (next_packet fmt source) [
    | ok (some pkt, source') ↦ feed pods fuel source' (handle_packet ops fmt pods pkt a)
    | ok (none, source') ↦ some a
    | err e ↦ some a
  ]

module _ {E F : Type 0} (fmt : Fmt F) (other : String → E) (net : Network E) where
  -- The attributes for the last push, if the exporter has started.
  unfoldable pub otlp_ctx : OtlpConfig → Option (List Attribute)
  otlp_ctx cfg =
      if cfg.enabled
      then elim (parse_target {E = E} cfg) [
        | ok target ↦ some (build_resource_attrs net.var cfg)
        | err e ↦ none
      ]
      else none

  -- What the last push sends; its error is printed.
  unfoldable pub final_push : OtlpConfig → Metrics F → List String
  unfolding otlp_ctx
  final_push cfg registry = elim (otlp_ctx cfg) [
    | none ↦ []
    | some attrs ↦
        let snap = snapshot registry in
        (flush fmt net.connect other snap cfg attrs net.start_ns net.now_ns).0
  ]

-- What `run` leaves: the agent, and what the last push has sent.
pub record Ended (F : Type 0) : Type 0 where
  pub agent : Agent F
  pub pushed : List String

module _ {E C F : Type 0} (ops : FloatOps F) (fmt : Fmt F) (os : System E C) (files : Files E)
    (parsers : Parsers F) (net : Network E) where
  -- `Config::load`
  unfoldable pub load : String → Result E (Config F)
  load path = elim (files.read_file path) [
    | inl e ↦
        err
          (config (String.◌++◌ "cannot read " (String.◌++◌ path (String.◌++◌ ": " (os.show_io e)))))
    | inr text ↦ from_str ops fmt parsers.parse_f64 os.show_io text
  ]

  unfoldable pub load_or_default : Option String → Result E (Config F)
  load_or_default none = ok (default ops)
  load_or_default (some path) = load path

  -- The part of `run` after the loop.
  unfoldable pub shut_down : Option PodMatcher → Config F → Agent F → Ended F
  shut_down pods cfg a =
      let last = finish ops fmt pods a in
      record { agent = last; pushed = final_push fmt os.other net cfg.otlp last.registry }

  -- The part of `run` after the configuration. The loop gets one turn more than the source can have
  -- packets, with which it ends.
  unfoldable pub run_with : Config F → Parsed (Option (Ended F))
  run_with cfg = do
    sink ← to_parsed os.show_io (from_target files.opens cfg.export.json_events)
    source ← to_parsed os.show_io (open_source fmt os cfg.capture)
    let pods = pod_matcher (Attribution.new parsers.parse_ip) cfg
    parsed (
        Option.map (shut_down pods cfg)
          (feed ops fmt pods (suc (left source)) source (start ops fmt pods cfg.detect sink)))

  unfoldable pub program : List String → Parsed (Option (Ended F))
  unfolding load_or_default run_with
  program words = do
    args ← parse_args words no_args
    loaded ← to_parsed os.show_io (load_or_default args.config)
    cfg ← layer args loaded
    run_with cfg

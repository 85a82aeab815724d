-- ===== src/Agent/Program/Commands.antt =====
-- The commands of the documentation of main.rs: `l4scope --pcap FILE` and `l4scope --demo`.
use network_l4_monitoring_co.Base.{
  ◌<◌, ◌^◌, ◌≡◌, refl, subst, ◌∙◌, String, false, [], ◌∷◌, All, none, some, inr, Option, arith,
}
use network_l4_monitoring_co.Base.Text.{trim, trim_start, trim_end, is_whitespace, is_empty}
use network_l4_monitoring_co.Core.Float.{FloatOps, Fmt}
use network_l4_monitoring_co.Core.Config.{default}
use network_l4_monitoring_co.Core.Error.{ok}
use network_l4_monitoring_co.Capture.Reader.{Reader}
use network_l4_monitoring_co.Capture.Reader.Bytes.{bytes, Clean}
use network_l4_monitoring_co.Capture.Pcap.Format.{File, IsRecord, put_file, packets_of}
use network_l4_monitoring_co.Capture.Synthetic
use network_l4_monitoring_co.Capture.Synthetic.{build_script}
use network_l4_monitoring_co.Capture.Source.{System, Source, synthetic}
use network_l4_monitoring_co.Capture.Source.Open.{open_source}
use network_l4_monitoring_co.Capture.Source.Given.{given-script}
use network_l4_monitoring_co.Export.JsonSink.{JsonSink, stdout, from_target}
use network_l4_monitoring_co.Agent.Args.{
  parsed, parse_args, take_flag, take_value, apply_backend, override, layer, with_pcap, pod_matcher,
}
use network_l4_monitoring_co.Agent.Total.{Finished}
use network_l4_monitoring_co.Agent.Program.{
  Files, Network, Ended, final_push, otlp_ctx, Parsers, load_or_default, run_with, program,
}
use network_l4_monitoring_co.Agent.Program.Ends.{run_with-IsEnded}
use network_l4_monitoring_co.Agent.Program.Replay.{replay-IsEnded}

-- The sink of the defaults.
abbrev pub to_stdout : JsonSink
to_stdout = record { target = stdout; written = [] }

pub from_target-stdout :
    {E : Type 0} (opens : String → Option String)
    → from_target {E = E} opens "stdout" ≡ ok to_stdout
unfolding from_target trim trim_start trim_end is_whitespace
from_target-stdout opens = refl

module _ {E C F : Type 0} (ops : FloatOps F) (fmt : Fmt F) (os : System E C) (files : Files E)
    (parsers : Parsers F) (net : Network E) where
  program_pcap :
      (path : String)
      → program ops fmt os files parsers net ("--pcap" ∷ path ∷ [])
        ≡ run_with ops fmt os files parsers net (with_pcap (some path) (default ops))
  unfolding program parse_args take_flag take_value load_or_default layer override
  program_pcap path = refl

  program_demo :
      program ops fmt os files parsers net ("--demo" ∷ [])
      ≡ run_with ops fmt os files parsers net (default ops)
  unfolding program parse_args take_flag load_or_default layer override apply_backend default
  program_demo = refl

  -- `l4scope --pcap FILE`, where the path is not blank and the system opens it as a file that does not
  -- fail and whose bytes are a pcap file: the program ends, and leaves the agent as `Finished` has it
  -- for the packets of the file, with the default thresholds, the standard output as the sink, and
  -- no pods; nothing is pushed to a collector.
  pub pcap_command :
      (path : String) (f : File) (r : Reader E)
      → is_empty (trim path) ≡ false
      → os.open_file path ≡ inr r
      → Clean r
      → bytes r ≡ put_file f
      → f.linktype < 2 ^ 32
      → All IsRecord f.records
      → (e : Ended F) × (program ops fmt os files parsers net ("--pcap" ∷ path ∷ [])
          ≡ parsed (some e))
        × Finished ops fmt none to_stdout
            (default ops).detect
            (packets_of f.linktype f.nanos 0 f.records)
            e.agent
        × (e.pushed ≡ [])
  unfolding default pod_matcher final_push otlp_ctx
  pcap_command path f r blank opens clean e h ok_recs =
      let (last, ran, ended) =
        replay-IsEnded ops fmt os files parsers net (with_pcap (some path) (default ops)) to_stdout
          f r (from_target-stdout files.opens) refl blank opens clean e h ok_recs in
      (last, program_pcap path ∙ ran, ended.finished, ended.pushed)

  -- `l4scope --demo`: the program ends, and leaves the agent as `Finished` has it for the packets of
  -- the script, with the default thresholds, the standard output as the sink, and no pods; nothing
  -- is pushed to a collector.
  pub demo_command :
      (e : Ended F) × (program ops fmt os files parsers net ("--demo" ∷ []) ≡ parsed (some e))
      × Finished ops fmt none to_stdout (default ops).detect build_script e.agent
      × (e.pushed ≡ [])
  unfolding final_push otlp_ctx default pod_matcher open_source Synthetic.new
  demo_command =
      let source : Source E C = synthetic Synthetic.new in
      let (last, ran, ended) =
        run_with-IsEnded ops fmt os files parsers net (default ops) to_stdout source
          (from_target-stdout files.opens) refl in
      (
        last,
        program_demo ∙ ran,
        subst (λ l. Finished ops fmt none to_stdout (default ops).detect l last.agent)
            (given-script E C fmt _ Synthetic.new (omega arith)) ended.finished,
        ended.pushed,
      )

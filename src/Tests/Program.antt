-- ===== src/Tests/Program.antt =====
-- The whole of main.rs at concrete inputs.
use network_l4_monitoring_co.Base.{
  ℕ, suc, ◌≡◌, refl, String, true, false, [], ◌∷◌, none, some, inl, inr, arith,
}
use network_l4_monitoring_co.Base.Text.{is_empty, trim, trim_start, trim_end, is_whitespace}
use network_l4_monitoring_co.Core.Config.{default}
use network_l4_monitoring_co.Capture.Pcap.Format.{packets_of}
use network_l4_monitoring_co.Capture.Synthetic
use network_l4_monitoring_co.Capture.Synthetic.{build_script}
use network_l4_monitoring_co.Capture.Source.{System, Source, synthetic}
use network_l4_monitoring_co.Capture.Source.Open.{open_source}
use network_l4_monitoring_co.Capture.Source.Total.{left, given}
use network_l4_monitoring_co.Agent.Args.{parsed, pod_matcher}
use network_l4_monitoring_co.Agent.Total.{Finished}
use network_l4_monitoring_co.Agent.Program.{Network, Ended, Files, Parsers, run_with, program}
use network_l4_monitoring_co.Agent.Program.Ends.{IsEnded, run_with-IsEnded}
use network_l4_monitoring_co.Agent.Program.Commands.{to_stdout, from_target-stdout, pcap_command}
use network_l4_monitoring_co.Tests.Values.{ops, fmt}
use network_l4_monitoring_co.Tests.Pcap.{file, reader}

-- A system on which every path is the file of Tests/Pcap, and no tool can be started.
abbrev os : System String ℕ
os = record {
  open_file = λ path. inr reader;
  spawn = λ tool args. inl "not found";
  stdout = λ child. none;
  other = λ text. text;
  show_io = λ e. e;
  windows = false;
}

abbrev files : Files String
files = record { read_file = λ path. inl "not found"; opens = λ path. none }

-- No collector can be reached.
abbrev net : Network String
net = record { var = λ name. none; connect = λ host port. inl "refused"; start_ns = 0; now_ns = 1 }

abbrev parsers : Parsers ℕ
parsers = record { parse_f64 = λ text. none; parse_ip = λ text. none }

pcap_command_example :
    (e : Ended ℕ) × (program ops fmt os files parsers net ("--pcap" ∷ "a.pcap" ∷ [])
      ≡ parsed (some e))
    × Finished ops fmt none to_stdout
        (default ops).detect
        (packets_of 101 true 0 file.records)
        e.agent
    × (e.pushed ≡ [])
unfolding trim trim_start trim_end is_whitespace is_empty
pcap_command_example =
    pcap_command ops fmt os files parsers net "a.pcap" file reader refl refl tt refl (omega arith) (
      record { sec_u32 = omega arith; frac_u32 = omega arith; plausible = omega arith },
      (record { sec_u32 = omega arith; frac_u32 = omega arith; plausible = omega arith }, tt),
    )

abbrev script : Source String ℕ
script = synthetic Synthetic.new

run_with-IsEnded_example :
    (e : Ended ℕ) × (run_with ops fmt os files parsers net (default ops) ≡ parsed (some e))
    × IsEnded ops fmt os files parsers net
        (default ops)
        to_stdout
        (given fmt (suc (left script)) script)
        e
unfolding default open_source pod_matcher
run_with-IsEnded_example =
    run_with-IsEnded ops fmt os files parsers net (default ops) to_stdout script
      (from_target-stdout files.opens) refl

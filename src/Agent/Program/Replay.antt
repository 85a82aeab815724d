-- ===== src/Agent/Program/Replay.antt =====
-- The replay of a pcap file through all of the program: pcapio.rs, the loop of main.rs, and engine.rs.
use network_l4_monitoring_co.Base.{suc, ◌<◌, ◌^◌, ◌≡◌, subst, false, All, none, some, inr, arith}
use Prim.Native.String
use network_l4_monitoring_co.Base.Text.{trim, is_empty}
use network_l4_monitoring_co.Core.Float.{FloatOps, Fmt}
use network_l4_monitoring_co.Core.Config.{Config, pcap_file, CaptureConfig}
use network_l4_monitoring_co.Core.Error.{ok}
use network_l4_monitoring_co.Capture.Reader.{Reader}
use network_l4_monitoring_co.Capture.Reader.Bytes.{bytes, Clean}
use network_l4_monitoring_co.Capture.Pcap.Format.{File, IsRecord, put_file, packets_of}
use network_l4_monitoring_co.Capture.Pcap.Replay.{new-put_file, length-packets_of-le}
use network_l4_monitoring_co.Capture.Source.{System, Source, pcap, PcapSource, from_reader}
use network_l4_monitoring_co.Capture.Source.Open.{open_source, open_pcap_file}
use network_l4_monitoring_co.Capture.Source.Total.{left, given}
use network_l4_monitoring_co.Capture.Source.Given.{given-At, enough_turns}
use network_l4_monitoring_co.Export.JsonSink.{JsonSink, from_target}
use network_l4_monitoring_co.Agent.Args.{parsed}
use network_l4_monitoring_co.Agent.Program.{Files, Network, Ended, Parsers, run_with}
use network_l4_monitoring_co.Agent.Program.Ends.{IsEnded, run_with-IsEnded}

module _ {E C F : Type 0} (ops : FloatOps F) (fmt : Fmt F) (os : System E C) (files : Files E)
    (parsers : Parsers F) (net : Network E) where
  -- The source of a pcap file, and what it gives.
  open-put_file :
      (cfg : CaptureConfig) (f : File) (r : Reader E)
      → cfg.backend ≡ pcap_file
      → is_empty (trim cfg.pcap_path) ≡ false
      → os.open_file cfg.pcap_path ≡ inr r
      → Clean r
      → bytes r ≡ put_file f
      → f.linktype < 2 ^ 32
      → All IsRecord f.records
      → (source : Source E C) × (open_source fmt os cfg ≡ ok source)
        × (given fmt (suc (left source)) source ≡ packets_of f.linktype f.nanos 0 f.records)
  unfolding open_source open_pcap_file from_reader
  open-put_file cfg f r backend path opens clean e h ok_recs =
      let (s, opened, at, same) = new-put_file fmt f r 0 clean e h in
      let source : PcapSource E C = record {
        name = String.◌++◌ "pcap_file:" cfg.pcap_path;
        stream = s;
        child = none;
      } in
      (
        pcap source,
        ground (arith, backend, path, opens, opened),
        given-At fmt _ source f.records _ at ok_recs
            (omega (
              arith,
              enough_turns fmt s f.records at,
              length-packets_of-le f.linktype f.nanos 0 f.records,
            ))
            same,
      )

  -- With the backend for files, and a path at which the system opens a file that does not fail and
  -- whose bytes are a pcap file, `run` ends as `IsEnded` has it for the packets
  -- that the parser finds in the frames of the file, in order and with the times of the records.
  pub replay-IsEnded :
      (cfg : Config F) (sink : JsonSink) (f : File) (r : Reader E)
      → from_target {E = E} files.opens cfg.export.json_events ≡ ok sink
      → cfg.capture.backend ≡ pcap_file
      → is_empty (trim cfg.capture.pcap_path) ≡ false
      → os.open_file cfg.capture.pcap_path ≡ inr r
      → Clean r
      → bytes r ≡ put_file f
      → f.linktype < 2 ^ 32
      → All IsRecord f.records
      → (e : Ended F) × (run_with ops fmt os files parsers net cfg ≡ parsed (some e))
        × IsEnded ops fmt os files parsers net cfg sink
            (packets_of f.linktype f.nanos 0 f.records)
            e
  replay-IsEnded cfg sink f r sunk backend path opens clean e h ok_recs =
      let (source, opened, gives) =
        open-put_file cfg.capture f r backend path opens clean e h ok_recs in
      let (last, ran, ended) =
        run_with-IsEnded ops fmt os files parsers net cfg sink source sunk opened in
      (last, ran, subst (λ l. IsEnded ops fmt os files parsers net cfg sink l last) gives ended)

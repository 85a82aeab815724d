-- ===== src/Capture/Source/Open.antt =====
-- `open` of l4scope/crates/l4scope-capture/src/lib.rs, in a build without optional features.
use network_l4_monitoring_co.Base.{inl, inr, none, if◌then◌else◌}
use Prim.Native.String
use network_l4_monitoring_co.Base.Text.{trim, is_empty}
use network_l4_monitoring_co.Core.Float.{Fmt}
use network_l4_monitoring_co.Core.Config.{Backend, CaptureConfig}
use network_l4_monitoring_co.Core.Error.{config, unsupported_backend, Result, ok, err, ◌>>=◌}
use network_l4_monitoring_co.Capture.Synthetic
use network_l4_monitoring_co.Capture.Source.{
  System, Source, synthetic, pcap, PcapSource, from_reader,
}
use network_l4_monitoring_co.Capture.Source.Live.{open_live}

unfoldable pub open_ebpf : {E C : Type 0} → CaptureConfig → Result E (Source E C)
open_ebpf cfg = err (
    unsupported_backend (
      String.◌++◌
        "ebpf backend not built in; rebuild on Linux with `--features l4scope-agent/ebpf` "
        "(see docs/BUILD_NATIVE.md)"))

unfoldable pub open_etw : {E C : Type 0} → CaptureConfig → Result E (Source E C)
open_etw cfg = err (
    unsupported_backend (
      String.◌++◌
        "etw backend not built in; rebuild on Windows with `--features l4scope-agent/etw` "
        "(see docs/BUILD_NATIVE.md)"))

module _ {E C F : Type 0} (fmt : Fmt F) (os : System E C) where
  unfoldable pub open_pcap_file : CaptureConfig → Result E (PcapSource E C)
  open_pcap_file cfg =
      if is_empty (trim cfg.pcap_path)
      then err (config "pcap_file backend needs capture.pcap_path")
      else elim (os.open_file cfg.pcap_path) [
        | inl e ↦ err (
            config (
              String.◌++◌ "cannot open "
                (String.◌++◌ cfg.pcap_path (String.◌++◌ ": " (os.show_io e)))))
        | inr file ↦ from_reader fmt (String.◌++◌ "pcap_file:" cfg.pcap_path) file 0 none
      ]

  unfoldable pub open_source : CaptureConfig → Result E (Source E C)
  unfolding open_pcap_file open_ebpf open_etw
  open_source cfg = elim cfg.backend [
    | Backend.synthetic ↦ ok (synthetic Synthetic.new)
    | Backend.pcap_file ↦ (do source ← open_pcap_file cfg; ok (pcap source))
    | Backend.live ↦ (do source ← open_live fmt os cfg; ok (pcap source))
    | Backend.ebpf ↦ open_ebpf cfg
    | Backend.etw ↦ open_etw cfg
  ]

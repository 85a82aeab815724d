-- ===== src/Capture/Source/Live.antt =====
-- l4scope/crates/l4scope-capture/src/live.rs: the source that reads from a capture tool.
use network_l4_monitoring_co.Base.{
  String, List, [], ◌∷◌, ◌++◌, none, some, inl, inr, Bool, if◌then◌else◌,
}
use Prim.Native.String
use network_l4_monitoring_co.Base.Text.{trim, is_empty, split_whitespace}
use network_l4_monitoring_co.Core.Float.{Fmt}
use network_l4_monitoring_co.Core.Config.{CaptureConfig}
use network_l4_monitoring_co.Core.Error.{Error, io, config, unsupported_backend, Result, err}
use network_l4_monitoring_co.Capture.Source.{System, PcapSource, from_reader}

unfoldable pub default_command : Bool → String → String → List String
default_command windows iface filter =
    let iface = if is_empty iface then "any" else iface in
    if windows
    then ("tshark" ∷ "-i" ∷ iface ∷ "-w" ∷ "-" ∷ "-F" ∷ "pcap" ∷ "-s" ∷ "256" ∷ [])
      ++ (if is_empty filter then [] else "-f" ∷ filter ∷ [])
    else ("tcpdump" ∷ "-i" ∷ iface ∷ "-w" ∷ "-" ∷ "-U" ∷ "-n" ∷ "-s" ∷ "256" ∷ [])
      ++ (if is_empty filter then [] else split_whitespace filter)

unfoldable pub live_argv : Bool → CaptureConfig → List String
live_argv windows cfg =
    if is_empty (trim cfg.live_command)
    then default_command windows cfg.interface cfg.filter
    else split_whitespace cfg.live_command

module _ {E C F : Type 0} (fmt : Fmt F) (os : System E C) where
  spawn_error : String → E → Error E
  spawn_error tool e = unsupported_backend (
      String.◌++◌ "failed to spawn '" (
        String.◌++◌ tool
          (String.◌++◌ "' (is it installed / do you have capture privileges?): " (os.show_io e))))

  -- The source around a child, whose output is piped.
  unfoldable pub around : String → C → Result E (PcapSource E C)
  around tool child = elim (os.stdout child) [
    | none ↦ err (io (os.other "no stdout from capture tool"))
    | some reader ↦ from_reader fmt (String.◌++◌ "live:" tool) reader 0 (some child)
  ]

  unfoldable pub open_live : CaptureConfig → Result E (PcapSource E C)
  unfolding live_argv spawn_error around
  open_live cfg = elim (live_argv os.windows cfg) [
    | [] ↦ err (config "empty live_command")
    | tool ∷ args ↦ elim (os.spawn tool args) [
      | inl e ↦ err (spawn_error tool e)
      | inr child ↦ around tool child
    ]
  ]

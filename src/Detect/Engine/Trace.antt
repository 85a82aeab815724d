-- ===== src/Detect/Engine/Trace.antt =====
-- Histories of an engine: the calls of `process` and `sweep`, in any order (engine.rs, and the
-- loop of l4scope/crates/l4scope-agent/src/main.rs that makes them).
use network_l4_monitoring_co.Base.{ℕ, List, [], ◌∷◌, ◌++◌}
use network_l4_monitoring_co.Core.Float.{FloatOps, Fmt}
use network_l4_monitoring_co.Core.Types.{PacketMeta, L4Event}
use network_l4_monitoring_co.Detect.Flow.Update.{update}
use network_l4_monitoring_co.Detect.Detectors.{DetectCtx}
use network_l4_monitoring_co.Detect.Engine.{Engine, process, sweep}

pub data Call : Type 0 where
  packet : PacketMeta → Call
  timer : ℕ → Call

-- What `process` hands to the detectors for a packet.
abbrev pub context : {F : Type 0} → Engine F → PacketMeta → DetectCtx F
context e pkt =
    let (s, key, delta) = update e.state pkt in
    record { state = s; key = key; delta = delta; now_ns = pkt.ts_nanos }

module _ {F : Type 0} (ops : FloatOps F) (fmt : Fmt F) where
  abbrev pub call : Call → Engine F → Engine F × List (L4Event F)
  call (packet pkt) e = process ops fmt pkt e
  call (timer now) e = sweep ops fmt now e

  -- The engine after the calls, and all events in order.
  unfoldable pub run : List Call → Engine F → Engine F × List (L4Event F)
  run [] e = (e, [])
  run (c ∷ cs) e = let (e', out) = call c e in let (e'', later) = run cs e' in (e'', out ++ later)

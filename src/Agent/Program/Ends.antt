-- ===== src/Agent/Program/Ends.antt =====
-- The loop of main.rs over a source of the capture crate ends, and what `run` leaves.
use network_l4_monitoring_co.Base.{
  ℕ, zero, suc, ◌≤◌, ◌<◌, ◌≡◌, refl, List, [], ◌∷◌, Option, none, some, arith,
}
use network_l4_monitoring_co.Core.Float.{FloatOps, Fmt}
use network_l4_monitoring_co.Core.Types.{PacketMeta}
use network_l4_monitoring_co.Core.Config.{Config}
use network_l4_monitoring_co.Core.Error.{Result, ok, err}
use network_l4_monitoring_co.Capture.Source.{System, Source, next_packet}
use network_l4_monitoring_co.Capture.Source.Open.{open_source}
use network_l4_monitoring_co.Capture.Source.Total.{left, Shrinks, next_packet-Shrinks, given}
use network_l4_monitoring_co.Export.Attribution
use network_l4_monitoring_co.Export.Attribution.{PodMatcher}
use network_l4_monitoring_co.Export.JsonSink.{JsonSink, from_target}
use network_l4_monitoring_co.Agent.{Agent, handle_packet, handle_packets, start, run}
use network_l4_monitoring_co.Agent.Args.{parsed, pod_matcher}
use network_l4_monitoring_co.Agent.Total.{Finished, run-Finished}
use network_l4_monitoring_co.Agent.Program.{
  Files, Network, Ended, final_push, shut_down, Parsers, feed, run_with,
}

module _ {E C F : Type 0} (ops : FloatOps F) (fmt : Fmt F) where
  turn-given :
      (pods : Option PodMatcher) (n : ℕ) (res : Result E (Option PacketMeta × Source E C))
      (a : Agent F)
      → Shrinks (left {E = E} {C = C}) n res
      → ((s : Source E C) (b : Agent F)
          → left s < n
          → feed ops fmt pods n s b ≡ some (handle_packets ops fmt pods (given fmt n s) b))
      → (elim res [
        | ok (some pkt, s) ↦ feed ops fmt pods n s (handle_packet ops fmt pods pkt a)
        | ok (none, s) ↦ some a
        | err e ↦ some a
      ])
        ≡ some (
            handle_packets ops fmt pods
              (elim res [ ok (some p, s) ↦ p ∷ given fmt n s | other ↦ [] ])
              a)
  unfolding handle_packets
  turn-given pods n (ok (some pkt, s)) a h ih = ih s (handle_packet ops fmt pods pkt a) h
  turn-given pods n (ok (none, s)) a h ih = refl
  turn-given pods n (err e) a h ih = refl

  Shrinks-le :
      (j k : ℕ) (res : Result E (Option PacketMeta × Source E C))
      → j ≤ k
      → Shrinks (left {E = E} {C = C}) j res
      → Shrinks (left {E = E} {C = C}) k res
  Shrinks-le j k (ok (some pkt, s)) le h = omega arith
  Shrinks-le j k (ok (none, s)) le h = tt
  Shrinks-le j k (err e) le h = tt

  -- The loop ends, having handled the packets that the source gives up to its end or first error,
  -- in order and each once, within one turn more than the source has packets left at most.
  pub feed-given :
      (pods : Option PodMatcher) (n : ℕ) (source : Source E C) (a : Agent F)
      → left source < n
      → feed ops fmt pods n source a ≡ some (handle_packets ops fmt pods (given fmt n source) a)
  unfolding feed given
  feed-given pods zero source a h = absurd (omega arith)
  feed-given pods (suc n) source a h =
      turn-given pods n (next_packet fmt source) a
        (Shrinks-le (left source) n (next_packet fmt source) (omega arith)
          (next_packet-Shrinks fmt source))
        (λ s b lt. feed-given pods n s b lt)

module _ {E C F : Type 0} (ops : FloatOps F) (fmt : Fmt F) (os : System E C) (files : Files E)
    (parsers : Parsers F) (net : Network E) (cfg : Config F) where
  abbrev pub pods_in : Option PodMatcher
  pods_in = pod_matcher (Attribution.new parsers.parse_ip) cfg

  -- The program has ended after these packets: the agent is as `Finished` has it, and the last push is
  -- one of its registry.
  pub record IsEnded (sink : JsonSink) (pkts : List PacketMeta) (e : Ended F) : Type 0 where
    pub finished : Finished ops fmt pods_in sink cfg.detect pkts e.agent
    pub pushed : e.pushed ≡ final_push fmt os.other net cfg.otlp e.agent.registry

  -- With a configuration whose event sink and source open, `run` ends with success, also where the
  -- source fails while it is read. It leaves the agent as `Finished` has it for the packets that the
  -- source gives up to its end or its first error, and has pushed the final registry, if the OTLP
  -- exporter is on.
  pub run_with-IsEnded :
      (sink : JsonSink) (source : Source E C)
      → from_target {E = E} files.opens cfg.export.json_events ≡ ok sink
      → open_source fmt os cfg.capture ≡ ok source
      → (e : Ended F) × (run_with ops fmt os files parsers net cfg ≡ parsed (some e))
        × IsEnded sink (given fmt (suc (left source)) source) e
  unfolding run_with shut_down run
  run_with-IsEnded sink source sunk opened =
      let pkts = given fmt (suc (left source)) source in
      let fed =
        feed-given ops fmt pods_in (suc (left source)) source
          (start ops fmt pods_in cfg.detect sink) (omega arith) in
      let last = run ops fmt pods_in cfg.detect sink pkts in
      (
        record { agent = last; pushed = final_push fmt os.other net cfg.otlp last.registry },
        ground (arith, sunk, opened, fed),
        record { finished = run-Finished ops fmt pods_in sink cfg.detect pkts; pushed = refl },
      )

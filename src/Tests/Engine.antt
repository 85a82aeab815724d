-- ===== src/Tests/Engine.antt =====
-- engine.rs and window.rs at concrete inputs.
use network_l4_monitoring_co.Base.{◌≤◌, ◌≡◌, refl, ap, true, List, All, [], ◌∷◌, arith}
use network_l4_monitoring_co.Core.Types.{FlowKey, has, PacketMeta, reverse}
use network_l4_monitoring_co.Detect.Flow.{half_open_for, flow_at, new_state}
use network_l4_monitoring_co.Detect.Flow.HalfOpen.{tally}
use network_l4_monitoring_co.Detect.Engine.{new, sweep, timed_out, stats}
use network_l4_monitoring_co.Detect.Engine.Trace.{Call, packet, timer, run}
use network_l4_monitoring_co.Detect.Engine.HalfOpen.{run-IsExact}
use network_l4_monitoring_co.Detect.Engine.Invariant.{
  IsSound, run-IsSound, half_open_bounds, waiting, handshaking,
}
use network_l4_monitoring_co.Detect.Engine.Sweep.{swept, flow_at-sweep, listed, passes}
use network_l4_monitoring_co.Detect.Engine.Reports.{keys_of, sweep_twice}
use network_l4_monitoring_co.Detect.Engine.SweepEvents.{IsTimeout, timeouts-sweep}
use network_l4_monitoring_co.Detect.Engine.Timeouts.{reported}
use network_l4_monitoring_co.Detect.Engine.Rates.{reset_times, rst_per_sec_lem}
use network_l4_monitoring_co.Detect.Engine.Unanswered.{unanswered_syn_reported}
use network_l4_monitoring_co.Detect.Window
use network_l4_monitoring_co.Detect.Window.{count_window}
use network_l4_monitoring_co.Detect.Window.Counts.{
  record_all, events_within, count_window-record_all,
}
use network_l4_monitoring_co.Detect.Debounce.{Debounce, ready, firings, Spaced, firings-Spaced}
use network_l4_monitoring_co.Tests.Values.{
  ops, fmt, cfg, server, other_packet, key, packet_of, syn_packet, syn_ack_packet, ack_packet,
  engine,
}

abbrev calls : List Call
calls = packet syn_packet ∷ packet syn_ack_packet ∷ timer 4_000_000_000 ∷ packet ack_packet ∷ []

run-IsExact_example :
    half_open_for (run ops fmt calls (new cfg)).0.state.globals server
    ≡ tally server (run ops fmt calls (new cfg)).0.state.flows
run-IsExact_example = run-IsExact ops fmt cfg calls (omega arith) server

half_open_bounds_example :
    (waiting server (run ops fmt calls (new cfg)).0.state.flows
      ≤ half_open_for (run ops fmt calls (new cfg)).0.state.globals server)
    × (half_open_for (run ops fmt calls (new cfg)).0.state.globals server
        ≤ handshaking server (run ops fmt calls (new cfg)).0.state.flows)
half_open_bounds_example = half_open_bounds ops fmt cfg calls server (omega arith)

run-IsSound_example : IsSound 4 (run ops fmt calls (new cfg)).0.state
run-IsSound_example = run-IsSound ops fmt cfg calls (omega arith)

flow_at-sweep_example :
    flow_at key (sweep ops fmt 4_000_000_000 engine).0.state
    ≡ swept 4_000_000_000 120_000_000_000 3_000_000_000 (flow_at key engine.state)
flow_at-sweep_example = flow_at-sweep ops fmt 4_000_000_000 engine key (refl, tt)

timeouts-sweep_example :
    All (IsTimeout ops 4_000_000_000 engine.state) (sweep ops fmt 4_000_000_000 engine).1
    × (listed key (keys_of (sweep ops fmt 4_000_000_000 engine).1)
        ≡ passes (timed_out 4_000_000_000 3_000_000_000) (flow_at key engine.state))
timeouts-sweep_example = timeouts-sweep ops fmt 4_000_000_000 engine key (refl, tt)

sweep_twice_example : (sweep ops fmt 4_000_000_000 (sweep ops fmt 4_000_000_000 engine).0).1 ≡ []
sweep_twice_example =
    sweep_twice ops fmt 4_000_000_000 4_000_000_000 engine (refl, tt) (omega arith)

count_window-record_all_example :
    count_window (record_all (Window.new 1) (1_000_000_007 ∷ 6 ∷ 5 ∷ [])) 1_000_000_008
    ≡ events_within 1 1_000_000_008 (1_000_000_007 ∷ 6 ∷ 5 ∷ [])
count_window-record_all_example =
    count_window-record_all 1 1_000_000_008 (1_000_000_007 ∷ 6 ∷ 5 ∷ []) (omega arith) (omega arith)
      (omega arith)

abbrev ten_seconds : Debounce
ten_seconds = record { last_ns = 0; gap_ns = 10_000_000_000 }

firings-Spaced_example :
    Spaced 10_000_000_000 7 (firings (ready ten_seconds 7).0 (8 ∷ 10_000_000_008 ∷ []))
firings-Spaced_example =
    firings-Spaced ten_seconds 7 (8 ∷ 10_000_000_008 ∷ []) (omega arith) (omega arith) (omega arith)
      (unfold ready in refl)

unanswered_syn_reported_example :
    reported key
      (run ops fmt
        (packet syn_packet ∷ packet other_packet ∷ timer 2_000_000_000 ∷ timer 4_000_000_000 ∷ [])
        (new cfg)).1
    ≡ true
unfolding has new new_state
unanswered_syn_reported_example =
    unanswered_syn_reported ops fmt (new cfg) syn_packet
      (packet other_packet ∷ timer 2_000_000_000 ∷ []) 4_000_000_000 refl refl refl tt (omega arith)
      (λ e. absurd (omega (arith, ap (λ (k : FlowKey). k.low.port) e)), (tt, tt)) (omega arith)

abbrev reset : PacketMeta
reset = packet_of 1_000_000_007 reverse 0x14 0 101 0

abbrev refused : List Call
refused = packet syn_packet ∷ packet reset ∷ []

rst_per_sec_lem_example :
    (stats ops (run ops fmt refused (new cfg)).0 1_000_000_009).rst_per_sec
    ≡ ops.div
        (ops.from_u64 (events_within 1 1_000_000_009 (reset_times refused [])))
        (ops.from_u64 1)
unfolding reset_times has
rst_per_sec_lem_example =
    rst_per_sec_lem ops fmt cfg refused 1_000_000_009 (omega arith) (omega arith) (omega arith)

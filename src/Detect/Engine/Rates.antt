-- ===== src/Detect/Engine/Rates.antt =====
-- The rate of resets that engine.rs reports, against the packets of a history.
use network_l4_monitoring_co.Base.{
  ℕ, ◌+◌, ◌≤◌, ◌<◌, ◌^◌, ◌≡◌, refl, ap, ◌∙◌, Bool, not, ◌&&◌, if◌then◌else◌, List, [], ◌∷◌, length,
  arith,
}
use network_l4_monitoring_co.Core.Float.{FloatOps, Fmt}
use network_l4_monitoring_co.Core.Config.{DetectConfig}
use network_l4_monitoring_co.Core.Types.{FlowKey, PacketMeta, is_tcp, is_syn_only, is_syn_ack, rst}
use network_l4_monitoring_co.Detect.Window.{RollingRate, count_window, record_event, per_sec}
use network_l4_monitoring_co.Detect.Window
use network_l4_monitoring_co.Detect.Window.Counts.{
  record_all, Ordered, events_within, count_window-record_all,
}
use network_l4_monitoring_co.Detect.Flow.{
  EngineState, new_state, new_globals, uncount_half_open, count_half_open,
}
use network_l4_monitoring_co.Detect.Flow.Update.{
  step, touch, update, on_tcp, on_syn, start_handshake, on_syn_ack, on_rst, clear_half_open,
  complete_handshake, on_fin, on_segment, find_or_new,
}
use network_l4_monitoring_co.Detect.Flow.Checks.{Work}
use network_l4_monitoring_co.Detect.Flow.HandshakeSteps.{checked-Kept}
use network_l4_monitoring_co.Detect.Engine.{
  Engine, new, stats, uncount_flow, flag_timeout, flag_timeouts, evict, evict_all, sweep, process,
}
use network_l4_monitoring_co.Detect.Engine.HalfOpen.{process_cases}
use network_l4_monitoring_co.Detect.Engine.Trace.{Call, packet, timer, run}

-- A packet that the state machine takes as a reset.
abbrev pub is_reset : PacketMeta → Bool
is_reset pkt =
    is_tcp pkt.proto && not (is_syn_only pkt.flags) && not (is_syn_ack pkt.flags) && rst pkt.flags

-- The times of the resets of a history, the latest first, before those of the past.
unfoldable pub reset_times : List Call → List ℕ → List ℕ
reset_times [] past = past
reset_times (timer now ∷ cs) past = reset_times cs past
reset_times (packet pkt ∷ cs) past =
    reset_times cs (if is_reset pkt then pkt.ts_nanos ∷ past else past)

pub length-reset_times :
    (cs : List Call) (past : List ℕ) → length (reset_times cs past) ≤ length cs + length past
unfolding reset_times
length-reset_times [] past = omega arith
length-reset_times (timer now ∷ cs) past = omega (arith, length-reset_times cs past)
length-reset_times (packet pkt ∷ cs) past =
    ground (arith, length-reset_times cs (if is_reset pkt then pkt.ts_nanos ∷ past else past))

rst_rate-on_segment :
    (pkt : PacketMeta) (w : Work) → (on_segment pkt w).globals.rst_rate ≡ w.globals.rst_rate
unfolding on_segment on_fin complete_handshake clear_half_open uncount_half_open
rst_rate-on_segment pkt w =
    ground (arith, (checked-Kept pkt (on_fin pkt (complete_handshake pkt w))).kept_globals)

rst_rate-on_tcp :
    (pkt : PacketMeta) (w : Work)
    → (on_tcp pkt w).globals.rst_rate ≡ (
        if not (is_syn_only pkt.flags) && not (is_syn_ack pkt.flags) && rst pkt.flags
        then record_event w.globals.rst_rate pkt.ts_nanos
        else w.globals.rst_rate)
unfolding on_tcp on_syn start_handshake on_syn_ack on_rst clear_half_open uncount_half_open
    count_half_open
rst_rate-on_tcp pkt w = ground (arith, rst_rate-on_segment pkt w)

window_secs-record_all :
    (r : RollingRate) (h : List ℕ) → (record_all r h).window_secs ≡ r.window_secs
unfolding record_all record_event
window_secs-record_all r [] = refl
window_secs-record_all r (t ∷ h) = ground (arith, window_secs-record_all r h)

-- The counter of resets as a rate.
pub per_sec-record_all :
    {F : Type 0} (ops : FloatOps F) (now : ℕ) (times : List ℕ)
    → now < 2 ^ 64
    → length times < 2 ^ 64
    → Ordered times now
    → per_sec ops (record_all (Window.new 1) times) now
      ≡ ops.div (ops.from_u64 (events_within 1 now times)) (ops.from_u64 1)
unfolding per_sec Window.new
per_sec-record_all ops now times u64 few ordered =
    ap (λ n. ops.div (ops.from_u64 n) (ops.from_u64 (record_all (Window.new 1) times).window_secs))
      (count_window-record_all 1 now times u64 few ordered)
    ∙ ap (λ w. ops.div (ops.from_u64 (events_within 1 now times)) (ops.from_u64 w))
        (window_secs-record_all (Window.new 1) times)

-- What a packet does to the rate.
abbrev after_packet : PacketMeta → RollingRate → RollingRate
after_packet pkt r = if is_reset pkt then record_event r pkt.ts_nanos else r

module _ {F : Type 0} where
  rst_rate-find_or_new :
      (s : EngineState F) (pkt : PacketMeta)
      → (find_or_new s pkt).globals.rst_rate ≡ s.globals.rst_rate
  unfolding find_or_new
  rst_rate-find_or_new s pkt = ground arith

  pub rst_rate-step :
      (s : EngineState F) (pkt : PacketMeta)
      → (step s pkt).globals.rst_rate ≡ after_packet pkt s.globals.rst_rate
  unfolding step
  rst_rate-step s pkt =
      ground
        (arith, rst_rate-find_or_new s pkt, rst_rate-on_tcp pkt (touch pkt (find_or_new s pkt)))

  rst_rate-evict_all :
      (ks : List FlowKey) (s : EngineState F)
      → (evict_all ks s).globals.rst_rate ≡ s.globals.rst_rate
  unfolding evict_all evict uncount_flow uncount_half_open
  rst_rate-evict_all [] s = refl
  rst_rate-evict_all (k ∷ ks) s = ground (arith, rst_rate-evict_all ks (evict k s))

module _ {F : Type 0} (ops : FloatOps F) (fmt : Fmt F) where
  rst_rate-flag_timeouts :
      (now : ℕ) (ks : List FlowKey) (s : EngineState F)
      → (flag_timeouts ops fmt now ks s).0.globals.rst_rate ≡ s.globals.rst_rate
  unfolding flag_timeouts flag_timeout uncount_flow uncount_half_open
  rst_rate-flag_timeouts now [] s = refl
  rst_rate-flag_timeouts now (k ∷ ks) s =
      ground (arith, rst_rate-flag_timeouts now ks (flag_timeout ops fmt now k s).0)

  rst_rate-sweep :
      (now : ℕ) (e : Engine F)
      → (sweep ops fmt now e).0.state.globals.rst_rate ≡ e.state.globals.rst_rate
  unfolding sweep
  rst_rate-sweep now e = rst_rate-evict_all _ _ ∙ rst_rate-flag_timeouts now _ e.state

  rst_rate-process :
      (pkt : PacketMeta) (e : Engine F)
      → (process ops fmt pkt e).0.state.globals.rst_rate ≡ after_packet pkt e.state.globals.rst_rate
  rst_rate-process pkt e =
      process_cases ops fmt (λ s. s.globals.rst_rate ≡ after_packet pkt e.state.globals.rst_rate)
        pkt e (unfold update in rst_rate-step e.state pkt) (λ now e' h. rst_rate-sweep now e' ∙ h)

  rst_rate-run :
      (cs : List Call) (e : Engine F) (past : List ℕ)
      → e.state.globals.rst_rate ≡ record_all (Window.new 1) past
      → (run ops fmt cs e).0.state.globals.rst_rate
        ≡ record_all (Window.new 1) (reset_times cs past)
  unfolding run reset_times record_all
  rst_rate-run [] e past h = h
  rst_rate-run (timer now ∷ cs) e past h =
      rst_rate-run cs (sweep ops fmt now e).0 past (rst_rate-sweep now e ∙ h)
  rst_rate-run (packet pkt ∷ cs) e past h =
      rst_rate-run cs (process ops fmt pkt e).0 (if is_reset pkt then pkt.ts_nanos ∷ past else past)
        (ground (arith, rst_rate-process pkt e, h))

  pub rst_rate-new :
      (cfg : DetectConfig F) (cs : List Call)
      → (run ops fmt cs (new cfg)).0.state.globals.rst_rate
        ≡ record_all (Window.new 1) (reset_times cs [])
  unfolding new new_state new_globals record_all
  rst_rate-new cfg cs = rst_rate-run cs (new cfg) [] refl

  -- After any fewer than 2^64 packets and sweeps on a new engine, the rate of resets that `stats`
  -- reports at a time below 2^64 is the number of resets among the packets in the clock second of
  -- that time, which starts at a multiple of 10^9 nanoseconds, if the times of the resets do not
  -- decrease and are not later.
  pub rst_per_sec_lem :
      (cfg : DetectConfig F) (cs : List Call) (now : ℕ)
      → now < 2 ^ 64
      → length cs < 2 ^ 64
      → Ordered (reset_times cs []) now
      → (stats ops (run ops fmt cs (new cfg)).0 now).rst_per_sec
        ≡ ops.div (ops.from_u64 (events_within 1 now (reset_times cs []))) (ops.from_u64 1)
  unfolding stats
  rst_per_sec_lem cfg cs now u64 few ordered =
      ap (λ r. per_sec ops r now) (rst_rate-new cfg cs)
      ∙ per_sec-record_all ops now (reset_times cs []) u64 (omega (arith, length-reset_times cs []))
          ordered

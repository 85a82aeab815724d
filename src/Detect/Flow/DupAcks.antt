-- ===== src/Detect/Flow/DupAcks.antt =====
-- Repeated acknowledgements in flow.rs, and the detector of detectors.rs that reports them.
use network_l4_monitoring_co.Base.{
  ℕ, zero, suc, ◌+◌, ◌^◌, ◌<◌, ◌≡◌, ◌↔◌, ◌∙◌, arith, true, false, none, some, wrapping_add32,
}
use network_l4_monitoring_co.Core.Types.{PacketMeta, is_tcp, syn, ack, fin, rst}
use network_l4_monitoring_co.Core.Float.{FloatOps, Fmt}
use network_l4_monitoring_co.Detect.Flow.{FlowState, at, EngineState, flow_at, no_delta}
use network_l4_monitoring_co.Detect.Flow.Invariant.{flow_at-update}
use network_l4_monitoring_co.Detect.Flow.Segments.{at-put}
use network_l4_monitoring_co.Detect.Flow.Update.{
  complete_handshake, on_fin, on_segment, on_tcp, find_or_new, step, update,
}
use network_l4_monitoring_co.Detect.Flow.Checks.{Work, check_window, check_data, check_ack}
use network_l4_monitoring_co.Detect.Detectors.{DetectCtx, inspect_dup_ack}

-- A TCP packet that only acknowledges.
pub record IsBareAck (pkt : PacketMeta) : Type 0 where
  pub of_tcp : is_tcp pkt.proto ≡ true
  pub no_syn : syn pkt.flags ≡ false
  pub no_fin : fin pkt.flags ≡ false
  pub no_rst : rst pkt.flags ≡ false
  pub has_ack : ack pkt.flags ≡ true
  pub empty : pkt.payload_len ≡ 0

-- The parts before the check leave the acknowledgements alone.
record SameAcks (v w : Work) : Type 0 where
  same_last : w.flow.last_ack ≡ v.flow.last_ack
  same_count : w.flow.dup_ack_count ≡ v.flow.dup_ack_count

complete_handshake-SameAcks : (pkt : PacketMeta) (w : Work) → SameAcks w (complete_handshake pkt w)
unfolding complete_handshake
complete_handshake-SameAcks pkt w = ground arith

check_window-SameAcks : (pkt : PacketMeta) (w : Work) → SameAcks w (check_window pkt w)
unfolding check_window
check_window-SameAcks pkt w = ground arith

module _ {F : Type 0} (s : EngineState F) (pkt : PacketMeta) (f : FlowState) (bare : IsBareAck pkt)
    (known : flow_at pkt.key s ≡ some f) where
  start : Work
  start = record {
    flow = record f { last_seen_ns = pkt.ts_nanos };
    globals = s.globals;
    delta = no_delta;
  }

  prepared : Work
  prepared = check_window pkt (complete_handshake pkt start)

  prepared-SameAcks :
      (prepared.flow.last_ack ≡ f.last_ack) × (prepared.flow.dup_ack_count ≡ f.dup_ack_count)
  unfolding prepared start
  prepared-SameAcks =
      let a = complete_handshake-SameAcks pkt start in
      let b = check_window-SameAcks pkt (complete_handshake pkt start) in
      (b.same_last ∙ a.same_last, b.same_count ∙ a.same_count)

  step-bare : step s pkt ≡ check_ack pkt prepared
  unfolding step on_tcp find_or_new on_segment on_fin check_data prepared start
  step-bare = ground (arith, bare)

  -- One more acknowledgement of the same number.
  step-duplicate :
      at pkt.dir f.last_ack ≡ some pkt.ack_no
      → let n = wrapping_add32 (at pkt.dir f.dup_ack_count) 1 in
        (at pkt.dir (step s pkt).flow.last_ack ≡ some pkt.ack_no)
        × (at pkt.dir (step s pkt).flow.dup_ack_count ≡ n)
        × ((step s pkt).delta.is_dup_ack ≡ true)
        × ((step s pkt).delta.dup_ack_count ≡ n)
  unfolding check_ack
  step-duplicate e = rw step-bare (
      ground (
        arith,
        bare,
        prepared-SameAcks,
        at-put pkt.dir (wrapping_add32 (at pkt.dir f.dup_ack_count) 1) f.dup_ack_count,
      ))

-- The state after `n` copies of a packet.
unfoldable pub resend : {F : Type 0} → ℕ → EngineState F → PacketMeta → EngineState F
resend zero s pkt = s
resend (suc n) s pkt = (update (resend n s pkt) pkt).0

module _ {F : Type 0} (s : EngineState F) (pkt : PacketMeta) (f : FlowState) (bare : IsBareAck pkt)
    (known : flow_at pkt.key s ≡ some f) (last : at pkt.dir f.last_ack ≡ some pkt.ack_no)
    (fresh : at pkt.dir f.dup_ack_count ≡ 0) where
  resend-count :
      (n : ℕ)
      → n < 2 ^ 32
      → (g : FlowState) × (flow_at pkt.key (resend n s pkt) ≡ some g)
        × (at pkt.dir g.last_ack ≡ some pkt.ack_no)
        × (at pkt.dir g.dup_ack_count ≡ n)
  unfolding resend
  resend-count zero lt = (f, known, last, fresh)
  resend-count (suc n) lt =
      let (g, e, l, c) = resend-count n (omega arith) in
      let d = step-duplicate (resend n s pkt) pkt g bare e l in
      (
        (step (resend n s pkt) pkt).flow,
        ground (arith, flow_at-update (resend n s pkt) pkt pkt.key),
        d.0,
        d.1 ∙ omega (arith, c),
      )

  -- A bare ACK of the number last acknowledged, on a flow that has counted no duplicates yet: its
  -- copy after `n` others is the duplicate of number `n + 1`, and the detector reports it exactly
  -- if that is the threshold.
  pub dup_ack_alert :
      (ops : FloatOps F) (fmt : Fmt F) (n : ℕ)
      → n + 1 < 2 ^ 32
      → let (s', key, delta) = update (resend n s pkt) pkt in
        let ctx : DetectCtx F = record {
          state = s';
          key = key;
          delta = delta;
          now_ns = pkt.ts_nanos;
        } in
        (delta.is_dup_ack ≡ true)
        × (delta.dup_ack_count ≡ n + 1)
        × ((inspect_dup_ack ops fmt ctx ≡ none) ↔ (¬ (n + 1 ≡ s'.cfg.dup_ack_threshold)))
  unfolding inspect_dup_ack update
  dup_ack_alert ops fmt n lt =
      let (g, e, l, c) = resend-count n (omega arith) in
      let d = step-duplicate (resend n s pkt) pkt g bare e l in
      let count : (step (resend n s pkt) pkt).delta.dup_ack_count ≡ n + 1 =
        d.3 ∙ omega (arith, c) in
      (d.2, count, ground (arith, count, d.2))

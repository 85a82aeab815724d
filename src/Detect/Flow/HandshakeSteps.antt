-- ===== src/Detect/Flow/HandshakeSteps.antt =====
-- The packets of a three-way handshake, one by one, in `EngineState::update` of flow.rs.
use network_l4_monitoring_co.Base.{ℕ, ◌-◌, ◌≡◌, ◌∙◌, arith, true, false, Option, none, some}
use network_l4_monitoring_co.Core.Types.{
  PacketMeta, Endpoint, is_tcp, is_syn_only, is_syn_ack, syn, ack, fin, rst,
}
use network_l4_monitoring_co.Detect.Flow.{
  TcpState, FlowState, new_flow_state, EngineState, flow_at, half_open_for, count_half_open,
  uncount_half_open, no_delta,
}
use network_l4_monitoring_co.Detect.Flow.Update.{
  start_handshake, on_syn, on_syn_ack, complete_handshake, on_fin, on_segment, on_tcp, find_or_new,
  guess_service, step,
}
use network_l4_monitoring_co.Detect.Flow.Checks.{Work, check_window, check_data, check_ack}

-- What the checks of a segment leave alone.
pub record Kept (v w : Work) : Type 0 where
  kept_state : w.flow.state ≡ v.flow.state
  kept_rtt : w.flow.rtt_ns ≡ v.flow.rtt_ns
  pub kept_globals : w.globals ≡ v.globals
  kept_established_now : w.delta.established_now ≡ v.delta.established_now

Kept-trans : {u v w : Work} → Kept u v → Kept v w → Kept u w
Kept-trans h k = record {
  kept_state = k.kept_state ∙ h.kept_state;
  kept_rtt = k.kept_rtt ∙ h.kept_rtt;
  kept_globals = k.kept_globals ∙ h.kept_globals;
  kept_established_now = k.kept_established_now ∙ h.kept_established_now;
}

check_window-Kept : (pkt : PacketMeta) (w : Work) → Kept w (check_window pkt w)
unfolding check_window
check_window-Kept pkt w = ground arith

check_data-Kept : (pkt : PacketMeta) (w : Work) → Kept w (check_data pkt w)
unfolding check_data
check_data-Kept pkt w = ground arith

check_ack-Kept : (pkt : PacketMeta) (w : Work) → Kept w (check_ack pkt w)
unfolding check_ack
check_ack-Kept pkt w = ground arith

pub checked-Kept :
    (pkt : PacketMeta) (w : Work) → Kept w (check_ack pkt (check_data pkt (check_window pkt w)))
checked-Kept pkt w =
    Kept-trans (check_window-Kept pkt w) (Kept-trans (check_data-Kept pkt _) (check_ack-Kept pkt _))

module _ {F : Type 0} (s : EngineState F) (pkt : PacketMeta)
    (of_tcp : is_tcp pkt.proto ≡ true) where
  -- The first bare SYN of a new flow.
  pub record Opened (f : FlowState) : Type 0 where
    pub opened_state : f.state ≡ TcpState.syn_sent
    pub opened_time : f.syn_time_ns ≡ some pkt.ts_nanos
    pub opened_counted : f.half_open_counted ≡ true
    pub opened_service : f.service ≡ guess_service pkt

  pub step-syn : flow_at pkt.key s ≡ none → is_syn_only pkt.flags ≡ true → Opened (step s pkt).flow
  unfolding step on_tcp find_or_new on_syn start_handshake new_flow_state
  step-syn new_key f = ground arith

  pub half_open-syn :
      (ep : Endpoint)
      → flow_at pkt.key s ≡ none
      → is_syn_only pkt.flags ≡ true
      → half_open_for (step s pkt).globals ep
        ≡ half_open_for (count_half_open (guess_service pkt) s.globals) ep
  unfolding step on_tcp find_or_new on_syn start_handshake new_flow_state half_open_for
      count_half_open
  half_open-syn ep new_key f = ground arith

  -- A SYN-ACK answers a flow that was opened at `t`.
  pub record Answered (t : ℕ) (service : Endpoint) (f : FlowState) : Type 0 where
    pub answered_state : f.state ≡ TcpState.syn_ack_seen
    pub answered_rtt : f.rtt_ns ≡ some (pkt.ts_nanos - t)
    pub answered_counted : f.half_open_counted ≡ true
    pub answered_service : f.service ≡ service

  pub step-syn_ack :
      (f : FlowState) (t : ℕ)
      → flow_at pkt.key s ≡ some f
      → f.syn_time_ns ≡ some t
      → f.half_open_counted ≡ true
      → is_syn_only pkt.flags ≡ false
      → is_syn_ack pkt.flags ≡ true
      → Answered t f.service (step s pkt).flow
        × ((step s pkt).delta.rtt_sample_ns ≡ some (pkt.ts_nanos - t))
  unfolding step on_tcp find_or_new on_syn_ack
  step-syn_ack f t known time counted a b = (ground arith, ground arith)

  pub globals-syn_ack :
      (f : FlowState)
      → flow_at pkt.key s ≡ some f
      → is_syn_only pkt.flags ≡ false
      → is_syn_ack pkt.flags ≡ true
      → (step s pkt).globals ≡ s.globals
  unfolding step on_tcp find_or_new on_syn_ack
  globals-syn_ack f known a b = ground arith

  -- The ACK that ends a handshake.
  pub record IsFinalAck : Type 0 where
    pub no_syn : syn pkt.flags ≡ false
    pub no_fin : fin pkt.flags ≡ false
    pub no_rst : rst pkt.flags ≡ false
    pub has_ack : ack pkt.flags ≡ true

  completed : FlowState → Work
  completed f = complete_handshake pkt (record {
    flow = record f { last_seen_ns = pkt.ts_nanos };
    globals = s.globals;
    delta = no_delta;
  })

  step-ack :
      (f : FlowState)
      → flow_at pkt.key s ≡ some f
      → IsFinalAck
      → step s pkt ≡ check_ack pkt (check_data pkt (check_window pkt (completed f)))
  unfolding step on_tcp find_or_new on_segment on_fin completed
  step-ack f known h = ground arith

  -- What the ACK makes of a flow that was answered.
  pub record Established (rtt : Option ℕ) (f : FlowState) : Type 0 where
    pub established_state : f.state ≡ TcpState.established
    pub established_rtt : f.rtt_ns ≡ rtt

  completed-Kept :
      (f : FlowState) → flow_at pkt.key s ≡ some f → IsFinalAck → Kept (completed f) (step s pkt)
  completed-Kept f known h = rw (step-ack f known h) (checked-Kept pkt (completed f))

  pub step-final_ack :
      (f : FlowState)
      → flow_at pkt.key s ≡ some f
      → f.state ≡ TcpState.syn_ack_seen
      → IsFinalAck
      → Established f.rtt_ns (step s pkt).flow × ((step s pkt).delta.established_now ≡ true)
  unfolding completed complete_handshake
  step-final_ack f known answered h =
      let k = completed-Kept f known h in (ground (arith, k), ground (arith, k))

  pub globals-final_ack :
      (f : FlowState)
      → flow_at pkt.key s ≡ some f
      → f.state ≡ TcpState.syn_ack_seen
      → f.half_open_counted ≡ true
      → IsFinalAck
      → (step s pkt).globals ≡ uncount_half_open f.service s.globals
  unfolding completed complete_handshake
  globals-final_ack f known answered counted h =
      let k = completed-Kept f known h in ground (arith, k)

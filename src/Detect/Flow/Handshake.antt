-- ===== src/Detect/Flow/Handshake.antt =====
-- The three-way handshake through `EngineState::update` of flow.rs.
use network_l4_monitoring_co.Base.{
  ◌+◌, ◌-◌, ◌^◌, ◌<◌, ◌≡◌, ◌∙◌, arith, true, false, List, [], ◌∷◌, none, some,
}
use network_l4_monitoring_co.Core.Types.{
  PacketMeta, Endpoint, is_tcp, is_syn_only, is_syn_ack, syn, ack, fin, rst,
}
use network_l4_monitoring_co.Detect.Flow.{
  TcpState, FlowState, EngineState, flow_at, half_open_for, count_half_open, uncount_half_open,
}
use network_l4_monitoring_co.Detect.Flow.HalfOpen.{half_open_for-count, half_open_for-uncount}
use network_l4_monitoring_co.Detect.Flow.Invariant.{flow_at-update}
use network_l4_monitoring_co.Detect.Flow.Update.{guess_service, step, update}
use network_l4_monitoring_co.Detect.Flow.HandshakeSteps.{
  Opened, Answered, IsFinalAck, step-syn, half_open-syn, step-syn_ack, globals-syn_ack,
  step-final_ack, globals-final_ack,
}

-- SYN, SYN-ACK and final ACK of one TCP conversation.
pub record IsHandshake (p1 p2 p3 : PacketMeta) : Type 0 where
  pub tcp1 : is_tcp p1.proto ≡ true
  pub tcp2 : is_tcp p2.proto ≡ true
  pub tcp3 : is_tcp p3.proto ≡ true
  pub key2 : p2.key ≡ p1.key
  pub key3 : p3.key ≡ p1.key
  pub syn1 : is_syn_only p1.flags ≡ true
  pub not_only2 : is_syn_only p2.flags ≡ false
  pub syn_ack2 : is_syn_ack p2.flags ≡ true
  pub no_syn3 : syn p3.flags ≡ false
  pub no_fin3 : fin p3.flags ≡ false
  pub no_rst3 : rst p3.flags ≡ false
  pub ack3 : ack p3.flags ≡ true

-- The state after some packets.
unfoldable pub feed : {F : Type 0} → EngineState F → List PacketMeta → EngineState F
feed s [] = s
feed s (p ∷ ps) = feed (update s p).0 ps

module _ {F : Type 0} (s : EngineState F) (p1 p2 p3 : PacketMeta) (h : IsHandshake p1 p2 p3)
    (new_key : flow_at p1.key s ≡ none) where
  abbrev s1 : EngineState F
  s1 = (update s p1).0

  abbrev s2 : EngineState F
  s2 = (update s1 p2).0

  abbrev f1 : FlowState
  f1 = (step s p1).flow

  abbrev f2 : FlowState
  f2 = (step s1 p2).flow

  known1 : flow_at p2.key s1 ≡ some f1
  known1 = ground (arith, flow_at-update s p1 p2.key, h.key2)

  known2 : flow_at p3.key s2 ≡ some f2
  known2 = ground (arith, flow_at-update s1 p2 p3.key, h.key2, h.key3)

  opened : Opened s p1 h.tcp1 f1
  opened = step-syn s p1 h.tcp1 new_key h.syn1

  answered :
      Answered s1 p2 h.tcp2 p1.ts_nanos f1.service f2
      × ((step s1 p2).delta.rtt_sample_ns ≡ some (p2.ts_nanos - p1.ts_nanos))
  answered =
      step-syn_ack s1 p2 h.tcp2 f1 p1.ts_nanos known1 opened.opened_time opened.opened_counted
        h.not_only2 h.syn_ack2

  final : IsFinalAck s2 p3 h.tcp3
  final = record { no_syn = h.no_syn3; no_fin = h.no_fin3; no_rst = h.no_rst3; has_ack = h.ack3 }

  -- Three packets of a handshake on an unknown key leave an established flow, with the time from
  -- SYN to SYN-ACK as its round trip; the second delta has that time as its sample, and the third
  -- says that the connection was established now.
  pub handshake-established :
      (f : FlowState) × (flow_at p1.key (feed s (p1 ∷ p2 ∷ p3 ∷ [])) ≡ some f)
      × (f.state ≡ TcpState.established)
      × (f.rtt_ns ≡ some (p2.ts_nanos - p1.ts_nanos))
      × ((update s1 p2).2.rtt_sample_ns ≡ some (p2.ts_nanos - p1.ts_nanos))
      × ((update s2 p3).2.established_now ≡ true)
  unfolding feed update
  handshake-established =
      let a = answered.0 in
      let e = step-final_ack s2 p3 h.tcp3 f2 known2 a.answered_state final in
      (
        (step s2 p3).flow,
        ground (arith, flow_at-update s2 p3 p1.key, h.key3),
        e.0.established_state,
        e.0.established_rtt ∙ a.answered_rtt,
        answered.1,
        e.1,
      )

  globals-final :
      (update s2 p3).0.globals ≡ uncount_half_open (guess_service p1) (update s p1).0.globals
  unfolding update
  globals-final =
      globals-final_ack s2 p3 h.tcp3 f2 known2 answered.0.answered_state answered.0.answered_counted
        final
      ∙ ground (
        arith,
        globals-syn_ack s1 p2 h.tcp2 f1 known1 h.not_only2 h.syn_ack2,
        answered.0.answered_service,
        opened.opened_service,
      )

  half_open-s1 :
      (ep : Endpoint)
      → half_open_for (update s p1).0.globals ep
        ≡ half_open_for (count_half_open (guess_service p1) s.globals) ep
  unfolding update
  half_open-s1 ep = half_open-syn s p1 h.tcp1 ep new_key h.syn1

  -- Such a handshake leaves every half-open counter as it was, if the one of its service has room.
  pub half_open_for-handshake :
      (ep : Endpoint)
      → half_open_for s.globals (guess_service p1) + 1 < 2 ^ 32
      → half_open_for (feed s (p1 ∷ p2 ∷ p3 ∷ [])).globals ep ≡ half_open_for s.globals ep
  unfolding feed
  half_open_for-handshake ep room =
      let g = (update s p1).0.globals in
      ground (
        arith,
        globals-final,
        half_open_for-uncount (guess_service p1) ep g,
        half_open-s1 ep,
        half_open-s1 (guess_service p1),
        half_open_for-count (guess_service p1) ep s.globals,
        half_open_for-count (guess_service p1) (guess_service p1) s.globals,
      )

-- ===== src/Tests/Flow.antt =====
-- types.rs, flow.rs and the duplicate-ACK rule of detectors.rs at concrete inputs.
use network_l4_monitoring_co.Base.{
  ℕ, ◌+◌, ◌≡◌, ◌↔◌, refl, inr, true, none, some, [], ◌∷◌, arith, ap, ℕ_discrete,
}
use network_l4_monitoring_co.Base.Int.{pos, negsuc}
use network_l4_monitoring_co.Core.Types.{Endpoint, canonical, tcp, has, FlowKey-discrete}
use network_l4_monitoring_co.Core.Types.Canonical.{observed, opposite, canonical_lem}
use network_l4_monitoring_co.Detect.Flow.{TcpState, FlowState, new_state, half_open_for, flow_at}
use network_l4_monitoring_co.Detect.Flow.Seq.{seq_diff, seq_diff_lem}
use network_l4_monitoring_co.Detect.Flow.Update.{update}
use network_l4_monitoring_co.Detect.Flow.Segments.{IsSegment, resend-is_retransmit}
use network_l4_monitoring_co.Detect.Flow.Handshake.{
  IsHandshake, feed, handshake-established, half_open_for-handshake,
}
use network_l4_monitoring_co.Detect.Flow.DupAcks.{IsBareAck, resend, dup_ack_alert}
use network_l4_monitoring_co.Detect.Detectors.{inspect_dup_ack, DetectCtx}
use network_l4_monitoring_co.Tests.Values.{
  ops, fmt, cfg, client, server, key, syn_packet, syn_ack_packet, ack_packet, data_packet,
  waiting_flow, one_flow,
}

client-ne-server : ¬ (client ≡ server)
client-ne-server = λ e. omega (arith, ap (λ (p : Endpoint). p.port) e)

canonical_lem_example :
    ((canonical client server tcp).0 ≡ (canonical server client tcp).0)
    × ((canonical client server tcp).1 ≡ opposite (canonical server client tcp).1)
    × (observed (canonical client server tcp).0 (canonical client server tcp).1 ≡ (client, server))
canonical_lem_example = canonical_lem client server tcp client-ne-server

seq_diff_lem_example : (seq_diff 5 0xffff_fff0 ≡ pos 21) × (seq_diff 0xffff_fff0 6 ≡ negsuc 21)
seq_diff_lem_example = seq_diff_lem 0xffff_fff0 21 (omega arith) (omega arith)

three_way : IsHandshake syn_packet syn_ack_packet ack_packet
unfolding has
three_way = record {
  tcp1 = refl;
  tcp2 = refl;
  tcp3 = refl;
  key2 = refl;
  key3 = refl;
  syn1 = refl;
  not_only2 = refl;
  syn_ack2 = refl;
  no_syn3 = refl;
  no_fin3 = refl;
  no_rst3 = refl;
  ack3 = refl;
}

handshake-established_example :
    (f : FlowState) × (flow_at key
        (feed (new_state cfg) (syn_packet ∷ syn_ack_packet ∷ ack_packet ∷ []))
      ≡ some f)
    × (f.state ≡ TcpState.established)
    × (f.rtt_ns ≡ some 12)
    × ((update (update (new_state cfg) syn_packet).0 syn_ack_packet).2.rtt_sample_ns ≡ some 12)
    × ((update
          (feed (new_state cfg) (syn_packet ∷ syn_ack_packet ∷ []))
          ack_packet).2.established_now
        ≡ true)
unfolding new_state feed
handshake-established_example =
    handshake-established (new_state cfg) syn_packet syn_ack_packet ack_packet three_way refl

half_open_for-handshake_example :
    half_open_for
      (feed (new_state cfg) (syn_packet ∷ syn_ack_packet ∷ ack_packet ∷ [])).globals
      server
    ≡ half_open_for (new_state cfg).globals server
unfolding new_state half_open_for
half_open_for-handshake_example =
    half_open_for-handshake (new_state cfg) syn_packet syn_ack_packet ack_packet three_way refl
      server (omega arith)

data-IsSegment : IsSegment data_packet
unfolding has
data-IsSegment = record {
  of_tcp = refl;
  no_syn = refl;
  no_rst = refl;
  nonempty = omega arith;
  short = omega arith;
  seq_u32 = omega arith;
}

resend-is_retransmit_example :
    (update (update one_flow data_packet).0 (record data_packet { ts_nanos = 99 })).2.is_retransmit
    ≡ true
unfolding FlowKey-discrete ℕ_discrete
resend-is_retransmit_example =
    resend-is_retransmit one_flow data_packet waiting_flow 99 data-IsSegment refl (inr refl)

ack-IsBareAck : IsBareAck ack_packet
unfolding has
ack-IsBareAck = record {
  of_tcp = refl;
  no_syn = refl;
  no_fin = refl;
  no_rst = refl;
  has_ack = refl;
  empty = refl;
}

dup_ack_alert_example :
    let (s', k, delta) = update (resend 2 one_flow ack_packet) ack_packet in
    let ctx : DetectCtx ℕ = record { state = s'; key = k; delta = delta; now_ns = 20 } in
    (delta.is_dup_ack ≡ true)
    × (delta.dup_ack_count ≡ 3)
    × ((inspect_dup_ack ops fmt ctx ≡ none) ↔ (¬ (2 + 1 ≡ s'.cfg.dup_ack_threshold)))
unfolding FlowKey-discrete ℕ_discrete
dup_ack_alert_example =
    dup_ack_alert one_flow ack_packet waiting_flow ack-IsBareAck refl refl refl ops fmt 2
      (omega arith)

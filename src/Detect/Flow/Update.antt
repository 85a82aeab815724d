-- ===== src/Detect/Flow/Update.antt =====
-- `EngineState::update` of l4scope/crates/l4scope-detect/src/flow.rs, one function for each part
-- of its body; the checks of a segment are in Flow/Checks.
use network_l4_monitoring_co.Base.{
  ℕ, Bool, true, false, none, some, ◌&&◌, ◌||◌, leb, if◌then◌else◌, wrapping_add32, saturating_sub,
}
use network_l4_monitoring_co.Base.HashMap
use network_l4_monitoring_co.Core.Types.{
  Endpoint, FlowKey, FlowKey-discrete, PacketMeta, forward, reverse, is_tcp, is_syn_only,
  is_syn_ack, ack, fin, rst,
}
use network_l4_monitoring_co.Detect.Window
use network_l4_monitoring_co.Detect.Flow.{
  TcpState, put, FlowState, new_flow_state, PacketDelta, no_delta, EngineState, count_half_open,
  uncount_half_open,
}
use network_l4_monitoring_co.Detect.Flow.Checks.{Work, check_window, check_data, check_ack}

-- The observed (source, destination) of a packet.
unfoldable pub endpoints : PacketMeta → Endpoint × Endpoint
endpoints pkt = elim pkt.dir [
  | forward ↦ (pkt.key.low, pkt.key.high)
  | reverse ↦ (pkt.key.high, pkt.key.low)
]

unfoldable pub guess_service : PacketMeta → Endpoint
unfolding endpoints
guess_service pkt =
    let (src, dst) = endpoints pkt in
    if is_tcp pkt.proto && is_syn_only pkt.flags
    then dst
    else if leb dst.port src.port
    then dst
    else src

unfoldable pub clear_half_open : Work → Work
clear_half_open w =
    if w.flow.half_open_counted
    then record w {
      flow = record (w.flow) { half_open_counted = false };
      globals = uncount_half_open w.flow.service w.globals;
    }
    else w

-- The first bare SYN of a flow starts its handshake.
unfoldable pub start_handshake : ℕ → Work → Work
start_handshake now w = elim w.flow.syn_time_ns [
  | none ↦ record w {
    flow = record (w.flow) {
      syn_time_ns = some now;
      state = TcpState.syn_sent;
      half_open_counted = true;
    };
    globals =
        if w.flow.half_open_counted then w.globals else count_half_open w.flow.service w.globals;
  }
  | some t ↦ w
]

abbrev pub expect_next : PacketMeta → FlowState → FlowState
expect_next pkt f = record f { next_seq = put pkt.dir (some (wrapping_add32 pkt.seq 1)) f.next_seq }

unfoldable pub on_syn : PacketMeta → Work → Work
unfolding start_handshake
on_syn pkt w =
    let w' = start_handshake pkt.ts_nanos w in record w' { flow = expect_next pkt w'.flow }

unfoldable pub on_syn_ack : PacketMeta → Work → Work
on_syn_ack pkt w =
    let now = pkt.ts_nanos in
    let answered = record (w.flow) { synack_time_ns = some now; state = TcpState.syn_ack_seen } in
    elim w.flow.syn_time_ns [
      | none ↦ record w { flow = expect_next pkt answered }
      | some t ↦
          let rtt = saturating_sub now t in
          record w {
            flow = expect_next pkt (record answered { rtt_ns = some rtt });
            delta = record (w.delta) { rtt_sample_ns = some rtt };
          }
    ]

abbrev pub in_handshake : TcpState → Bool
in_handshake TcpState.syn_sent = true
in_handshake TcpState.syn_ack_seen = true
in_handshake _ = false

abbrev pub is_syn_ack_seen : TcpState → Bool
is_syn_ack_seen TcpState.syn_ack_seen = true
is_syn_ack_seen _ = false

unfoldable pub on_rst : PacketMeta → Work → Work
unfolding clear_half_open
on_rst pkt w = clear_half_open (record w {
  globals = record (w.globals) { rst_rate = Window.record_event w.globals.rst_rate pkt.ts_nanos };
  delta = record (w.delta) {
    rst_seen = true;
    handshake_refused = in_handshake w.flow.state || w.delta.handshake_refused;
  };
  flow = record (w.flow) { state = TcpState.reset };
})

-- The ACK that completes the handshake.
unfoldable pub complete_handshake : PacketMeta → Work → Work
unfolding clear_half_open
complete_handshake pkt w =
    if is_syn_ack_seen w.flow.state && ack pkt.flags
    then clear_half_open (record w {
      flow = record (w.flow) { state = TcpState.established; was_established = true };
      delta = record (w.delta) { established_now = true };
    })
    else w

unfoldable pub on_fin : PacketMeta → Work → Work
unfolding clear_half_open
on_fin pkt w =
    if fin pkt.flags
    then clear_half_open (record w { flow = record (w.flow) { state = TcpState.closing } })
    else w

-- Established, data, pure ACK and FIN.
unfoldable pub on_segment : PacketMeta → Work → Work
on_segment pkt w =
    check_ack pkt (check_data pkt (check_window pkt (on_fin pkt (complete_handshake pkt w))))

unfoldable pub on_tcp : PacketMeta → Work → Work
on_tcp pkt w =
    if is_syn_only pkt.flags
    then on_syn pkt w
    else if is_syn_ack pkt.flags
    then on_syn_ack pkt w
    else if rst pkt.flags
    then on_rst pkt w
    else on_segment pkt w

-- The flow of the packet's key, made if there is none yet.
unfoldable pub find_or_new : {F : Type 0} → EngineState F → PacketMeta → Work
find_or_new s pkt = elim (HashMap.get FlowKey-discrete pkt.key s.flows) [
  | some flow ↦ record { flow = flow; globals = s.globals; delta = no_delta }
  | none ↦ record {
    flow = new_flow_state pkt.proto pkt.ts_nanos (guess_service pkt);
    globals = record (s.globals) {
      new_flow_rate = Window.record_event s.globals.new_flow_rate pkt.ts_nanos;
    };
    delta = record no_delta { new_flow = true };
  }
]

abbrev pub touch : PacketMeta → Work → Work
touch pkt w = record w { flow = record (w.flow) { last_seen_ns = pkt.ts_nanos } }

unfoldable pub step : {F : Type 0} → EngineState F → PacketMeta → Work
step s pkt = let w = touch pkt (find_or_new s pkt) in if is_tcp pkt.proto then on_tcp pkt w else w

unfoldable pub update :
    {F : Type 0} → EngineState F → PacketMeta → EngineState F × FlowKey × PacketDelta
unfolding step
update s pkt =
    let w = step s pkt in
    (
      record s {
        flows = HashMap.insert FlowKey-discrete pkt.key w.flow s.flows;
        globals = w.globals;
      },
      pkt.key,
      record (w.delta) { service = some w.flow.service },
    )

-- ===== src/Detect/Flow/Checks.antt =====
-- The checks of a segment in `EngineState::update` of l4scope/crates/l4scope-detect/src/flow.rs, and what
-- its body mutates: `Work` has the packet's flow, the globals and the delta.
use network_l4_monitoring_co.Base.{
  ℕ, Bool, true, false, not, Option, none, some, ◌&&◌, ◌||◌, ltb, ◌==◌, if◌then◌else◌,
  wrapping_add32, wrapping_add64,
}
use network_l4_monitoring_co.Base.Int.{is_negative, is_positive}
use network_l4_monitoring_co.Core.Types.{PacketMeta, syn, ack, fin}
use network_l4_monitoring_co.Detect.Flow.{TcpState, at, put, FlowState, PacketDelta, Globals}
use network_l4_monitoring_co.Detect.Flow.Seq.{seq_diff}

pub record Work : Type 0 where
  pub flow : FlowState
  pub globals : Globals
  pub delta : PacketDelta

abbrev pub is_closing : TcpState → Bool
is_closing TcpState.closing = true
is_closing _ = false

-- The zero-window edge of an active connection.
unfoldable pub check_window : PacketMeta → Work → Work
check_window pkt w =
    if w.flow.was_established || is_closing w.flow.state
    then (let was_zero = at pkt.dir w.flow.zero_window in
        let now_zero = pkt.window == 0 in
        record w {
          delta = record (w.delta) {
            zero_window_edge = now_zero && not was_zero || w.delta.zero_window_edge;
          };
          flow = record (w.flow) { zero_window = put pkt.dir now_zero w.flow.zero_window };
        })
    else w

abbrev pub advance_to : PacketMeta → ℕ → FlowState → FlowState
advance_to pkt end_seq f = record f { next_seq = put pkt.dir (some end_seq) f.next_seq }

-- Retransmission and out-of-order checks of a data-bearing segment.
unfoldable pub check_data : PacketMeta → Work → Work
check_data pkt w =
    if ltb 0 pkt.payload_len
    then (let flow = record (w.flow) { data_segments = wrapping_add64 w.flow.data_segments 1 } in
        let end_seq = wrapping_add32 pkt.seq pkt.payload_len in
        elim (at pkt.dir w.flow.next_seq) [
          | none ↦ record w { flow = advance_to pkt end_seq flow }
          | some expected ↦
              let diff = seq_diff pkt.seq expected in
              let seen =
                if is_negative diff
                then record flow { retransmits = wrapping_add64 w.flow.retransmits 1 }
                else flow in
              record w {
                flow =
                    if is_positive (seq_diff end_seq expected)
                    then advance_to pkt end_seq seen
                    else seen;
                delta = record (w.delta) {
                  is_retransmit = is_negative diff || w.delta.is_retransmit;
                  is_out_of_order = is_positive diff || w.delta.is_out_of_order;
                };
              }
        ])
    else w

abbrev pub same_ack : Option ℕ → ℕ → Bool
same_ack none n = false
same_ack (some prev) n = prev == n

-- Duplicate-ACK detection: a bare ACK with no new data.
unfoldable pub check_ack : PacketMeta → Work → Work
check_ack pkt w =
    if ack pkt.flags && pkt.payload_len == 0 && not (syn pkt.flags) && not (fin pkt.flags)
    then if same_ack (at pkt.dir w.flow.last_ack) pkt.ack_no
      then (let n = wrapping_add32 (at pkt.dir w.flow.dup_ack_count) 1 in
          record w {
            flow = record (w.flow) { dup_ack_count = put pkt.dir n w.flow.dup_ack_count };
            delta = record (w.delta) { is_dup_ack = true; dup_ack_count = n };
          })
      else record w {
        flow = record (w.flow) {
          last_ack = put pkt.dir (some pkt.ack_no) w.flow.last_ack;
          dup_ack_count = put pkt.dir 0 w.flow.dup_ack_count;
        };
      }
    else w

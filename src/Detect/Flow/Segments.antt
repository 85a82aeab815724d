-- ===== src/Detect/Flow/Segments.antt =====
-- Retransmissions and duplicate acknowledgements of flow.rs.
use network_l4_monitoring_co.Base.{
  ℕ, ◌^◌, ◌<◌, ◌≡◌, ◌⊎◌, refl, arith, true, false, none, some, wrapping_add32,
}
use network_l4_monitoring_co.Core.Types.{PacketMeta, Direction, forward, reverse, is_tcp, syn, rst}
use network_l4_monitoring_co.Detect.Flow.{FlowState, at, put, Sides, EngineState, flow_at, no_delta}
use network_l4_monitoring_co.Detect.Flow.Invariant.{flow_at-update}
use network_l4_monitoring_co.Detect.Flow.Seq.{seq_diff}
use network_l4_monitoring_co.Detect.Flow.Update.{
  on_fin, complete_handshake, on_segment, on_tcp, find_or_new, step, update,
}
use network_l4_monitoring_co.Detect.Flow.Checks.{Work, check_data, check_ack, check_window}

pub at-put : {A : Type 0} (d : Direction) (a : A) (s : Sides A) → at d (put d a s) ≡ a
at-put forward a s = refl
at-put reverse a s = refl

-- The data check of a segment that is expected, or the first that is seen of its direction, and
-- of a segment that ends where the next one is expected.
module _ (pkt : PacketMeta) (w : Work) (nonempty : 0 < pkt.payload_len)
    (short : pkt.payload_len < 2 ^ 31) (in_u32 : pkt.seq < 2 ^ 32) where
  next_seq-check_data :
      (at pkt.dir w.flow.next_seq ≡ none) ⊎ (at pkt.dir w.flow.next_seq ≡ some pkt.seq)
      → at pkt.dir (check_data pkt w).flow.next_seq ≡ some (wrapping_add32 pkt.seq pkt.payload_len)
  unfolding check_data seq_diff
  next_seq-check_data e =
      ground (arith, at-put pkt.dir (some (wrapping_add32 pkt.seq pkt.payload_len)) w.flow.next_seq)

  is_retransmit_of_behind :
      at pkt.dir w.flow.next_seq ≡ some (wrapping_add32 pkt.seq pkt.payload_len)
      → (check_data pkt w).delta.is_retransmit ≡ true
  unfolding check_data seq_diff
  is_retransmit_of_behind e = ground arith

-- What the parts before the data check leave alone.
abbrev prepare : PacketMeta → Work → Work
prepare pkt w = check_window pkt (on_fin pkt (complete_handshake pkt w))

next_seq-prepare : (pkt : PacketMeta) (w : Work) → (prepare pkt w).flow.next_seq ≡ w.flow.next_seq
unfolding check_window on_fin complete_handshake
next_seq-prepare pkt w = ground arith

is_retransmit-prepare :
    (pkt : PacketMeta) (w : Work) → (prepare pkt w).delta.is_retransmit ≡ w.delta.is_retransmit
unfolding check_window on_fin complete_handshake
is_retransmit-prepare pkt w = ground arith

is_out_of_order-prepare :
    (pkt : PacketMeta) (w : Work) → (prepare pkt w).delta.is_out_of_order ≡ w.delta.is_out_of_order
unfolding check_window on_fin complete_handshake
is_out_of_order-prepare pkt w = ground arith

next_seq-check_ack :
    (pkt : PacketMeta) (w : Work) → (check_ack pkt w).flow.next_seq ≡ w.flow.next_seq
unfolding check_ack
next_seq-check_ack pkt w = ground arith

is_retransmit-check_ack :
    (pkt : PacketMeta) (w : Work) → (check_ack pkt w).delta.is_retransmit ≡ w.delta.is_retransmit
unfolding check_ack
is_retransmit-check_ack pkt w = ground arith

is_out_of_order-check_ack :
    (pkt : PacketMeta) (w : Work)
    → (check_ack pkt w).delta.is_out_of_order ≡ w.delta.is_out_of_order
unfolding check_ack
is_out_of_order-check_ack pkt w = ground arith

-- A TCP packet with data, and with neither SYN nor RST.
pub record IsSegment (pkt : PacketMeta) : Type 0 where
  pub of_tcp : is_tcp pkt.proto ≡ true
  pub no_syn : syn pkt.flags ≡ false
  pub no_rst : rst pkt.flags ≡ false
  pub nonempty : 0 < pkt.payload_len
  pub short : pkt.payload_len < 2 ^ 31
  pub seq_u32 : pkt.seq < 2 ^ 32

abbrev pub end_of : PacketMeta → ℕ
end_of pkt = wrapping_add32 pkt.seq pkt.payload_len

module _ {F : Type 0} (s : EngineState F) (pkt : PacketMeta) (f : FlowState) (seg : IsSegment pkt)
    (known : flow_at pkt.key s ≡ some f) where
  step-segment :
      step s pkt
      ≡ on_segment pkt (record {
        flow = record f { last_seen_ns = pkt.ts_nanos };
        globals = s.globals;
        delta = no_delta;
      })
  unfolding step on_tcp find_or_new
  step-segment = ground arith

  step-next_seq :
      (at pkt.dir f.next_seq ≡ none) ⊎ (at pkt.dir f.next_seq ≡ some pkt.seq)
      → at pkt.dir (step s pkt).flow.next_seq ≡ some (end_of pkt)
  unfolding on_segment
  step-next_seq e =
      let w : Work = record {
        flow = record f { last_seen_ns = pkt.ts_nanos };
        globals = s.globals;
        delta = no_delta;
      } in
      rw (step-segment, on_segment, next_seq-check_ack)
        (next_seq-check_data pkt (prepare pkt w) seg.nonempty seg.short seg.seq_u32
          (rw next_seq-prepare e))

  delta-of_behind :
      at pkt.dir f.next_seq ≡ some (end_of pkt) → (step s pkt).delta.is_retransmit ≡ true
  unfolding on_segment
  delta-of_behind e =
      let w : Work = record {
        flow = record f { last_seen_ns = pkt.ts_nanos };
        globals = s.globals;
        delta = no_delta;
      } in
      rw (step-segment, on_segment, is_retransmit-check_ack)
        (is_retransmit_of_behind pkt (prepare pkt w) seg.nonempty seg.short seg.seq_u32
          (rw next_seq-prepare e))

-- A TCP segment of fewer than 2^31 bytes that has the expected sequence number, or is the first of
-- its direction in a known flow, is called a retransmission when it comes a second time next.
pub resend-is_retransmit :
    {F : Type 0} (s : EngineState F) (pkt : PacketMeta) (f : FlowState) (later : ℕ)
    → IsSegment pkt
    → flow_at pkt.key s ≡ some f
    → (at pkt.dir f.next_seq ≡ none) ⊎ (at pkt.dir f.next_seq ≡ some pkt.seq)
    → (update (update s pkt).0 (record pkt { ts_nanos = later })).2.is_retransmit ≡ true
unfolding update
resend-is_retransmit s pkt f later seg known e =
    delta-of_behind (update s pkt).0 (record pkt { ts_nanos = later }) (step s pkt).flow
      (ground arith) (ground (arith, flow_at-update s pkt pkt.key))
      (step-next_seq s pkt f seg known e)

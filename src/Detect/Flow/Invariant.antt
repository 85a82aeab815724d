-- ===== src/Detect/Flow/Invariant.antt =====
-- The invariant of one flow under `EngineState::update` of flow.rs.
use network_l4_monitoring_co.Base.{
  ℕ, suc, ◌+◌, ◌^◌, ◌≤◌, ◌<◌, ◌≡◌, Option, none, some, arith, Bool, true, false, ◌&&◌, ◌||◌,
  Option-cases, Bool-cases, inl, inr, ite,
}
use network_l4_monitoring_co.Base.HashMap.{get-insert}
use network_l4_monitoring_co.Core.Types.{
  FlowKey, FlowKey-discrete, PacketMeta, is_tcp, is_syn_only, is_syn_ack, rst,
}
use network_l4_monitoring_co.Detect.Flow.{
  FlowState, new_flow_state, EngineState, is_syn_sent, flow_at,
}
use network_l4_monitoring_co.Detect.Flow.Update.{
  in_handshake, start_handshake, on_syn, on_syn_ack, on_rst, complete_handshake, on_fin, on_segment,
  on_tcp, find_or_new, touch, step, update,
}
use network_l4_monitoring_co.Detect.Flow.Checks.{Work, check_window, check_data, check_ack}

abbrev pub is_some : Option ℕ → Bool
is_some none = false
is_some (some t) = true

-- `n` bounds the packets that the flow has seen.
pub record IsValid (n : ℕ) (f : FlowState) : Type 0 where
  -- a counted flow is in its handshake
  pub counted_open : f.half_open_counted ≡ true → in_handshake f.state ≡ true
  -- an unanswered SYN is counted until it is reported
  pub waiting_counted :
      is_syn_sent f.state ≡ true → (f.handshake_timeout_flagged || f.half_open_counted) ≡ true
  pub waiting_timed : is_syn_sent f.state ≡ true → is_some f.syn_time_ns ≡ true
  pub flagged_timed : f.handshake_timeout_flagged ≡ true → is_some f.syn_time_ns ≡ true
  pub flagged_uncounted : (f.handshake_timeout_flagged && f.half_open_counted) ≡ false
  pub retransmits_le : f.retransmits ≤ f.data_segments
  pub segments_le : f.data_segments ≤ n

pub IsValid-suc : (n : ℕ) {f : FlowState} → IsValid n f → IsValid (suc n) f
IsValid-suc n v = ground arith

module _ (n : ℕ) (pkt : PacketMeta) where
  start_handshake-IsValid :
      (now : ℕ) (w : Work) → IsValid n w.flow → IsValid n (start_handshake now w).flow
  unfolding start_handshake
  start_handshake-IsValid now w v = ground (arith, v.flagged_timed)

  on_syn-IsValid : (w : Work) → IsValid n w.flow → IsValid n (on_syn pkt w).flow
  unfolding on_syn
  on_syn-IsValid w v = ground arith

  on_syn_ack-IsValid : (w : Work) → IsValid n w.flow → IsValid n (on_syn_ack pkt w).flow
  unfolding on_syn_ack
  on_syn_ack-IsValid w v = ground arith

  on_rst-IsValid : (w : Work) → IsValid n w.flow → IsValid n (on_rst pkt w).flow
  unfolding on_rst
  on_rst-IsValid w v = ground arith

  complete_handshake-IsValid :
      (w : Work) → IsValid n w.flow → IsValid n (complete_handshake pkt w).flow
  unfolding complete_handshake
  complete_handshake-IsValid w v = ground arith

  on_fin-IsValid : (w : Work) → IsValid n w.flow → IsValid n (on_fin pkt w).flow
  unfolding on_fin
  on_fin-IsValid w v = ground arith

  check_window-IsValid : (w : Work) → IsValid n w.flow → IsValid n (check_window pkt w).flow
  unfolding check_window
  check_window-IsValid w v = ground arith

  check_data-IsValid :
      (w : Work) → n + 1 < 2 ^ 64 → IsValid n w.flow → IsValid (suc n) (check_data pkt w).flow
  unfolding check_data
  check_data-IsValid w lt v = ground arith

  check_ack-IsValid : (w : Work) → IsValid (suc n) w.flow → IsValid (suc n) (check_ack pkt w).flow
  unfolding check_ack
  check_ack-IsValid w v = ground arith

  on_segment-IsValid :
      (w : Work) → n + 1 < 2 ^ 64 → IsValid n w.flow → IsValid (suc n) (on_segment pkt w).flow
  unfolding on_segment
  on_segment-IsValid w lt v = check_ack-IsValid _ (
      check_data-IsValid _ lt
        (check_window-IsValid _ (on_fin-IsValid _ (complete_handshake-IsValid w v))))

  on_tcp-IsValid :
      (w : Work) → n + 1 < 2 ^ 64 → IsValid n w.flow → IsValid (suc n) (on_tcp pkt w).flow
  unfolding on_tcp
  on_tcp-IsValid w lt v = elim (Bool-cases (is_syn_only pkt.flags)) [
    | inl a ↦ rw (a, on_tcp) (IsValid-suc n (on_syn-IsValid w v))
    | inr a ↦ elim (Bool-cases (is_syn_ack pkt.flags)) [
      | inl b ↦ rw (a, on_tcp, b) (IsValid-suc n (on_syn_ack-IsValid w v))
      | inr b ↦ elim (Bool-cases (rst pkt.flags)) [
        | inl c ↦ rw (a, on_tcp, b, c) (IsValid-suc n (on_rst-IsValid w v))
        | inr c ↦ rw (a, on_tcp, b, c) (on_segment-IsValid w lt v)
      ]
    ]
  ]

-- Every flow of the table is valid.
abbrev pub AllValid : {F : Type 0} → ℕ → EngineState F → Type 0
AllValid n s = (k : FlowKey) (f : FlowState) → flow_at k s ≡ some f → IsValid n f

find_or_new-IsValid :
    {F : Type 0} (n : ℕ) (s : EngineState F) (pkt : PacketMeta)
    → AllValid n s
    → IsValid n (find_or_new s pkt).flow
unfolding find_or_new new_flow_state
find_or_new-IsValid n s pkt v = elim (Option-cases (flow_at pkt.key s)) [
  | inl e ↦ rw (e, find_or_new) (ground arith)
  | inr (f, e) ↦ rw (e, find_or_new) (v pkt.key f e)
]

step-IsValid :
    {F : Type 0} (n : ℕ) (s : EngineState F) (pkt : PacketMeta)
    → n + 1 < 2 ^ 64
    → AllValid n s
    → IsValid (suc n) (step s pkt).flow
unfolding step
step-IsValid n s pkt lt v =
    let w = touch pkt (find_or_new s pkt) in
    let found : IsValid n w.flow = ground (arith, find_or_new-IsValid n s pkt v) in
    elim (Bool-cases (is_tcp pkt.proto)) [
      | inl t ↦ rw (t, step) (on_tcp-IsValid n pkt w lt found)
      | inr t ↦ rw (t, step) (IsValid-suc n found)
    ]

-- A packet replaces the flow of its key, and no other flow.
pub flow_at-update :
    {F : Type 0} (s : EngineState F) (pkt : PacketMeta) (j : FlowKey)
    → flow_at j (update s pkt).0
      ≡ ite (FlowKey-discrete pkt.key j) (some (step s pkt).flow) (flow_at j s)
unfolding update
flow_at-update s pkt j = get-insert FlowKey-discrete pkt.key j (step s pkt).flow s.flows

pub update-AllValid :
    {F : Type 0} (n : ℕ) (s : EngineState F) (pkt : PacketMeta)
    → n + 1 < 2 ^ 64
    → AllValid n s
    → AllValid (suc n) (update s pkt).0
update-AllValid n s pkt lt v k f e = elim (FlowKey-discrete pkt.key k) [
  | yes p ↦ ground (arith, step-IsValid n s pkt lt v, flow_at-update s pkt k)
  | no p ↦ IsValid-suc n (v k f (ground (arith, flow_at-update s pkt k)))
]

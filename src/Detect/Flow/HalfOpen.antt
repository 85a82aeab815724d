-- ===== src/Detect/Flow/HalfOpen.antt =====
-- The half-open counters of flow.rs count the flows that are marked as counted, exactly.
use network_l4_monitoring_co.Base.{
  ℕ, ◌+◌, ◌-◌, ◌^◌, ◌≤◌, ◌<◌, ◌≡◌, sym, ◌∙◌, ite, [], ◌∷◌, some, arith, if◌then◌else◌, length,
  Option-cases, inl, inr, wrapping_add32,
}
use network_l4_monitoring_co.Base.HashMap
use network_l4_monitoring_co.Base.HashMap.{HashMap, get-insert, length-remove-le, remove_absent}
use network_l4_monitoring_co.Core.Types.{
  Endpoint, FlowKey, Endpoint-discrete, FlowKey-discrete, PacketMeta,
}
use network_l4_monitoring_co.Detect.Flow.{
  FlowState, new_flow_state, Globals, EngineState, half_open_for, count_half_open,
  uncount_half_open,
}
use network_l4_monitoring_co.Detect.Flow.Update.{
  clear_half_open, start_handshake, on_syn, on_syn_ack, on_rst, complete_handshake, on_fin,
  on_segment, on_tcp, find_or_new, touch, step, update,
}
use network_l4_monitoring_co.Detect.Flow.Checks.{Work, check_window, check_data, check_ack}

-- What a flow adds to the count of a service.
abbrev pub weight : Endpoint → FlowState → ℕ
weight ep f = ite (Endpoint-discrete f.service ep) (if f.half_open_counted then 1 else 0) 0

-- The number of flows of a service that are marked as counted.
unfoldable pub tally : Endpoint → HashMap FlowKey FlowState → ℕ
tally ep [] = 0
tally ep ((k, f) ∷ m) = weight ep f + tally ep m

pub record IsExact {F : Type 0} (s : EngineState F) : Type 0 where
  pub at : (ep : Endpoint) → half_open_for s.globals ep ≡ tally ep s.flows

pub half_open_for-count :
    (e ep : Endpoint) (g : Globals)
    → half_open_for (count_half_open e g) ep
      ≡ ite (Endpoint-discrete e ep) (wrapping_add32 (half_open_for g e) 1) (half_open_for g ep)
unfolding half_open_for count_half_open
half_open_for-count e ep g =
    ground
      (arith, get-insert Endpoint-discrete e ep (wrapping_add32 (half_open_for g e) 1) g.half_open)

pub half_open_for-uncount :
    (e ep : Endpoint) (g : Globals)
    → half_open_for (uncount_half_open e g) ep
      ≡ ite (Endpoint-discrete e ep) (half_open_for g e - 1) (half_open_for g ep)
unfolding half_open_for uncount_half_open
half_open_for-uncount e ep g = elim (Option-cases (HashMap.get Endpoint-discrete e g.half_open)) [
  | inl n ↦ ground arith
  | inr (c, n) ↦ ground (arith, get-insert Endpoint-discrete e ep (c - 1) g.half_open)
]

-- The packet's flow and the other flows together account for every counter.
abbrev Balanced : (Endpoint → ℕ) → Work → Type 0
Balanced rest w = (ep : Endpoint) → half_open_for w.globals ep ≡ weight ep w.flow + rest ep

module _ (rest : Endpoint → ℕ) where
  clear_half_open-Balanced : (w : Work) → Balanced rest w → Balanced rest (clear_half_open w)
  unfolding clear_half_open
  clear_half_open-Balanced w h ep =
      ground (arith, h ep, h w.flow.service, half_open_for-uncount w.flow.service ep w.globals)

  start_handshake-Balanced :
      (now : ℕ) (w : Work)
      → rest w.flow.service + 1 < 2 ^ 32
      → Balanced rest w
      → Balanced rest (start_handshake now w)
  unfolding start_handshake
  start_handshake-Balanced now w b h ep =
      ground (arith, h ep, h w.flow.service, half_open_for-count w.flow.service ep w.globals)

  on_rst-Balanced : (pkt : PacketMeta) (w : Work) → Balanced rest w → Balanced rest (on_rst pkt w)
  unfolding on_rst half_open_for
  on_rst-Balanced pkt w h = clear_half_open-Balanced _ h

  on_syn-Balanced :
      (pkt : PacketMeta) (w : Work)
      → rest w.flow.service + 1 < 2 ^ 32
      → Balanced rest w
      → Balanced rest (on_syn pkt w)
  unfolding on_syn
  on_syn-Balanced pkt w lt h = start_handshake-Balanced pkt.ts_nanos w lt h

  on_syn_ack-Balanced :
      (pkt : PacketMeta) (w : Work) → Balanced rest w → Balanced rest (on_syn_ack pkt w)
  unfolding on_syn_ack
  on_syn_ack-Balanced pkt w h ep = ground (arith, h ep)

  complete_handshake-Balanced :
      (pkt : PacketMeta) (w : Work) → Balanced rest w → Balanced rest (complete_handshake pkt w)
  unfolding complete_handshake
  complete_handshake-Balanced pkt w h ep =
      ground (arith, h ep, h w.flow.service, half_open_for-uncount w.flow.service ep w.globals)

  on_fin-Balanced : (pkt : PacketMeta) (w : Work) → Balanced rest w → Balanced rest (on_fin pkt w)
  unfolding on_fin
  on_fin-Balanced pkt w h ep =
      ground (arith, h ep, h w.flow.service, half_open_for-uncount w.flow.service ep w.globals)

  check_window-Balanced :
      (pkt : PacketMeta) (w : Work) → Balanced rest w → Balanced rest (check_window pkt w)
  unfolding check_window
  check_window-Balanced pkt w h ep = ground (arith, h ep)

  check_data-Balanced :
      (pkt : PacketMeta) (w : Work) → Balanced rest w → Balanced rest (check_data pkt w)
  unfolding check_data
  check_data-Balanced pkt w h ep = ground (arith, h ep)

  check_ack-Balanced :
      (pkt : PacketMeta) (w : Work) → Balanced rest w → Balanced rest (check_ack pkt w)
  unfolding check_ack
  check_ack-Balanced pkt w h ep = ground (arith, h ep)

  on_segment-Balanced :
      (pkt : PacketMeta) (w : Work) → Balanced rest w → Balanced rest (on_segment pkt w)
  unfolding on_segment
  on_segment-Balanced pkt w h = check_ack-Balanced pkt _ (
      check_data-Balanced pkt _
        (check_window-Balanced pkt _ (on_fin-Balanced pkt _ (complete_handshake-Balanced pkt w h))))

  on_tcp-Balanced :
      (pkt : PacketMeta) (w : Work)
      → rest w.flow.service + 1 < 2 ^ 32
      → Balanced rest w
      → Balanced rest (on_tcp pkt w)
  unfolding on_tcp
  on_tcp-Balanced pkt w lt h ep = ground (
    arith,
    on_syn-Balanced pkt w lt h ep,
    on_syn_ack-Balanced pkt w h ep,
    on_rst-Balanced pkt w h ep,
    on_segment-Balanced pkt w h ep,
  )

pub tally-insert :
    (ep : Endpoint) (k : FlowKey) (f : FlowState) (m : HashMap FlowKey FlowState)
    → tally ep (HashMap.insert FlowKey-discrete k f m)
      ≡ weight ep f + tally ep (HashMap.remove FlowKey-discrete k m)
unfolding tally
tally-insert ep k f [] = omega arith
tally-insert ep k f ((j, g) ∷ m) = ground (arith, tally-insert ep k f m)

pub tally-remove :
    (ep : Endpoint) (k : FlowKey) (f : FlowState) (m : HashMap FlowKey FlowState)
    → HashMap.get FlowKey-discrete k m ≡ some f
    → tally ep m ≡ weight ep f + tally ep (HashMap.remove FlowKey-discrete k m)
unfolding tally
tally-remove ep k f [] h = cc
tally-remove ep k f ((j, g) ∷ m) h = ground (arith, tally-remove ep k f m)

pub tally-le-length : (ep : Endpoint) (m : HashMap FlowKey FlowState) → tally ep m ≤ length m
unfolding tally
tally-le-length ep [] = omega arith
tally-le-length ep ((k, f) ∷ m) = ground (arith, tally-le-length ep m)

find_or_new-Balanced :
    {F : Type 0} (s : EngineState F) (pkt : PacketMeta)
    → IsExact s
    → Balanced
        (λ ep. tally ep (HashMap.remove FlowKey-discrete pkt.key s.flows))
        (find_or_new s pkt)
unfolding find_or_new new_flow_state half_open_for
find_or_new-Balanced s pkt x ep =
    elim (Option-cases (HashMap.get FlowKey-discrete pkt.key s.flows)) [
      | inl e ↦ ground (arith, x.at ep, remove_absent FlowKey-discrete pkt.key s.flows)
      | inr (f, e) ↦ ground (arith, x.at ep, tally-remove ep pkt.key f s.flows)
    ]

step-Balanced :
    {F : Type 0} (s : EngineState F) (pkt : PacketMeta)
    → length s.flows < 2 ^ 32 - 1
    → IsExact s
    → Balanced (λ ep. tally ep (HashMap.remove FlowKey-discrete pkt.key s.flows)) (step s pkt)
unfolding step
step-Balanced s pkt lt x ep =
    let others = HashMap.remove FlowKey-discrete pkt.key s.flows in
    let w = touch pkt (find_or_new s pkt) in
    let found = find_or_new-Balanced s pkt x in
    ground (
      arith,
      found ep,
      on_tcp-Balanced (λ e. tally e others) pkt w
          (omega (
            arith,
            tally-le-length w.flow.service others,
            length-remove-le FlowKey-discrete pkt.key s.flows,
          ))
          found ep,
    )

-- A packet keeps the half-open counter of every service equal to the number of tracked flows to
-- it that are marked as counted, if fewer than 2^32 - 1 flows are tracked.
pub update-IsExact :
    {F : Type 0} (s : EngineState F) (pkt : PacketMeta)
    → length s.flows < 2 ^ 32 - 1
    → IsExact s
    → IsExact (update s pkt).0
unfolding update
update-IsExact s pkt lt x = record {
  at = λ ep. step-Balanced s pkt lt x ep ∙ sym (tally-insert ep pkt.key (step s pkt).flow s.flows);
}

-- ===== src/Detect/Engine/Unanswered.antt =====
-- The handshake timeouts over a history of engine.rs: an unanswered SYN is reported in the end.
use network_l4_monitoring_co.Base.{
  ℕ, ◌+◌, ◌≤◌, ◌<◌, ◌≡◌, ◌≢◌, ◌⊎◌, inl, inr, refl, ap, ◌∙◌, true, if_pos, List, [], ◌∷◌, ◌++◌, none,
  All, arith,
}
use mathlib.Core.List.{append-nil}
use network_l4_monitoring_co.Base.HashMap.{Distinct, get-insert, insert-Distinct}
use network_l4_monitoring_co.Core.Float.{FloatOps, Fmt}
use network_l4_monitoring_co.Core.Config.{DetectConfig}
use network_l4_monitoring_co.Core.Types.{FlowKey, FlowKey-discrete, PacketMeta, is_tcp, is_syn_only}
use network_l4_monitoring_co.Detect.Flow.{FlowState, EngineState, flow_at, new_flow_state}
use network_l4_monitoring_co.Detect.Flow.Update.{
  step, update, on_tcp, find_or_new, on_syn, start_handshake,
}
use network_l4_monitoring_co.Detect.Engine.{Engine, sweep, process}
use network_l4_monitoring_co.Detect.Engine.Trace.{Call, packet, timer, call, run}
use network_l4_monitoring_co.Detect.Engine.Timeouts.{
  reported, reported_after, reported_before, late-timed_out, ttl_ns, timeout_ns, IsWaiting, Waits,
  reported-sweep, sweep_outcome, update-Waits, process_outcome,
}

-- A call is one of the timer, or a packet of another flow.
abbrev pub IsOther : FlowKey → Call → Type 0
IsOther k (timer now) = Unit {0}
IsOther k (packet pkt) = pkt.key ≢ k

module _ {F : Type 0} (ops : FloatOps F) (fmt : Fmt F) (cfg : DetectConfig F) (k : FlowKey)
    (f : FlowState) (t : ℕ) where
  call_outcome :
      (c : Call) (e : Engine F)
      → IsWaiting t f
      → timeout_ns cfg ≤ ttl_ns cfg
      → IsOther k c
      → Waits cfg k f e
      → (reported k (call ops fmt c e).1 ≡ true) ⊎ Waits cfg k f (call ops fmt c e).0
  call_outcome (timer now) e is le other w = sweep_outcome ops fmt cfg k f t now e is le w
  call_outcome (packet pkt) e is le other w =
      process_outcome ops fmt cfg k f t pkt e is le (update-Waits ops fmt cfg k f t pkt e other w)

  waiting-run :
      (cs : List Call) (now : ℕ) (e : Engine F)
      → IsWaiting t f
      → timeout_ns cfg ≤ ttl_ns cfg
      → All (IsOther k) cs
      → t + timeout_ns cfg < now
      → Waits cfg k f e
      → reported k (run ops fmt (cs ++ timer now ∷ []) e).1 ≡ true
  unfolding run
  waiting-run [] now e is le others lt w =
      let last : reported k (sweep ops fmt now e).1 ≡ true =
        reported-sweep ops fmt cfg k f t now e w ∙ late-timed_out t now (timeout_ns cfg) f is lt in
      ap (reported k) (append-nil (sweep ops fmt now e).1) ∙ last
  waiting-run (c ∷ cs) now e is le others lt w =
      let (e', out) = call ops fmt c e in
      elim (call_outcome c e is le others.0 w) [
        | inl r ↦ reported_before k out (run ops fmt (cs ++ timer now ∷ []) e').1 r
        | inr w' ↦
            reported_after k out (run ops fmt (cs ++ timer now ∷ []) e').1
              (waiting-run cs now e' is le others.1 lt w')
      ]

step-IsWaiting :
    {F : Type 0} (s : EngineState F) (pkt : PacketMeta)
    → is_tcp pkt.proto ≡ true
    → is_syn_only pkt.flags ≡ true
    → flow_at pkt.key s ≡ none
    → IsWaiting pkt.ts_nanos (step s pkt).flow
unfolding step on_tcp find_or_new on_syn start_handshake new_flow_state
step-IsWaiting s pkt tcp only fresh = ground arith

opened-Waits :
    {F : Type 0} (e : Engine F) (pkt : PacketMeta)
    → Distinct FlowKey-discrete e.state.flows
    → Waits e.state.cfg pkt.key
        (step e.state pkt).flow
        (record e { state = (update e.state pkt).0 })
unfolding update
opened-Waits e pkt distinct = record {
  same = refl;
  distinct =
      insert-Distinct FlowKey-discrete pkt.key (step e.state pkt).flow e.state.flows distinct;
  is =
      get-insert FlowKey-discrete pkt.key pkt.key (step e.state pkt).flow e.state.flows
      ∙ if_pos (FlowKey-discrete pkt.key pkt.key) refl _ _;
}

-- A bare SYN opens a conversation, then come calls of the timer and packets of other flows: the
-- first call of the timer that is later than the SYN by more than the handshake timeout finds the
-- flow reported, or reports it. The timeout is no longer than the time after which an idle flow
-- is dropped, and the flow table lists each key once.
pub unanswered_syn_reported :
    {F : Type 0} (ops : FloatOps F) (fmt : Fmt F) (e : Engine F) (pkt : PacketMeta) (cs : List Call)
    (now : ℕ)
    → is_tcp pkt.proto ≡ true
    → is_syn_only pkt.flags ≡ true
    → flow_at pkt.key e.state ≡ none
    → Distinct FlowKey-discrete e.state.flows
    → timeout_ns e.state.cfg ≤ ttl_ns e.state.cfg
    → All (IsOther pkt.key) cs
    → pkt.ts_nanos + timeout_ns e.state.cfg < now
    → reported pkt.key (run ops fmt (packet pkt ∷ cs ++ timer now ∷ []) e).1 ≡ true
unfolding run
unanswered_syn_reported {F} ops fmt e pkt cs now tcp only fresh distinct le others lt =
    let cfg = e.state.cfg in
    let k = pkt.key in
    let f = (step e.state pkt).flow in
    let is = step-IsWaiting e.state pkt tcp only fresh in
    let (e', out) = process ops fmt pkt e in
    let later = (run ops fmt (cs ++ timer now ∷ []) e').1 in
    let opened : Waits cfg k f (record e { state = (update e.state pkt).0 }) =
      opened-Waits e pkt distinct in
    elim (process_outcome ops fmt cfg k f pkt.ts_nanos pkt e is le opened) [
      | inl r ↦ reported_before k out later r
      | inr w ↦
          reported_after k out later
            (waiting-run ops fmt cfg k f pkt.ts_nanos cs now e' is le others lt w)
    ]

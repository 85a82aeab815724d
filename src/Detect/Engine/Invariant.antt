-- ===== src/Detect/Engine/Invariant.antt =====
-- The invariant of the flow table under every call of the engine (engine.rs), and what the
-- half-open counters then mean.
use network_l4_monitoring_co.Base.{
  ℕ, suc, ◌+◌, ◌^◌, ◌≤◌, ◌<◌, ◌≡◌, refl, sym, ◌∙◌, ite, List, [], ◌∷◌, Option, none, some, arith,
  not, ◌&&◌, if◌then◌else◌, length,
}
use native.Mathlib.Nat.{add-zero, add-suc, suc-add, zero-add}
use network_l4_monitoring_co.Base.HashMap
use network_l4_monitoring_co.Base.HashMap.{HashMap, Distinct, insert-Distinct}
use network_l4_monitoring_co.Core.Float.{FloatOps, Fmt}
use network_l4_monitoring_co.Core.Config.{DetectConfig}
use network_l4_monitoring_co.Core.Types.{
  Endpoint, Endpoint-discrete, FlowKey, FlowKey-discrete, PacketMeta,
}
use network_l4_monitoring_co.Detect.Flow.{
  FlowState, EngineState, new_state, is_syn_sent, flow_at, half_open_for,
}
use network_l4_monitoring_co.Detect.Flow.Update.{in_handshake, step, update}
use network_l4_monitoring_co.Detect.Flow.HalfOpen.{tally}
use network_l4_monitoring_co.Detect.Flow.Invariant.{IsValid, AllValid, update-AllValid, IsValid-suc}
use network_l4_monitoring_co.Detect.Engine.{Engine, new, timed_out, sweep}
use network_l4_monitoring_co.Detect.Engine.Sweep.{swept, flow_at-sweep, sweep-Distinct}
use network_l4_monitoring_co.Detect.Engine.HalfOpen.{process_cases, run-IsExact}
use network_l4_monitoring_co.Detect.Engine.Trace.{Call, packet, timer, call, run}

-- The keys are distinct and the flows valid, after at most `n` packets.
pub record IsSound {F : Type 0} (n : ℕ) (s : EngineState F) : Type 0 where
  pub distinct : Distinct FlowKey-discrete s.flows
  pub valid : AllValid n s

-- The flow that a sweep leaves comes from a valid one.
swept-IsValid :
    (n now ttl hto : ℕ) (o : Option FlowState) (f : FlowState)
    → ((g : FlowState) → o ≡ some g → IsValid n g)
    → swept now ttl hto o ≡ some f
    → IsValid n f
unfolding swept timed_out
swept-IsValid n now ttl hto none f v e = cc
swept-IsValid n now ttl hto (some g) f v e = ground (arith, v g refl)

module _ {F : Type 0} (ops : FloatOps F) (fmt : Fmt F) where
  sweep-IsSound :
      (n now : ℕ) (e : Engine F) → IsSound n e.state → IsSound n (sweep ops fmt now e).0.state
  sweep-IsSound n now e h = record {
    distinct = sweep-Distinct ops fmt now e h.distinct;
    valid = λ k f p.
        swept-IsValid n now _ _ (flow_at k e.state) f (h.valid k)
          (sym (flow_at-sweep ops fmt now e k h.distinct) ∙ p);
  }

  pub update-IsSound :
      (n : ℕ) (s : EngineState F) (pkt : PacketMeta)
      → n + 1 < 2 ^ 64
      → IsSound n s
      → IsSound (suc n) (update s pkt).0
  unfolding update
  update-IsSound n s pkt lt h = record {
    distinct = insert-Distinct FlowKey-discrete pkt.key (step s pkt).flow s.flows h.distinct;
    valid = update-AllValid n s pkt lt h.valid;
  }

  call-IsSound :
      (c : Call) (n : ℕ) (e : Engine F)
      → n + 1 < 2 ^ 64
      → IsSound n e.state
      → IsSound (suc n) (call ops fmt c e).0.state
  call-IsSound (packet pkt) n e lt h =
      process_cases ops fmt (IsSound (suc n)) pkt e (update-IsSound n e.state pkt lt h)
        (sweep-IsSound (suc n))
  call-IsSound (timer now) n e lt h =
      let s = sweep-IsSound n now e h in
      record { distinct = s.distinct; valid = λ k f p. IsValid-suc n (s.valid k f p) }

  run-IsSound_from :
      (cs : List Call) (n : ℕ) (e : Engine F)
      → n + length cs < 2 ^ 64
      → IsSound n e.state
      → IsSound (n + length cs) (run ops fmt cs e).0.state
  unfolding run
  run-IsSound_from [] n e lt h = rw add-zero h
  run-IsSound_from (c ∷ cs) n e lt h =
      rw (add-suc, ← suc-add)
        (run-IsSound_from cs (suc n) (call ops fmt c e).0 (omega arith)
          (call-IsSound c n e (omega arith) h))

  -- After any fewer than 2^64 calls on a new engine the flow table is sound.
  pub run-IsSound :
      (cfg : DetectConfig F) (cs : List Call)
      → length cs < 2 ^ 64
      → IsSound (length cs) (run ops fmt cs (new cfg)).0.state
  unfolding new new_state
  run-IsSound cfg cs lt = rw zero-add at (
      run-IsSound_from cs 0 (new cfg) (omega arith) (record { distinct = tt; valid = λ k f e. cc }))

-- The flows to a service whose SYN is unanswered and not reported as timed out.
unfoldable pub waiting : Endpoint → HashMap FlowKey FlowState → ℕ
waiting ep [] = 0
waiting ep ((k, f) ∷ m) =
    ite (Endpoint-discrete f.service ep)
      (if is_syn_sent f.state && not f.handshake_timeout_flagged then 1 else 0) 0
    + waiting ep m

-- The flows to a service whose handshake is in progress.
unfoldable pub handshaking : Endpoint → HashMap FlowKey FlowState → ℕ
handshaking ep [] = 0
handshaking ep ((k, f) ∷ m) =
    ite (Endpoint-discrete f.service ep) (if in_handshake f.state then 1 else 0) 0
    + handshaking ep m

IsValid-tail :
    (n : ℕ) (k : FlowKey) (g : FlowState) (m : HashMap FlowKey FlowState)
    → Distinct FlowKey-discrete ((k, g) ∷ m)
    → ((j : FlowKey) (f : FlowState)
        → HashMap.get FlowKey-discrete j ((k, g) ∷ m) ≡ some f
        → IsValid n f)
    → (j : FlowKey) (f : FlowState) → HashMap.get FlowKey-discrete j m ≡ some f
    → IsValid n f
IsValid-tail n k g m d v j f e = v j f (ground arith)

pub tally_bounds :
    (n : ℕ) (ep : Endpoint) (m : HashMap FlowKey FlowState)
    → Distinct FlowKey-discrete m
    → ((j : FlowKey) (f : FlowState) → HashMap.get FlowKey-discrete j m ≡ some f → IsValid n f)
    → (waiting ep m ≤ tally ep m) × (tally ep m ≤ handshaking ep m)
unfolding waiting tally handshaking
tally_bounds n ep [] d v = (omega arith, omega arith)
tally_bounds n ep ((k, g) ∷ m) d v =
    let here = v k g (ground arith) in
    ground (
      arith,
      here.counted_open,
      here.waiting_counted,
      tally_bounds n ep m d.1 (IsValid-tail n k g m d v),
    )

-- After any fewer than 2^32 packets and sweeps on a new engine, the half-open counter of a service
-- is at least the number of its flows whose SYN is unanswered and not reported as timed out, and
-- at most the number of its flows whose handshake is in progress.
pub half_open_bounds :
    {F : Type 0} (ops : FloatOps F) (fmt : Fmt F) (cfg : DetectConfig F) (cs : List Call)
    (ep : Endpoint)
    → length cs < 2 ^ 32
    → let s = (run ops fmt cs (new cfg)).0.state in
      (waiting ep s.flows ≤ half_open_for s.globals ep)
      × (half_open_for s.globals ep ≤ handshaking ep s.flows)
half_open_bounds ops fmt cfg cs ep lt =
    let sound = run-IsSound ops fmt cfg cs (omega arith) in
    omega (
      arith,
      run-IsExact ops fmt cfg cs lt ep,
      tally_bounds (length cs) ep (run ops fmt cs (new cfg)).0.state.flows sound.distinct
          sound.valid,
    )

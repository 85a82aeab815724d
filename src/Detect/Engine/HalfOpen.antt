-- ===== src/Detect/Engine/HalfOpen.antt =====
-- The half-open counters stay exact under every call of the engine (engine.rs and flow.rs).
use network_l4_monitoring_co.Base.{
  ℕ, suc, ◌+◌, ◌-◌, ◌^◌, ◌≤◌, ◌<◌, ◌≡◌, refl, List, [], ◌∷◌, some, arith, length, leb, Option-cases,
  Bool-cases, inl, inr, true, false,
}
use network_l4_monitoring_co.Base.HashMap
use network_l4_monitoring_co.Base.HashMap.{HashMap, length-insert, length-remove, length-remove-le}
use network_l4_monitoring_co.Core.Float.{FloatOps, Fmt}
use network_l4_monitoring_co.Core.Config.{DetectConfig}
use network_l4_monitoring_co.Core.Types.{Endpoint, FlowKey, FlowKey-discrete, PacketMeta}
use network_l4_monitoring_co.Detect.Flow.{FlowState, EngineState, Globals, half_open_for, new_state}
use network_l4_monitoring_co.Detect.Flow.Update.{step, update}
use network_l4_monitoring_co.Detect.Flow.HalfOpen.{
  IsExact, weight, tally, tally-insert, tally-remove, half_open_for-uncount, update-IsExact,
}
use network_l4_monitoring_co.Detect.Engine.{
  Engine, new, uncount_flow, flag_timeout, flag_timeouts, evict, evict_all, sweep, process,
}
use native.Mathlib.Nat.{le_trans}
use network_l4_monitoring_co.Detect.Engine.Trace.{Call, packet, timer, call, run}

half_open_for-uncount_flow :
    (f : FlowState) (g : Globals) (rest : Endpoint → ℕ)
    → ((ep : Endpoint) → half_open_for g ep ≡ weight ep f + rest ep)
    → (ep : Endpoint) → half_open_for (uncount_flow f g) ep ≡ rest ep
unfolding uncount_flow
half_open_for-uncount_flow f g rest h ep =
    ground (arith, h ep, h f.service, half_open_for-uncount f.service ep g)

module _ {F : Type 0} where
  others : FlowKey → EngineState F → Endpoint → ℕ
  others k s ep = tally ep (HashMap.remove FlowKey-discrete k s.flows)

  found-split :
      (k : FlowKey) (f : FlowState) (s : EngineState F)
      → HashMap.get FlowKey-discrete k s.flows ≡ some f
      → IsExact s
      → (ep : Endpoint) → half_open_for s.globals ep ≡ weight ep f + others k s ep
  unfolding others
  found-split k f s e x ep = omega (arith, x.at ep, tally-remove ep k f s.flows e)

  evict-IsExact : (k : FlowKey) (s : EngineState F) → IsExact s → IsExact (evict k s)
  unfolding evict others
  evict-IsExact k s x = elim (Option-cases (HashMap.get FlowKey-discrete k s.flows)) [
    | inl e ↦ rw (e, evict) x
    | inr (f, e) ↦
        rw (e, evict)
          (record {
            at = half_open_for-uncount_flow f s.globals (others k s) (found-split k f s e x);
          })
  ]

  evict_all-IsExact : (ks : List FlowKey) (s : EngineState F) → IsExact s → IsExact (evict_all ks s)
  unfolding evict_all
  evict_all-IsExact [] s x = x
  evict_all-IsExact (k ∷ ks) s x = evict_all-IsExact ks (evict k s) (evict-IsExact k s x)

module _ {F : Type 0} (ops : FloatOps F) (fmt : Fmt F) where
  flag_timeout-IsExact :
      (now : ℕ) (k : FlowKey) (s : EngineState F)
      → IsExact s
      → IsExact (flag_timeout ops fmt now k s).0
  unfolding flag_timeout others
  flag_timeout-IsExact now k s x = elim (Option-cases (HashMap.get FlowKey-discrete k s.flows)) [
    | inl e ↦ rw (e, flag_timeout) x
    | inr (f, e) ↦
        rw (e, flag_timeout)
          (record {
            at = λ ep. ground (
              arith,
              half_open_for-uncount_flow f s.globals (others k s) (found-split k f s e x) ep,
              tally-insert ep k
                  (record f { handshake_timeout_flagged = true; half_open_counted = false })
                  s.flows,
            );
          })
  ]

  flag_timeouts-IsExact :
      (now : ℕ) (ks : List FlowKey) (s : EngineState F)
      → IsExact s
      → IsExact (flag_timeouts ops fmt now ks s).0
  unfolding flag_timeouts
  flag_timeouts-IsExact now [] s x = x
  flag_timeouts-IsExact now (k ∷ ks) s x =
      flag_timeouts-IsExact now ks _ (flag_timeout-IsExact now k s x)

  -- A sweep at any time keeps the counters exact.
  pub sweep-IsExact :
      (now : ℕ) (e : Engine F) → IsExact e.state → IsExact (sweep ops fmt now e).0.state
  unfolding sweep
  sweep-IsExact now e x = evict_all-IsExact _ _ (flag_timeouts-IsExact now _ e.state x)

  -- What holds after the packet and is kept by a sweep holds after `process`.
  pub process_cases {ℓ} :
      (P : EngineState F → Type ℓ) (pkt : PacketMeta) (e : Engine F)
      → P (update e.state pkt).0
      → ((now : ℕ) (e' : Engine F) → P e'.state → P (sweep ops fmt now e').0.state)
      → P (process ops fmt pkt e).0.state
  unfolding process
  process_cases P pkt e after keep =
      elim (Bool-cases (leb e.sweep_interval_ns (pkt.ts_nanos - e.last_sweep_ns))) [
        | inl due ↦ rw due (keep _ _ after)
        | inr early ↦ rw early after
      ]

  process-IsExact :
      (pkt : PacketMeta) (e : Engine F)
      → length e.state.flows < 2 ^ 32 - 1
      → IsExact e.state
      → IsExact (process ops fmt pkt e).0.state
  process-IsExact pkt e lt x =
      process_cases IsExact pkt e (update-IsExact e.state pkt lt x) sweep-IsExact

  -- A table grows by one flow at most under a packet, and never under a sweep.
  length-update :
      (s : EngineState F) (pkt : PacketMeta) → length (update s pkt).0.flows ≤ length s.flows + 1
  unfolding update
  length-update s pkt = omega (
    arith,
    length-insert FlowKey-discrete pkt.key (step s pkt).flow s.flows,
    length-remove-le FlowKey-discrete pkt.key s.flows,
  )

  length-evict : (k : FlowKey) (s : EngineState F) → length (evict k s).flows ≤ length s.flows
  unfolding evict
  length-evict k s = ground (arith, length-remove-le FlowKey-discrete k s.flows)

  length-evict_all :
      (ks : List FlowKey) (s : EngineState F) → length (evict_all ks s).flows ≤ length s.flows
  unfolding evict_all
  length-evict_all [] s = omega arith
  length-evict_all (k ∷ ks) s = omega (arith, length-evict_all ks (evict k s), length-evict k s)

  length-flag_timeout :
      (now : ℕ) (k : FlowKey) (s : EngineState F)
      → length (flag_timeout ops fmt now k s).0.flows ≤ length s.flows
  unfolding flag_timeout
  length-flag_timeout now k s = elim (Option-cases (HashMap.get FlowKey-discrete k s.flows)) [
    | inl e ↦ rw (e, flag_timeout) (omega arith)
    | inr (f, e) ↦
        rw (e, flag_timeout)
          (omega (
            arith,
            length-insert FlowKey-discrete k
                (record f { handshake_timeout_flagged = true; half_open_counted = false }) s.flows,
            length-remove FlowKey-discrete k f s.flows e,
          ))
  ]

  length-flag_timeouts :
      (now : ℕ) (ks : List FlowKey) (s : EngineState F)
      → length (flag_timeouts ops fmt now ks s).0.flows ≤ length s.flows
  unfolding flag_timeouts
  length-flag_timeouts now [] s = omega arith
  length-flag_timeouts now (k ∷ ks) s = omega (
    arith,
    length-flag_timeouts now ks (flag_timeout ops fmt now k s).0,
    length-flag_timeout now k s,
  )

  length-sweep :
      (now : ℕ) (e : Engine F) → length (sweep ops fmt now e).0.state.flows ≤ length e.state.flows
  unfolding sweep
  length-sweep now e = le_trans (length-evict_all _ _) (length-flag_timeouts now _ e.state)

  -- What `run` carries from call to call.
  abbrev pub Room : ℕ → Engine F → Type 0
  Room n e = (length e.state.flows + n < 2 ^ 32) × IsExact e.state

  call-Room : (c : Call) (e : Engine F) (n : ℕ) → Room (suc n) e → Room n (call ops fmt c e).0
  call-Room (packet pkt) e n r = (
    process_cases (λ s. length s.flows + n < 2 ^ 32) pkt e
        (omega (arith, length-update e.state pkt, r.0))
        (λ now e' h. omega (arith, length-sweep now e')),
    process-IsExact pkt e (omega (arith, r.0)) r.1,
  )
  call-Room (timer now) e n r = (omega (arith, length-sweep now e, r.0), sweep-IsExact now e r.1)

  run-Room :
      (cs : List Call) (n : ℕ) (e : Engine F) → Room (length cs + n) e → Room n (run ops fmt cs e).0
  unfolding run
  run-Room [] n e r = (omega (arith, r.0), r.1)
  run-Room (c ∷ cs) n e r =
      run-Room cs n (call ops fmt c e).0 (call-Room c e (length cs + n) (omega (arith, r.0), r.1))

  -- A new engine has room for fewer than 2^32 calls, and each call takes one place.
  pub run-new-Room :
      (cfg : DetectConfig F) (cs : List Call) (n : ℕ)
      → length cs + n < 2 ^ 32
      → Room n (run ops fmt cs (new cfg)).0
  unfolding new new_state
  run-new-Room cfg cs n lt =
      run-Room cs n (new cfg)
        (omega arith, record { at = λ ep. unfold half_open_for tally in refl })

  -- After any fewer than 2^32 packets and sweeps on a new engine, the half-open counter of every
  -- service is the number of tracked flows to it that are marked as counted.
  pub run-IsExact :
      (cfg : DetectConfig F) (cs : List Call)
      → length cs < 2 ^ 32
      → (ep : Endpoint)
      → half_open_for (run ops fmt cs (new cfg)).0.state.globals ep
        ≡ tally ep (run ops fmt cs (new cfg)).0.state.flows
  run-IsExact cfg cs lt ep = (run-new-Room cfg cs 0 (omega arith)).1.at ep

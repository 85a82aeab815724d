-- ===== src/Detect/Engine/Sweep.antt =====
-- What `sweep` of engine.rs does to every flow, and what it reports.
use network_l4_monitoring_co.Base.{
  ℕ, ◌≡◌, refl, ite, List, [], ◌∷◌, Option, none, some, arith, Bool, true, false, if◌then◌else◌,
  Option-cases, inl, inr, wrapping_mul64, ns_per_sec,
}
use network_l4_monitoring_co.Base.HashMap
use network_l4_monitoring_co.Base.HashMap.{
  HashMap, Distinct, get-insert, get-remove, insert-Distinct, remove-Distinct,
}
use network_l4_monitoring_co.Core.Float.{FloatOps, Fmt}
use network_l4_monitoring_co.Core.Types.{FlowKey, FlowKey-discrete}
use network_l4_monitoring_co.Detect.Flow.{FlowState, EngineState, flow_at}
use network_l4_monitoring_co.Detect.Engine.{
  Engine, timed_out, idle, keys_where, flag_timeout, flag_timeouts, evict, evict_all, sweep,
}

abbrev pub flag : FlowState → FlowState
flag f = record f { handshake_timeout_flagged = true; half_open_counted = false }

abbrev pub flag_some : Option FlowState → Option FlowState
flag_some none = none
flag_some (some f) = some (flag f)

-- Membership of a key in a list of keys.
unfoldable pub listed : FlowKey → List FlowKey → Bool
listed j [] = false
listed j (k ∷ ks) = let rest = listed j ks in ite (FlowKey-discrete k j) true rest

-- The test of a flow that may be missing.
abbrev pub passes : (FlowState → Bool) → Option FlowState → Bool
passes p none = false
passes p (some f) = p f

pub listed-keys_where :
    (p : FlowState → Bool) (j : FlowKey) (m : HashMap FlowKey FlowState)
    → Distinct FlowKey-discrete m
    → listed j (keys_where p m) ≡ passes p (HashMap.get FlowKey-discrete j m)
unfolding listed keys_where
listed-keys_where p j [] d = refl
listed-keys_where p j ((k, f) ∷ m) d = ground (arith, listed-keys_where p j m)

module _ {F : Type 0} (ops : FloatOps F) (fmt : Fmt F) (now : ℕ) where
  pub flow_at-flag_timeout :
      (k j : FlowKey) (s : EngineState F)
      → flow_at j (flag_timeout ops fmt now k s).0
        ≡ ite (FlowKey-discrete k j) (flag_some (flow_at j s)) (flow_at j s)
  unfolding flag_timeout
  flow_at-flag_timeout k j s = elim (Option-cases (flow_at k s)) [
    | inl e ↦ rw (e, flag_timeout) (ground arith)
    | inr (f, e) ↦
        rw (e, flag_timeout) (ground (arith, get-insert FlowKey-discrete k j (flag f) s.flows))
  ]

  flow_at-flag_timeouts :
      (ks : List FlowKey) (j : FlowKey) (s : EngineState F)
      → flow_at j (flag_timeouts ops fmt now ks s).0
        ≡ (if listed j ks then flag_some (flow_at j s) else flow_at j s)
  unfolding flag_timeouts listed
  flow_at-flag_timeouts [] j s = refl
  flow_at-flag_timeouts (k ∷ ks) j s = ground (
    arith,
    flow_at-flag_timeouts ks j (flag_timeout ops fmt now k s).0,
    flow_at-flag_timeout k j s,
  )

flag_timeouts-Distinct :
    {F : Type 0} (ops : FloatOps F) (fmt : Fmt F) (now : ℕ) (ks : List FlowKey) (s : EngineState F)
    → Distinct FlowKey-discrete s.flows
    → Distinct FlowKey-discrete (flag_timeouts ops fmt now ks s).0.flows
unfolding flag_timeouts flag_timeout
flag_timeouts-Distinct ops fmt now [] s d = d
flag_timeouts-Distinct ops fmt now (k ∷ ks) s d =
    flag_timeouts-Distinct ops fmt now ks _ (elim (Option-cases (flow_at k s)) [
      | inl e ↦ rw (e, flag_timeout) d
      | inr (f, e) ↦ rw (e, flag_timeout) (insert-Distinct FlowKey-discrete k (flag f) s.flows d)
    ])

flow_at-evict :
    {F : Type 0} (k j : FlowKey) (s : EngineState F)
    → Distinct FlowKey-discrete s.flows
    → flow_at j (evict k s) ≡ ite (FlowKey-discrete k j) none (flow_at j s)
unfolding evict
flow_at-evict k j s d = ground (arith, get-remove FlowKey-discrete k j s.flows d)

evict-Distinct :
    {F : Type 0} (k : FlowKey) (s : EngineState F)
    → Distinct FlowKey-discrete s.flows
    → Distinct FlowKey-discrete (evict k s).flows
unfolding evict
evict-Distinct k s d = ground (arith, remove-Distinct FlowKey-discrete k s.flows d)

flow_at-evict_all :
    {F : Type 0} (ks : List FlowKey) (j : FlowKey) (s : EngineState F)
    → Distinct FlowKey-discrete s.flows
    → flow_at j (evict_all ks s) ≡ (if listed j ks then none else flow_at j s)
unfolding evict_all listed
flow_at-evict_all [] j s d = refl
flow_at-evict_all (k ∷ ks) j s d =
    ground (arith, flow_at-evict_all ks j (evict k s) (evict-Distinct k s d), flow_at-evict k j s d)

evict_all-Distinct :
    {F : Type 0} (ks : List FlowKey) (s : EngineState F)
    → Distinct FlowKey-discrete s.flows
    → Distinct FlowKey-discrete (evict_all ks s).flows
unfolding evict_all
evict_all-Distinct [] s d = d
evict_all-Distinct (k ∷ ks) s d = evict_all-Distinct ks (evict k s) (evict-Distinct k s d)

-- What a sweep should do to one flow: evict it if it is idle, mark it if its handshake timed out.
unfoldable pub swept : ℕ → ℕ → ℕ → Option FlowState → Option FlowState
swept now ttl hto none = none
swept now ttl hto (some f) =
    if idle now ttl f then none else if timed_out now hto f then some (flag f) else some f

-- On a table without repeated keys, a sweep evicts the idle flows, marks those whose handshake timed
-- out, and leaves every other flow as it was: a closed flow stays until it is idle.
pub flow_at-sweep :
    {F : Type 0} (ops : FloatOps F) (fmt : Fmt F) (now : ℕ) (e : Engine F) (j : FlowKey)
    → Distinct FlowKey-discrete e.state.flows
    → flow_at j (sweep ops fmt now e).0.state
      ≡ swept now
          (wrapping_mul64 e.state.cfg.flow_ttl_secs ns_per_sec)
          (wrapping_mul64 e.state.cfg.handshake_timeout_secs ns_per_sec)
          (flow_at j e.state)
unfolding sweep swept
flow_at-sweep ops fmt now e j d =
    let s = e.state in
    let ttl = wrapping_mul64 s.cfg.flow_ttl_secs ns_per_sec in
    let hto = wrapping_mul64 s.cfg.handshake_timeout_secs ns_per_sec in
    let ks = keys_where (timed_out now hto) s.flows in
    let gone = keys_where (idle now ttl) s.flows in
    ground (
      arith,
      flow_at-evict_all gone j (flag_timeouts ops fmt now ks s).0
          (flag_timeouts-Distinct ops fmt now ks s d),
      flow_at-flag_timeouts ops fmt now ks j s,
      listed-keys_where (timed_out now hto) j s.flows d,
      listed-keys_where (idle now ttl) j s.flows d,
    )

pub sweep-Distinct :
    {F : Type 0} (ops : FloatOps F) (fmt : Fmt F) (now : ℕ) (e : Engine F)
    → Distinct FlowKey-discrete e.state.flows
    → Distinct FlowKey-discrete (sweep ops fmt now e).0.state.flows
unfolding sweep
sweep-Distinct ops fmt now e d =
    evict_all-Distinct _ _ (flag_timeouts-Distinct ops fmt now _ e.state d)

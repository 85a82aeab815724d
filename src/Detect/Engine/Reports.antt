-- ===== src/Detect/Engine/Reports.antt =====
-- The handshake timeouts that `sweep` of engine.rs reports.
use network_l4_monitoring_co.Base.{
  ℕ, ◌≤◌, ◌≡◌, refl, ◌∙◌, List, [], ◌∷◌, Option, none, some, arith, true, false, Option-cases, inl,
  inr, wrapping_mul64, ns_per_sec, map,
}
use mathlib.Core.List.{map-append}
use network_l4_monitoring_co.Base.HashMap.{Distinct}
use network_l4_monitoring_co.Core.Float.{FloatOps, Fmt}
use network_l4_monitoring_co.Core.Types.{FlowKey, FlowKey-discrete, L4Event}
use network_l4_monitoring_co.Detect.Flow.{FlowState, EngineState, flow_at}
use network_l4_monitoring_co.Detect.Engine.{
  Engine, timed_out, keys_where, flag_timeout, flag_timeouts, evict, evict_all, sweep,
}
use network_l4_monitoring_co.Detect.Engine.Sweep.{
  listed, passes, listed-keys_where, flow_at-flag_timeout, flow_at-sweep, swept, sweep-Distinct,
}

abbrev pub keys_of : {F : Type 0} → List (L4Event F) → List FlowKey
keys_of = map λ ev. ev.key

-- Every key of the list has a flow.
abbrev Present : {F : Type 0} → List FlowKey → EngineState F → Type 0
Present ks s = (j : FlowKey) → listed j ks ≡ true → passes (λ f. true) (flow_at j s) ≡ true

listed_head : (k : FlowKey) (ks : List FlowKey) → listed k (k ∷ ks) ≡ true
unfolding listed
listed_head k ks = ground arith

listed_tail : (j k : FlowKey) (ks : List FlowKey) → listed j ks ≡ true → listed j (k ∷ ks) ≡ true
unfolding listed
listed_tail j k ks h = ground arith

unlisted : (ks : List FlowKey) → ((j : FlowKey) → listed j ks ≡ false) → ks ≡ []
unlisted [] h = refl
unlisted (k ∷ ks) h = cc (h k, listed_head k ks)

module _ {F : Type 0} (ops : FloatOps F) (fmt : Fmt F) (now : ℕ) where
  keys-flag_timeout :
      (k : FlowKey) (s : EngineState F)
      → passes (λ f. true) (flow_at k s) ≡ true
      → keys_of (flag_timeout ops fmt now k s).1 ≡ k ∷ []
  unfolding flag_timeout
  keys-flag_timeout k s h = elim (Option-cases (flow_at k s)) [
    | inl e ↦ ground arith
    | inr (f, e) ↦ rw (e, flag_timeout)
  ]

  flag_timeout-Present :
      (k : FlowKey) (ks : List FlowKey) (s : EngineState F)
      → Present (k ∷ ks) s
      → Present ks (flag_timeout ops fmt now k s).0
  flag_timeout-Present k ks s h j l =
      ground (arith, flow_at-flag_timeout ops fmt now k j s, h j (listed_tail j k ks l))

  keys-flag_timeouts :
      (ks : List FlowKey) (s : EngineState F)
      → Present ks s
      → keys_of (flag_timeouts ops fmt now ks s).1 ≡ ks
  unfolding flag_timeouts
  keys-flag_timeouts [] s h = refl
  keys-flag_timeouts (k ∷ ks) s h = rw (
    map-append,
    keys-flag_timeout k s (h k (listed_head k ks)),
    keys-flag_timeouts ks (flag_timeout ops fmt now k s).0 (flag_timeout-Present k ks s h),
  )

  cfg-flag_timeouts :
      (ks : List FlowKey) (s : EngineState F) → (flag_timeouts ops fmt now ks s).0.cfg ≡ s.cfg
  unfolding flag_timeouts flag_timeout
  cfg-flag_timeouts [] s = refl
  cfg-flag_timeouts (k ∷ ks) s =
      cfg-flag_timeouts ks (flag_timeout ops fmt now k s).0 ∙ ground arith

cfg-evict_all : {F : Type 0} (ks : List FlowKey) (s : EngineState F) → (evict_all ks s).cfg ≡ s.cfg
unfolding evict_all evict
cfg-evict_all [] s = refl
cfg-evict_all (k ∷ ks) s = cfg-evict_all ks (evict k s) ∙ ground arith

pub cfg-sweep :
    {F : Type 0} (ops : FloatOps F) (fmt : Fmt F) (now : ℕ) (e : Engine F)
    → (sweep ops fmt now e).0.state.cfg ≡ e.state.cfg
unfolding sweep
cfg-sweep ops fmt now e = cfg-evict_all _ _ ∙ cfg-flag_timeouts ops fmt now _ e.state

-- The timeout of a handshake in nanoseconds, as `sweep` computes it.
abbrev pub hto_ns : {F : Type 0} → Engine F → ℕ
hto_ns e = wrapping_mul64 e.state.cfg.handshake_timeout_secs ns_per_sec

-- The keys of the reports of a sweep, in the order of the table.
keys-sweep :
    {F : Type 0} (ops : FloatOps F) (fmt : Fmt F) (now : ℕ) (e : Engine F)
    → Distinct FlowKey-discrete e.state.flows
    → keys_of (sweep ops fmt now e).1 ≡ keys_where (timed_out now (hto_ns e)) e.state.flows
unfolding sweep
keys-sweep ops fmt now e d =
    keys-flag_timeouts ops fmt now _ e.state
      λ j l. ground (arith, listed-keys_where (timed_out now (hto_ns e)) j e.state.flows d)

-- The keys of a sweep's events are those of the flows whose SYN has been unanswered for longer than
-- the timeout and was not reported before.
pub listed-sweep :
    {F : Type 0} (ops : FloatOps F) (fmt : Fmt F) (now : ℕ) (e : Engine F) (j : FlowKey)
    → Distinct FlowKey-discrete e.state.flows
    → listed j (keys_of (sweep ops fmt now e).1)
      ≡ passes (timed_out now (hto_ns e)) (flow_at j e.state)
listed-sweep ops fmt now e j d =
    rw (keys-sweep ops fmt now e d) (listed-keys_where (timed_out now (hto_ns e)) j e.state.flows d)

-- What a sweep leaves has no handshake timeout to report at that time or before.
swept_quiet :
    (now now' ttl hto : ℕ) (o : Option FlowState)
    → now' ≤ now
    → passes (timed_out now' hto) (swept now ttl hto o) ≡ false
unfolding swept timed_out
swept_quiet now now' ttl hto none le = refl
swept_quiet now now' ttl hto (some f) le = ground arith

keys_of-nil : {F : Type 0} (evs : List (L4Event F)) → keys_of evs ≡ [] → evs ≡ []
keys_of-nil [] h = refl
keys_of-nil (e ∷ evs) h = cc

-- A second sweep at the same time or an earlier one reports nothing.
pub sweep_twice :
    {F : Type 0} (ops : FloatOps F) (fmt : Fmt F) (now now' : ℕ) (e : Engine F)
    → Distinct FlowKey-discrete e.state.flows
    → now' ≤ now
    → (sweep ops fmt now' (sweep ops fmt now e).0).1 ≡ []
sweep_twice ops fmt now now' e d le =
    let e' = (sweep ops fmt now e).0 in
    let d' = sweep-Distinct ops fmt now e d in
    keys_of-nil _ (
      unlisted _ λ j. ground (
        arith,
        listed-sweep ops fmt now' e' j d',
        flow_at-sweep ops fmt now e j d,
        cfg-sweep ops fmt now e,
        swept_quiet now now' (wrapping_mul64 e.state.cfg.flow_ttl_secs ns_per_sec) (hto_ns e)
            (flow_at j e.state) le,
      ))

-- ===== src/Detect/Engine/Timeouts.antt =====
-- Handshake timeouts of engine.rs, of one flow: what a call does to a flow whose SYN is unanswered.
use network_l4_monitoring_co.Base.{
  ℕ, ◌+◌, ◌-◌, ◌≤◌, ◌<◌, ◌≡◌, ◌≢◌, ◌⊎◌, inl, inr, refl, ap, ◌∙◌, Bool, true, false, ◌||◌, ite,
  if_neg, List, [], ◌∷◌, ◌++◌, some, All, arith, Bool-cases, leb, wrapping_mul64, ns_per_sec,
  if◌then◌else◌,
}
use network_l4_monitoring_co.Base.HashMap.{Distinct, get-insert, insert-Distinct}
use network_l4_monitoring_co.Core.Float.{FloatOps, Fmt}
use network_l4_monitoring_co.Core.Config.{DetectConfig}
use network_l4_monitoring_co.Core.Types.{FlowKey, FlowKey-discrete, L4Event, EventKind, PacketMeta}
use network_l4_monitoring_co.Detect.Flow.{FlowState, EngineState, flow_at, is_syn_sent}
use network_l4_monitoring_co.Detect.Flow.Update.{step, update}
use network_l4_monitoring_co.Detect.Engine.{Engine, timed_out, idle, sweep, process, run_detectors}
use network_l4_monitoring_co.Detect.Detectors.{DetectCtx}
use network_l4_monitoring_co.Detect.Engine.Sweep.{
  listed, passes, swept, flow_at-sweep, sweep-Distinct,
}
use network_l4_monitoring_co.Detect.Engine.SweepEvents.{IsTimeout, sweep-IsTimeout}
use network_l4_monitoring_co.Detect.Engine.Reports.{keys_of, hto_ns, listed-sweep, cfg-sweep}

abbrev pub is_timeout : EventKind → Bool
is_timeout EventKind.handshake_timeout = true
is_timeout _ = false

-- Whether the events have a handshake timeout of the flow.
unfoldable pub reported : {F : Type 0} → FlowKey → List (L4Event F) → Bool
reported k [] = false
reported k (ev ∷ evs) =
    let rest = reported k evs in
    if is_timeout ev.kind then ite (FlowKey-discrete ev.key k) true rest else rest

pub reported-append :
    {F : Type 0} (k : FlowKey) (xs ys : List (L4Event F))
    → reported k (xs ++ ys) ≡ reported k xs || reported k ys
unfolding reported
reported-append k [] ys = refl
reported-append k (x ∷ xs) ys = ground (arith, reported-append k xs ys)

pub reported_after :
    {F : Type 0} (k : FlowKey) (xs ys : List (L4Event F))
    → reported k ys ≡ true
    → reported k (xs ++ ys) ≡ true
reported_after k xs ys h = ground (arith, h, reported-append k xs ys)

pub reported_before :
    {F : Type 0} (k : FlowKey) (xs ys : List (L4Event F))
    → reported k xs ≡ true
    → reported k (xs ++ ys) ≡ true
reported_before k xs ys h = ground (arith, h, reported-append k xs ys)

reported-keys_of :
    {F : Type 0} (ops : FloatOps F) (now : ℕ) (s : EngineState F) (k : FlowKey)
    (evs : List (L4Event F))
    → All (IsTimeout ops now s) evs
    → reported k evs ≡ listed k (keys_of evs)
unfolding reported listed
reported-keys_of ops now s k [] h = refl
reported-keys_of ops now s k (ev ∷ evs) h =
    ground (arith, ap is_timeout h.0.kind, reported-keys_of ops now s k evs h.1)

abbrev pub ttl_ns : {F : Type 0} → DetectConfig F → ℕ
ttl_ns cfg = wrapping_mul64 cfg.flow_ttl_secs ns_per_sec

abbrev pub timeout_ns : {F : Type 0} → DetectConfig F → ℕ
timeout_ns cfg = wrapping_mul64 cfg.handshake_timeout_secs ns_per_sec

-- A flow whose SYN of time `t` is unanswered and not reported.
pub record IsWaiting (t : ℕ) (f : FlowState) : Type 0 where
  pub sent : is_syn_sent f.state ≡ true
  pub unflagged : f.handshake_timeout_flagged ≡ false
  pub since : f.syn_time_ns ≡ some t
  pub seen : t ≤ f.last_seen_ns

idle-timed_out :
    (t now ttl hto : ℕ) (f : FlowState)
    → IsWaiting t f
    → hto ≤ ttl
    → timed_out now hto f ≡ false
    → idle now ttl f ≡ false
unfolding idle timed_out
idle-timed_out t now ttl hto f w le h = ground (arith, w.sent, w.unflagged, w.since, w.seen)

pub late-timed_out :
    (t now hto : ℕ) (f : FlowState) → IsWaiting t f → t + hto < now → timed_out now hto f ≡ true
unfolding timed_out
late-timed_out t now hto f w lt = ground (arith, w.sent, w.unflagged, w.since)

swept_alone :
    (now ttl hto : ℕ) (f : FlowState)
    → idle now ttl f ≡ false
    → timed_out now hto f ≡ false
    → swept now ttl hto (some f) ≡ some f
unfolding swept
swept_alone now ttl hto f h k = ground arith

-- The engine has such a flow, under this configuration.
pub record Waits {F : Type 0} (cfg : DetectConfig F) (k : FlowKey) (f : FlowState) (e : Engine F)
    : Type 0 where
  pub same : e.state.cfg ≡ cfg
  pub distinct : Distinct FlowKey-discrete e.state.flows
  pub is : flow_at k e.state ≡ some f

module _ {F : Type 0} (ops : FloatOps F) (fmt : Fmt F) (cfg : DetectConfig F) (k : FlowKey)
    (f : FlowState) (t : ℕ) where
  pub reported-sweep :
      (now : ℕ) (e : Engine F)
      → Waits cfg k f e
      → reported k (sweep ops fmt now e).1 ≡ timed_out now (timeout_ns cfg) f
  reported-sweep now e w =
      let to : hto_ns e ≡ timeout_ns cfg = ap timeout_ns w.same in
      reported-keys_of ops now e.state k (sweep ops fmt now e).1 (sweep-IsTimeout ops fmt now e)
      ∙ listed-sweep ops fmt now e k w.distinct
      ∙ ap (passes (timed_out now (hto_ns e))) w.is
      ∙ ap (λ h. timed_out now h f) to

  -- A sweep reports the flow or leaves it waiting.
  pub sweep_outcome :
      (now : ℕ) (e : Engine F)
      → IsWaiting t f
      → timeout_ns cfg ≤ ttl_ns cfg
      → Waits cfg k f e
      → (reported k (sweep ops fmt now e).1 ≡ true) ⊎ Waits cfg k f (sweep ops fmt now e).0
  sweep_outcome now e is le w = elim (Bool-cases (timed_out now (timeout_ns cfg) f)) [
    | inl late ↦ inl (reported-sweep now e w ∙ late)
    | inr early ↦ inr (record {
      same = cfg-sweep ops fmt now e ∙ w.same;
      distinct = sweep-Distinct ops fmt now e w.distinct;
      is =
          flow_at-sweep ops fmt now e k w.distinct
          ∙ ap (λ o. swept now (ttl_ns e.state.cfg) (timeout_ns e.state.cfg) o) w.is
          ∙ ap (λ c. swept now (ttl_ns c) (timeout_ns c) (some f)) w.same
          ∙ swept_alone now (ttl_ns cfg) (timeout_ns cfg) f
              (idle-timed_out t now (ttl_ns cfg) (timeout_ns cfg) f is le early) early;
    })
  ]

  -- A packet of another flow, too.
  pub update-Waits :
      (pkt : PacketMeta) (e : Engine F)
      → pkt.key ≢ k
      → Waits cfg k f e
      → Waits cfg k f (record e { state = (update e.state pkt).0 })
  unfolding update
  update-Waits pkt e other w = record {
    same = w.same;
    distinct =
        insert-Distinct FlowKey-discrete pkt.key (step e.state pkt).flow e.state.flows w.distinct;
    is =
        get-insert FlowKey-discrete pkt.key k (step e.state pkt).flow e.state.flows
        ∙ if_neg (FlowKey-discrete pkt.key k) other _ _
        ∙ w.is;
  }

  -- A packet whose update leaves the flow so, with the sweep that it may bring.
  pub process_outcome :
      (pkt : PacketMeta) (e : Engine F)
      → IsWaiting t f
      → timeout_ns cfg ≤ ttl_ns cfg
      → Waits cfg k f (record e { state = (update e.state pkt).0 })
      → (reported k (process ops fmt pkt e).1 ≡ true) ⊎ Waits cfg k f (process ops fmt pkt e).0
  unfolding process
  process_outcome pkt e is le u =
      let (s, key, delta) = update e.state pkt in
      let ctx : DetectCtx F = record {
        state = s;
        key = key;
        delta = delta;
        now_ns = pkt.ts_nanos;
      } in
      let (ds, out) = run_detectors ops fmt ctx e.detectors in
      let due : Engine F = record e { state = s; detectors = ds; last_sweep_ns = pkt.ts_nanos } in
      let waits : Waits cfg k f due = record { same = u.same; distinct = u.distinct; is = u.is } in
      elim (Bool-cases (leb e.sweep_interval_ns (pkt.ts_nanos - e.last_sweep_ns))) [
        | inl yes_due ↦ rw yes_due (elim (sweep_outcome pkt.ts_nanos due is le waits) [
          | inl r ↦ inl (reported_after k out (sweep ops fmt pkt.ts_nanos due).1 r)
          | inr on ↦ inr on
        ])
        | inr early ↦ rw early (inr (record { same = u.same; distinct = u.distinct; is = u.is }))
      ]

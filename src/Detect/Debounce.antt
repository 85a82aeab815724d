-- ===== src/Detect/Debounce.antt =====
-- `Debounce` of l4scope/crates/l4scope-detect/src/detectors.rs.
use network_l4_monitoring_co.Base.{
  ℕ, ◌+◌, ◌≤◌, ◌<◌, ◌≡◌, Bool, true, false, ◌||◌, leb, ◌==◌, if◌then◌else◌, arith, saturating_sub,
  wrapping_mul64, ns_per_sec, List, [], ◌∷◌,
}

pub record Debounce : Type 0 where
  pub last_ns : ℕ
  pub gap_ns : ℕ

unfoldable pub new : ℕ → Debounce
new gap_secs = record { last_ns = 0; gap_ns = wrapping_mul64 gap_secs ns_per_sec }

unfoldable pub ready : Debounce → ℕ → Debounce × Bool
ready d now =
    if leb d.gap_ns (saturating_sub now d.last_ns) || d.last_ns == 0
    then (record d { last_ns = now }, true)
    else (d, false)

-- The times at which a debounce that is asked at each of the given times says yes.
unfoldable pub firings : Debounce → List ℕ → List ℕ
firings d [] = []
firings d (t ∷ ts) = let rest = firings (ready d t).0 ts in if (ready d t).1 then t ∷ rest else rest

-- Each time is at least the gap after the one before it.
abbrev pub Spaced : ℕ → ℕ → List ℕ → Type 0
Spaced gap last [] = Unit {0}
Spaced gap last (t ∷ ts) = (last + gap ≤ t) × Spaced gap t ts

abbrev pub Positive : List ℕ → Type 0
Positive [] = Unit {0}
Positive (t ∷ ts) = (0 < t) × Positive ts

firings-Spaced_after :
    (d : Debounce) (ts : List ℕ)
    → 0 < d.last_ns
    → 0 < d.gap_ns
    → Positive ts
    → Spaced d.gap_ns d.last_ns (firings d ts)
unfolding firings ready
firings-Spaced_after d [] p g h = tt
firings-Spaced_after d (t ∷ ts) p g h =
    ground (arith, firings-Spaced_after d ts, firings-Spaced_after (record d { last_ns = t }) ts)

-- Two alerts of one debounce are never closer than the gap, in whatever order the times come, if
-- no time is 0 and the gap is not 0.
pub firings-Spaced :
    (d : Debounce) (t : ℕ) (ts : List ℕ)
    → 0 < d.gap_ns
    → 0 < t
    → Positive ts
    → (ready d t).1 ≡ true
    → Spaced d.gap_ns t (firings (ready d t).0 ts)
unfolding ready
firings-Spaced d t ts g p h e = ground (arith, firings-Spaced_after (record d { last_ns = t }) ts)

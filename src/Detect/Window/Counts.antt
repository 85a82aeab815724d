-- ===== src/Detect/Window/Counts.antt =====
-- The rolling counter of window.rs against the list of the times of its events.
use network_l4_monitoring_co.Base.{
  ℕ, zero, suc, ◌+◌, ◌-◌, ◌%◌, ◌≤◌, ◌<◌, ◌^◌, ◌≡◌, refl, ◌⊎◌, inl, inr, List, [], ◌∷◌, arith, ltb,
  leb, if◌then◌else◌, length, get_or, set, replicate, length-set, length-replicate, wrapping_add64,
}
use network_l4_monitoring_co.Detect.Window.{
  RollingRate, new, record_event, count_loop, count_window, in_range, second, u64_max,
}
use Prim.Native.Nat.{max}

-- The events recorded so far, the latest first.
unfoldable pub record_all : RollingRate → List ℕ → RollingRate
record_all r [] = r
record_all r (t ∷ h) = record_event (record_all r h) t

-- The times do not decrease, and none is after `now`.
abbrev pub Ordered : List ℕ → ℕ → Type 0
Ordered [] now = Unit {0}
Ordered (t ∷ h) now = (t ≤ now) × Ordered h t

-- How many events fall in the clock seconds `second now - (w - 1)` to `second now`.
unfoldable pub events_within : ℕ → ℕ → List ℕ → ℕ
events_within w now [] = 0
events_within w now (t ∷ h) =
    let rest = events_within w now h in if ltb (second now) (second t + w) then rest + 1 else rest

-- What one bucket adds, and the sum, with no wrap.
abbrev share : ℕ → ℕ → ℕ → ℕ → ℕ
share lo sec b e = if in_range lo sec e then b else 0

window_sum : ℕ → ℕ → List ℕ → List ℕ → ℕ
window_sum lo sec (b ∷ bs) (e ∷ es) = share lo sec b e + window_sum lo sec bs es
window_sum lo sec _ _ = 0

count_loop-eq-window_sum :
    (lo sec total : ℕ) (bs es : List ℕ)
    → total + window_sum lo sec bs es < 2 ^ 64
    → count_loop lo sec total bs es ≡ total + window_sum lo sec bs es
unfolding count_loop window_sum
count_loop-eq-window_sum lo sec total [] es h = omega arith
count_loop-eq-window_sum lo sec total (b ∷ bs) [] h = omega arith
count_loop-eq-window_sum lo sec total (b ∷ bs) (e ∷ es) h = ground (
  arith,
  count_loop-eq-window_sum lo sec total bs es,
  count_loop-eq-window_sum lo sec (total + b) bs es,
)

-- Writing one bucket changes the sum by what that bucket adds.
window_sum-set :
    (lo sec : ℕ) (bs es : List ℕ) (i b e : ℕ)
    → i < length bs
    → i < length es
    → window_sum lo sec (set bs i b) (set es i e)
        + share lo sec (get_or bs i 0) (get_or es i u64_max)
      ≡ window_sum lo sec bs es + share lo sec b e
unfolding window_sum
window_sum-set lo sec [] es i b e h k = absurd (omega arith)
window_sum-set lo sec (b₀ ∷ bs) [] i b e h k = absurd (omega arith)
window_sum-set lo sec (b₀ ∷ bs) (e₀ ∷ es) zero b e h k = omega arith
window_sum-set lo sec (b₀ ∷ bs) (e₀ ∷ es) (suc i) b e h k =
    omega (arith, window_sum-set lo sec bs es i b e (omega arith) (omega arith))

-- A bucket is unused, or stands for a second of its residue that is not after `now`.
abbrev SlotOk : ℕ → ℕ → ℕ → ℕ → Type 0
SlotOk w now i e = (e ≡ u64_max) ⊎ ((e % w ≡ i) × (e ≤ second now))

record Tracks (w now : ℕ) (h : List ℕ) (r : RollingRate) : Type 0 where
  window : r.window_secs ≡ w
  buckets_length : length r.buckets ≡ w
  epoch_length : length r.epoch ≡ w
  slots : (i : ℕ) → SlotOk w now i (get_or r.epoch i u64_max)
  counts : (i : ℕ) → get_or r.buckets i 0 ≤ length h

get_or-replicate :
    (n v d i : ℕ) → (get_or (replicate n v) i d ≡ v) ⊎ (get_or (replicate n v) i d ≡ d)
get_or-replicate zero v d i = inr refl
get_or-replicate (suc n) v d zero = inl refl
get_or-replicate (suc n) v d (suc i) = get_or-replicate n v d i

new-Tracks : (w now : ℕ) → Tracks (max w 1) now [] (new w)
unfolding new
new-Tracks w now = record {
  window = refl;
  buckets_length = length-replicate _ _;
  epoch_length = length-replicate _ _;
  slots = λ i. ground (arith, get_or-replicate (max w 1) u64_max u64_max i);
  counts = λ i. ground (arith, get_or-replicate (max w 1) 0 0 i);
}

get_or-set :
    (xs : List ℕ) (i j v d : ℕ)
    → (get_or (set xs i v) j d ≡ get_or xs j d) ⊎ ((get_or (set xs i v) j d ≡ v) × (i ≡ j))
get_or-set [] i j v d = inl refl
get_or-set (x ∷ xs) zero zero v d = inr (refl, refl)
get_or-set (x ∷ xs) zero (suc j) v d = inl refl
get_or-set (x ∷ xs) (suc i) zero v d = inl refl
get_or-set (x ∷ xs) (suc i) (suc j) v d = ground (arith, get_or-set xs i j v d)

record_event-Tracks :
    {w now t : ℕ} {h : List ℕ} {r : RollingRate}
    → t ≤ now
    → Tracks w t h r
    → Tracks w now (t ∷ h) (record_event r t)
unfolding record_event
record_event-Tracks {w} {now} {t} {h} {r} le k =
    let j = second t % r.window_secs in
    let b = wrapping_add64 (get_or r.buckets j 0) 1 in
    record {
      window = ground (arith, k.window);
      buckets_length =
          ground (arith, k.buckets_length, length-set r.buckets j b, length-set r.buckets j 1);
      epoch_length = ground (arith, k.epoch_length, length-set r.epoch j (second t));
      slots = λ i. ground (arith, k.slots i, get_or-set r.epoch j i (second t) u64_max, k.window);
      counts = λ i. ground (
        arith,
        k.counts i,
        get_or-set r.buckets j i b 0,
        k.counts j,
        get_or-set r.buckets j i 1 0,
      );
    }

record_all-Tracks :
    (w now : ℕ) (h : List ℕ) → Ordered h now → Tracks (max w 1) now h (record_all (new w) h)
unfolding record_all
record_all-Tracks w now [] o = new-Tracks w now
record_all-Tracks w now (t ∷ h) o = record_event-Tracks o.0 (record_all-Tracks w t h o.1)

window_sum-set_bucket :
    (lo sec : ℕ) (bs es : List ℕ) (i b : ℕ)
    → i < length bs
    → i < length es
    → window_sum lo sec (set bs i b) es + share lo sec (get_or bs i 0) (get_or es i u64_max)
      ≡ window_sum lo sec bs es + share lo sec b (get_or es i u64_max)
unfolding window_sum
window_sum-set_bucket lo sec [] es i b h k = absurd (omega arith)
window_sum-set_bucket lo sec (b₀ ∷ bs) [] i b h k = absurd (omega arith)
window_sum-set_bucket lo sec (b₀ ∷ bs) (e₀ ∷ es) zero b h k = omega arith
window_sum-set_bucket lo sec (b₀ ∷ bs) (e₀ ∷ es) (suc i) b h k =
    omega (arith, window_sum-set_bucket lo sec bs es i b (omega arith) (omega arith))

-- Two seconds of one residue less than `w` apart are the same.
same_residue : (w e t : ℕ) → 0 < w → e % w ≡ t % w → e ≤ t → t < e + w → e ≡ t
same_residue w e t p h le lt = grind arith

-- One event adds one to the sum of a range of at most `w` seconds that it falls in, and nothing
-- to that of a later range.
window_sum-record_event :
    {w t : ℕ} {h : List ℕ} {r : RollingRate} (lo sec : ℕ)
    → Tracks w t h r
    → 0 < w
    → t < 2 ^ 64
    → length h < 2 ^ 64 - 1
    → second t ≤ sec
    → sec < lo + w
    → window_sum lo sec (record_event r t).buckets (record_event r t).epoch
      ≡ window_sum lo sec r.buckets r.epoch + (if leb lo (second t) then 1 else 0)
unfolding record_event
window_sum-record_event {w} {t} {h} {r} lo sec k p bt bh le hi =
    let j = second t % r.window_secs in
    let b = wrapping_add64 (get_or r.buckets j 0) 1 in
    ground (
      arith,
      k.window,
      k.buckets_length,
      k.epoch_length,
      k.slots j,
      k.counts j,
      same_residue w (get_or r.epoch j u64_max) (second t),
      window_sum-set_bucket lo sec r.buckets r.epoch j b,
      window_sum-set lo sec r.buckets r.epoch j 1 (second t),
    )

window_sum-replicate : (lo sec n : ℕ) → window_sum lo sec (replicate n 0) (replicate n u64_max) ≡ 0
unfolding window_sum
window_sum-replicate lo sec zero = refl
window_sum-replicate lo sec (suc n) = omega (arith, window_sum-replicate lo sec n)

window_sum-record_all :
    (w now now' lo : ℕ) (h : List ℕ)
    → now' ≤ now
    → now < 2 ^ 64
    → length h < 2 ^ 64
    → Ordered h now'
    → lo ≡ second now - (max w 1 - 1)
    → window_sum lo (second now) (record_all (new w) h).buckets (record_all (new w) h).epoch
      ≡ events_within (max w 1) now h
unfolding record_all events_within new
window_sum-record_all w now now' lo [] le bn bh o e = window_sum-replicate lo (second now) (max w 1)
window_sum-record_all w now now' lo (t ∷ h) le bn bh o e = ground (
  arith,
  window_sum-record_event lo (second now) (record_all-Tracks w t h o.1),
  window_sum-record_all w now t lo h (omega arith) bn (omega arith) o.1 e,
)

events_within-le-length : (w now : ℕ) (h : List ℕ) → events_within w now h ≤ length h
unfolding events_within
events_within-le-length w now [] = omega arith
events_within-le-length w now (t ∷ h) = ground (arith, events_within-le-length w now h)

-- After any fewer than 2^64 events in time order, the counter gives at a time below 2^64 that is not
-- before them the number of those in the clock second of that time and the `w - 1` clock seconds
-- before it, with `w` at least 1. A clock second starts at a multiple of 10^9 nanoseconds.
pub count_window-record_all :
    (w now : ℕ) (h : List ℕ)
    → now < 2 ^ 64
    → length h < 2 ^ 64
    → Ordered h now
    → count_window (record_all (new w) h) now ≡ events_within (max w 1) now h
unfolding count_window
count_window-record_all w now h bn bh o =
    let k = record_all-Tracks w now h o in
    let r = record_all (new w) h in
    let lo = second now - (r.window_secs - 1) in
    ground (
      arith,
      k.window,
      events_within-le-length (max w 1) now h,
      count_loop-eq-window_sum lo (second now) 0 r.buckets r.epoch,
      window_sum-record_all w now now lo h,
    )

-- ===== src/Detect/Window.antt =====
-- l4scope/crates/l4scope-detect/src/window.rs: the rolling event-rate counter.
pub mod Counts
mod Tests
use network_l4_monitoring_co.Base.{
  ℕ, ◌+◌, ◌-◌, ◌/◌, ◌%◌, ◌^◌, Bool, not, ◌&&◌, List, [], ◌∷◌, leb, ◌==◌, if◌then◌else◌, length,
  get_or, set, replicate, wrapping_add64, saturating_sub, ns_per_sec,
}
use network_l4_monitoring_co.Core.Float.{FloatOps}
use Prim.Native.Nat.{max}

-- `u64::MAX`, the epoch of a bucket that was never used.
abbrev pub u64_max : ℕ
u64_max = 2 ^ 64 - 1

pub record RollingRate : Type 0 where
  pub window_secs : ℕ
  pub buckets : List ℕ
  -- the second that each bucket stands for
  pub epoch : List ℕ

unfoldable pub new : ℕ → RollingRate
new window_secs =
    let w = max window_secs 1 in
    record { window_secs = w; buckets = replicate w 0; epoch = replicate w u64_max }

abbrev pub second : ℕ → ℕ
second now_ns = now_ns / ns_per_sec

-- One event. The index is below the window's length, which both lists have (`Counts`).
unfoldable pub record_event : RollingRate → ℕ → RollingRate
record_event r now_ns =
    let sec = second now_ns in
    let i = sec % r.window_secs in
    if get_or r.epoch i u64_max == sec
    then record r { buckets = set r.buckets i (wrapping_add64 (get_or r.buckets i 0) 1) }
    else record r { epoch = set r.epoch i sec; buckets = set r.buckets i 1 }

abbrev pub in_range : ℕ → ℕ → ℕ → Bool
in_range lo sec e = not (e == u64_max) && leb lo e && leb e sec

-- The loop over the buckets, with the total so far.
unfoldable pub count_loop : ℕ → ℕ → ℕ → List ℕ → List ℕ → ℕ
count_loop lo sec total (b ∷ bs) (e ∷ es) =
    count_loop lo sec (if in_range lo sec e then wrapping_add64 total b else total) bs es
count_loop lo sec total _ _ = total

unfoldable pub count_window : RollingRate → ℕ → ℕ
unfolding count_loop
count_window r now_ns =
    let sec = second now_ns in
    count_loop (saturating_sub sec (r.window_secs - 1)) sec 0 r.buckets r.epoch

unfoldable pub per_sec : {F : Type 0} → FloatOps F → RollingRate → ℕ → F
per_sec ops r now_ns = ops.div (ops.from_u64 (count_window r now_ns)) (ops.from_u64 r.window_secs)

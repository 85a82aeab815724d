-- ===== src/Detect/Flow/Seq.antt =====
-- `seq_diff` of l4scope/crates/l4scope-detect/src/flow.rs: order on sequence numbers under
-- wraparound.
use network_l4_monitoring_co.Base.{ℕ, ◌+◌, ◌^◌, ◌<◌, ◌≡◌, arith, wrapping_sub32, wrapping_add32}
use network_l4_monitoring_co.Base.Int.{ℤ, pos, negsuc, signed32}

unfoldable pub seq_diff : ℕ → ℕ → ℤ
seq_diff a expected = signed32 (wrapping_sub32 a expected)

seq_diff_ahead : (e k : ℕ) → e < 2 ^ 32 → k < 2 ^ 31 → seq_diff (wrapping_add32 e k) e ≡ pos k
unfolding seq_diff
seq_diff_ahead e k he hk = ground arith

seq_diff_behind :
    (a k : ℕ) → a < 2 ^ 32 → k < 2 ^ 31 → seq_diff a (wrapping_add32 a (k + 1)) ≡ negsuc k
unfolding seq_diff
seq_diff_behind a k ha hk = ground arith

-- For every `k` below 2^31, a number that is `k` bytes ahead of the expected one, across the wrap or
-- not, has distance `k`, and a number that is `k + 1` bytes behind it has distance `-(k + 1)`.
pub seq_diff_lem :
    (n k : ℕ)
    → n < 2 ^ 32
    → k < 2 ^ 31
    → (seq_diff (wrapping_add32 n k) n ≡ pos k) × (seq_diff n (wrapping_add32 n (k + 1)) ≡ negsuc k)
seq_diff_lem n k hn hk = (seq_diff_ahead n k hn hk, seq_diff_behind n k hn hk)

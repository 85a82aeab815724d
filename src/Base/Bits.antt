-- ===== src/Base/Bits.antt =====
-- `bit_and` with the mask of the leading bits of a word.
use Prim.Native.Nat.{
  ℕ, zero, suc, ◌+◌, ◌-◌, ◌*◌, ◌/◌, ◌%◌, ◌^◌, ◌≤◌, ◌<◌, min, bit_and, digits, bit_and-bitwise,
}
use mathlib.Core.Path.{◌≡◌, refl, sym, ap, ◌∙◌}
use native.Mathlib.Nat.{pow-suc, pow-succ', one-le-pow, mul-one, mul_assoc, div-div-eq-div-mul}
use native.Mathlib.Omega.{arith}

-- The digit recursion of `bit_and` on any count of digits that is large enough.
abbrev and_on : ℕ → ℕ → ℕ → ℕ
and_on = digits (λ b. 0) min

and_on_any : (i j x m : ℕ) → x ≤ i → x ≤ j → and_on i x m ≡ and_on j x m
and_on_any zero zero zero m p q = refl
and_on_any zero (suc j) zero m p q = refl
and_on_any (suc i) zero zero m p q = refl
and_on_any (suc i) (suc j) zero m p q = refl
and_on_any zero j (suc x) m p q = absurd (omega arith)
and_on_any (suc i) zero (suc x) m p q = absurd (omega arith)
and_on_any (suc i) (suc j) (suc x) m p q =
    ap (λ (t : ℕ). t * 2 + min (suc x % 2) (m % 2))
      (and_on_any i j (suc x / 2) (m / 2) (omega arith) (omega arith))

bit_and-on : (i x m : ℕ) → x ≤ i → bit_and x m ≡ and_on i x m
bit_and-on i x m p = bit_and-bitwise x m ∙ and_on_any x i x m (omega arith) p

bit_and-unroll :
    (x m : ℕ) → bit_and (suc x) m ≡ bit_and (suc x / 2) (m / 2) * 2 + min (suc x % 2) (m % 2)
bit_and-unroll x m =
    bit_and-on (suc x) (suc x) m (omega arith)
    ∙ ap (λ (t : ℕ). t * 2 + min (suc x % 2) (m % 2))
        (sym (bit_and-on x (suc x / 2) (m / 2) (omega arith)))

-- One digit of a mask whose lowest digit is 0, or 1.
bit_and-double : (x m : ℕ) → bit_and x (m * 2) ≡ bit_and (x / 2) m * 2
bit_and-double zero m = omega (arith, bit_and-bitwise 0 (m * 2), bit_and-bitwise 0 m)
bit_and-double (suc x) m =
    let half : m * 2 / 2 ≡ m = omega arith in
    omega (arith, bit_and-unroll x (m * 2), ap (bit_and (suc x / 2)) half)

bit_and-double_suc : (x m : ℕ) → bit_and x (m * 2 + 1) ≡ bit_and (x / 2) m * 2 + x % 2
bit_and-double_suc zero m = omega (arith, bit_and-bitwise 0 (m * 2 + 1), bit_and-bitwise 0 m)
bit_and-double_suc (suc x) m =
    let half : (m * 2 + 1) / 2 ≡ m = omega arith in
    omega (arith, bit_and-unroll x (m * 2 + 1), ap (bit_and (suc x / 2)) half)

-- A mask of ones that is as wide as the number.
bit_and-ones : (k x : ℕ) → x < 2 ^ k → bit_and x (2 ^ k - 1) ≡ x
bit_and-ones zero zero h = bit_and-bitwise 0 0
bit_and-ones zero (suc x) h = absurd (omega arith)
bit_and-ones (suc k) x h =
    let ones : 2 ^ suc k - 1 ≡ (2 ^ k - 1) * 2 + 1 = omega (arith, pow-suc 2 k, one-le-pow k 2) in
    omega (
      arith,
      ap (bit_and x) ones,
      bit_and-double_suc x (2 ^ k - 1),
      bit_and-ones k (x / 2) (omega (arith, pow-suc 2 k)),
    )

-- The mask of `k` ones above `s` zeros keeps the digits above the lowest `s`.
pub bit_and-leading :
    (k s x : ℕ) → x < 2 ^ k * 2 ^ s → bit_and x ((2 ^ k - 1) * 2 ^ s) ≡ x / 2 ^ s * 2 ^ s
bit_and-leading k zero x h =
    omega (arith, bit_and-ones k x (omega arith), ap (bit_and x) (mul-one (2 ^ k - 1)))
bit_and-leading k (suc s) x h =
    let shifted : (n : ℕ) → n * 2 ^ suc s ≡ n * 2 ^ s * 2 = λ n. rw (pow-suc, mul_assoc) refl in
    let below : x / 2 < 2 ^ k * 2 ^ s = omega (arith, shifted (2 ^ k)) in
    let high : x / 2 ^ suc s ≡ x / 2 / 2 ^ s =
      ap (λ (t : ℕ). x / t) (pow-succ' 2 s) ∙ sym (div-div-eq-div-mul x 2 (2 ^ s)) in
    omega (
      arith,
      ap (bit_and x) (shifted (2 ^ k - 1)),
      bit_and-double x ((2 ^ k - 1) * 2 ^ s),
      bit_and-leading k s (x / 2) below,
      shifted (x / 2 / 2 ^ s),
      ap (λ (t : ℕ). t * 2 ^ suc s) high,
    )

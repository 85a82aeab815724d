-- ===== src/Export/Attribution/Networks.antt =====
-- attribution.rs: the test on the mask is the equality of the leading bits.
use network_l4_monitoring_co.Base.{
  ℕ, zero, suc, ◌-◌, ◌*◌, ◌/◌, ◌^◌, ◌≤◌, ◌<◌, ◌≡◌, ◌↔◌, refl, sym, ap, ◌∙◌, Bool, true, false, ◌&&◌,
  ◌==◌, ==_iff, arith, bit_and, Bool-cases, inl, inr, ltb, ltb→lt, if◌then◌else◌,
}
use native.Mathlib.Nat.{eq_of_mul-eq-mul_right, one-le-pow}
use network_l4_monitoring_co.Base.Bits.{bit_and-leading}
use network_l4_monitoring_co.Core.Types.{IpAddr, v4, v6}
use network_l4_monitoring_co.Export.Attribution.{network_mask, cidr_contains}

-- The mask of a prefix, and what the word is made of.
mask_fits : ℕ → ℕ → Bool
mask_fits width p =
    (network_mask width p == (2 ^ p - 1) * 2 ^ (width - p))
    && (2 ^ width == 2 ^ p * 2 ^ (width - p))

all_to : ℕ → (ℕ → Bool) → Bool
all_to zero test = test 0
all_to (suc n) test = test (suc n) && all_to n test

all_to-elim : (n p : ℕ) (test : ℕ → Bool) → all_to n test ≡ true → p ≤ n → test p ≡ true
unfolding all_to
all_to-elim zero p test h le = ground arith
all_to-elim (suc n) p test h le = ground (arith, all_to-elim n p test)

-- Every mask of an address, by evaluation.
masks_v4 : all_to 32 (mask_fits 32) ≡ true
unfolding all_to mask_fits
masks_v4 = refl

masks_v6 : all_to 128 (mask_fits 128) ≡ true
unfolding all_to mask_fits
masks_v6 = refl

same_leading :
    (width p n a : ℕ)
    → mask_fits width p ≡ true
    → n < 2 ^ width
    → a < 2 ^ width
    → ((bit_and n (network_mask width p) == bit_and a (network_mask width p)) ≡ true)
      ↔ (n / 2 ^ (width - p) ≡ a / 2 ^ (width - p))
unfolding mask_fits
same_leading width p n a fits hn ha =
    let s = width - p in
    let mask : network_mask width p ≡ (2 ^ p - 1) * 2 ^ s = ground arith in
    let word : 2 ^ width ≡ 2 ^ p * 2 ^ s = ground arith in
    let top = λ (x : ℕ) (h : x < 2 ^ p * 2 ^ s). ap (bit_and x) mask ∙ bit_and-leading p s x h in
    (
      λ e.
          eq_of_mul-eq-mul_right (2 ^ s) (one-le-pow s 2 (omega arith)) (n / 2 ^ s) (a / 2 ^ s)
            (sym (top n (omega arith)) ∙ (==_iff _ _).0 e ∙ top a (omega arith)),
      λ e.
          (==_iff _ _).1
            (top n (omega arith) ∙ ap (λ (t : ℕ). t * 2 ^ s) e ∙ sym (top a (omega arith))),
    )

-- The test of both families, at the width of the family.
in_network_iff :
    (width p n a : ℕ)
    → all_to width (mask_fits width) ≡ true
    → n < 2 ^ width
    → a < 2 ^ width
    → ((if ltb width p
          then false
          else bit_and n (network_mask width p) == bit_and a (network_mask width p))
        ≡ true)
      ↔ ((p ≤ width) × (n / 2 ^ (width - p) ≡ a / 2 ^ (width - p)))
in_network_iff width p n a table hn ha = elim (Bool-cases (ltb width p)) [
  | inl long ↦ rw long (λ h. cc, λ h. absurd (omega (arith, ltb→lt width p long, h.0)))
  | inr short ↦
      let le : p ≤ width = ground arith in
      let same = same_leading width p n a (all_to-elim width p (mask_fits width) table le) hn ha in
      rw short (λ h. (le, same.0 h), λ h. same.1 h.1)
]

-- The address is a number of its width.
abbrev pub InRange : IpAddr → Type 0
InRange (v4 a) = a < 2 ^ 32
InRange (v6 a) = a < 2 ^ 128

-- The network of the address and the prefix has the other address: they are of one family, the prefix
-- is not longer than an address, and the leading bits are the same.
abbrev pub SameNetwork : IpAddr → ℕ → IpAddr → Type 0
SameNetwork (v4 n) p (v4 a) = (p ≤ 32) × (n / 2 ^ (32 - p) ≡ a / 2 ^ (32 - p))
SameNetwork (v6 n) p (v6 a) = (p ≤ 128) × (n / 2 ^ (128 - p) ≡ a / 2 ^ (128 - p))
SameNetwork (v4 n) p (v6 a) = ⊥
SameNetwork (v6 n) p (v4 a) = ⊥

-- The mask test holds exactly when both addresses are of one family, the prefix is not longer than
-- an address, and their leading bits, as many as the prefix says, are the same.
pub cidr_contains_iff :
    (net : IpAddr) (prefix : ℕ) (ip : IpAddr)
    → InRange net
    → InRange ip
    → (cidr_contains net prefix ip ≡ true) ↔ SameNetwork net prefix ip
unfolding cidr_contains
cidr_contains_iff (v4 n) p (v4 a) hn ha = in_network_iff 32 p n a masks_v4 hn ha
cidr_contains_iff (v6 n) p (v6 a) hn ha = in_network_iff 128 p n a masks_v6 hn ha
cidr_contains_iff (v4 n) p (v6 a) hn ha = (λ h. cc, λ h. absurd h)
cidr_contains_iff (v6 n) p (v4 a) hn ha = (λ h. cc, λ h. absurd h)

-- ===== src/Base/BTreeMap/Counter.antt =====
-- Maps of 64-bit counters: `*map.entry(key).or_insert(0) += 1`.
use Prim.Native.Nat.{ℕ, zero, suc, ◌+◌, ◌^◌, ◌≤◌, ◌<◌}
use Prim.Native.Nat.Ordering.{lt, eq, gt}
use mathlib.Core.Path.{◌≡◌, refl, ap, sym, ◌∙◌}
use mathlib.Core.List.{List, [], ◌∷◌, ◌++◌, Permᴰ}
use mathlib.Core.Option.{Option, none, some}
use native.Mathlib.Omega.{arith}
use network_l4_monitoring_co.Base.Tests.{unwrap_or}
use network_l4_monitoring_co.Base.Lists.{length, length-Permᴰ}
use network_l4_monitoring_co.Base.Words.{wrapping_add64}
use network_l4_monitoring_co.Base.Order.{Ord}
use network_l4_monitoring_co.Base.BTreeMap.{
  BTreeMap, get, update_or, Sorted, get-update_or, update_or-Sorted,
}
use network_l4_monitoring_co.Base.BTreeMap.Extensional.{BTreeMap-ext}

-- The sum of the counters.
abbrev pub sum_values {ℓ} : {K : Type ℓ} → List (K × ℕ) → ℕ
sum_values [] = 0
sum_values ((k, n) ∷ m) = n + sum_values m

-- A counter that is bumped `n` times; one that never was is absent.
abbrev pub bumped : Option ℕ → ℕ → Option ℕ
bumped c zero = c
bumped c (suc n) = some (unwrap_or c 0 + suc n)

module _ {K : Type 0} ⦃o : Ord K⦄ where
  unfoldable pub increment : K → BTreeMap K ℕ → BTreeMap K ℕ
  increment = update_or 0 (λ n. wrapping_add64 n 1)

  unfoldable pub count_all : List K → BTreeMap K ℕ → BTreeMap K ℕ
  count_all [] m = m
  count_all (k ∷ ks) m = count_all ks (increment k m)

  unfoldable pub occurrences : K → List K → ℕ
  occurrences k [] = 0
  occurrences k (j ∷ ks) =
      let rest = occurrences k ks in elim (o.cmp j k) [ lt ↦ rest | eq ↦ suc rest | gt ↦ rest ]

  pub count_all-concat :
      (ks : List K) (k : K) (m : BTreeMap K ℕ)
      → count_all (ks ++ k ∷ []) m ≡ increment k (count_all ks m)
  unfolding count_all
  count_all-concat [] k m = refl
  count_all-concat (j ∷ ks) k m = count_all-concat ks k (increment j m)

  occurrences-le-length : (k : K) (ks : List K) → occurrences k ks ≤ length ks
  unfolding occurrences
  occurrences-le-length k [] = omega arith
  occurrences-le-length k (j ∷ ks) = ground (arith, occurrences-le-length k ks)

  pub count_all-Sorted : (ks : List K) (m : BTreeMap K ℕ) → Sorted m → Sorted (count_all ks m)
  unfolding count_all increment
  count_all-Sorted [] m s = s
  count_all-Sorted (k ∷ ks) m s = count_all-Sorted ks (increment k m) (update_or-Sorted 0 _ k m s)

  pub get-count_all :
      (k : K) (ks : List K) (m : BTreeMap K ℕ)
      → Sorted m
      → unwrap_or (get k m) 0 + length ks < 2 ^ 64
      → get k (count_all ks m) ≡ bumped (get k m) (occurrences k ks)
  unfolding count_all occurrences increment
  get-count_all k [] m s lt64 = refl
  get-count_all k (j ∷ ks) m s lt64 = ground (
    arith,
    get-count_all k ks (increment j m) (update_or-Sorted 0 _ j m s),
    get-update_or 0 (λ (n : ℕ). wrapping_add64 n 1) j k m s,
    o.same j k,
  )

  sum_values-increment :
      (k : K) (m : BTreeMap K ℕ)
      → sum_values m + 1 < 2 ^ 64
      → sum_values (increment k m) ≡ sum_values m + 1
  unfolding increment update_or
  sum_values-increment k [] h = omega arith
  sum_values-increment k ((j, n) ∷ m) h = ground (arith, sum_values-increment k m)

  pub sum_values-count_all :
      (ks : List K) (m : BTreeMap K ℕ)
      → sum_values m + length ks < 2 ^ 64
      → sum_values (count_all ks m) ≡ sum_values m + length ks
  unfolding count_all
  sum_values-count_all [] m h = omega arith
  sum_values-count_all (k ∷ ks) m h = omega (
    arith,
    sum_values-count_all ks (increment k m) (omega (arith, sum_values-increment k m (omega arith))),
    sum_values-increment k m (omega arith),
  )

  -- Counting does not depend on the order.
  occurrences-Permᴰ : (k : K) {ks js : List K} → Permᴰ ks js → occurrences k ks ≡ occurrences k js
  unfolding occurrences
  occurrences-Permᴰ k Permᴰ.nil = refl
  occurrences-Permᴰ k (Permᴰ.cons x p) = ground (arith, occurrences-Permᴰ k p)
  occurrences-Permᴰ k (Permᴰ.swap x y) = ground arith
  occurrences-Permᴰ k (Permᴰ.trans p q) = occurrences-Permᴰ k p ∙ occurrences-Permᴰ k q

  pub count_all-Permᴰ :
      {ks js : List K} → Permᴰ ks js → length ks < 2 ^ 64 → count_all ks [] ≡ count_all js []
  unfolding get
  count_all-Permᴰ {ks} {js} p few =
      BTreeMap-ext (count_all ks []) (count_all js []) (count_all-Sorted ks [] tt)
        (count_all-Sorted js [] tt)
        (λ k.
          get-count_all k ks [] tt (omega arith)
          ∙ ap (bumped none) (occurrences-Permᴰ k p)
          ∙ sym (get-count_all k js [] tt (omega (arith, length-Permᴰ p))))

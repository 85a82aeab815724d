-- ===== src/Base/BTreeMap.antt =====
-- `std::collections::BTreeMap` as an association list in the order of its keys, which is the order
-- of its iteration.
pub mod Extensional
pub mod Counter
use Prim.Native.Nat.Ordering.{lt, eq, gt}
use mathlib.Core.Path.{◌≡◌, refl, ap, sym, ◌∙◌}
use mathlib.Core.List.{List, [], ◌∷◌}
use mathlib.Core.Option.{Option, none, some}
use native.Mathlib.Omega.{arith}
use network_l4_monitoring_co.Base.Tests.{unwrap_or, Option-cases}
use network_l4_monitoring_co.Base.Order.{Ord, cmp_self, cmp-gt, cmp-lt}

abbrev pub BTreeMap {ℓ} : Type ℓ → Type ℓ → Type ℓ
BTreeMap K V = List (K × V)

module _ {ℓ} {K V : Type ℓ} ⦃o : Ord K⦄ where
  unfoldable pub get : K → BTreeMap K V → Option V
  get k [] = none
  get k ((j, v) ∷ m) =
      let rest = get k m in elim (o.cmp k j) [ lt ↦ none | eq ↦ some v | gt ↦ rest ]

  -- `map.entry(k).or_insert(v)`, with the reference written by `f`.
  unfoldable pub update_or : V → (V → V) → K → BTreeMap K V → BTreeMap K V
  update_or v f k [] = (k, f v) ∷ []
  update_or v f k ((j, w) ∷ m) =
      let rest = update_or v f k m in
      elim (o.cmp k j) [ lt ↦ (k, f v) ∷ (j, w) ∷ m | eq ↦ (j, f w) ∷ m | gt ↦ (j, w) ∷ rest ]

  -- The key is below the first one of the map.
  abbrev pub Below : K → BTreeMap K V → Type 0
  Below k [] = Unit
  Below k ((j, v) ∷ m) = o.cmp k j ≡ lt

  -- The keys increase strictly.
  abbrev pub Sorted : BTreeMap K V → Type 0
  Sorted [] = Unit
  Sorted ((k, v) ∷ m) = Below k m × Sorted m

  -- An optional value, where the keys are the same.
  abbrev pub at_key : K → K → Option V → Option V → Option V
  at_key k j here there = elim (o.cmp k j) [ lt ↦ there | eq ↦ here | gt ↦ there ]

  pub get-Below : (k : K) (m : BTreeMap K V) → Below k m → get k m ≡ none
  unfolding get
  get-Below k [] b = refl
  get-Below k ((j, v) ∷ m) b = rw (b, get) refl

  pub get-update_or :
      (v : V) (f : V → V) (k j : K) (m : BTreeMap K V)
      → Sorted m
      → get j (update_or v f k m) ≡ at_key k j (some (f (unwrap_or (get k m) v))) (get j m)
  unfolding get update_or
  get-update_or v f k j [] s = ground (arith, o.same k j, cmp_self k, cmp-gt k j, cmp-lt k j)
  get-update_or v f k j ((i, w) ∷ m) s = ground (
    arith,
    o.same k j,
    o.same k i,
    o.same j i,
    cmp_self i,
    cmp-gt k j,
    cmp-gt k i,
    cmp-gt j i,
    cmp-lt k j,
    cmp-lt k i,
    cmp-lt j i,
    o.chain j k i,
    o.chain k j i,
    o.chain k i j,
    o.chain j i k,
    get-update_or v f k j m,
  )

  pub update_or-Sorted :
      (v : V) (f : V → V) (k : K) (m : BTreeMap K V) → Sorted m → Sorted (update_or v f k m)
  unfolding update_or
  update_or-Sorted v f k [] s = (tt, tt)
  update_or-Sorted v f k ((i, w) ∷ []) s = ground (arith, cmp-gt k i)
  update_or-Sorted v f k ((i, w) ∷ (j, u) ∷ m) s =
      ground (arith, cmp-gt k i, cmp-gt k j, o.same k j, update_or-Sorted v f k ((j, u) ∷ m))

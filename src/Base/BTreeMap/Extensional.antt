-- ===== src/Base/BTreeMap/Extensional.antt =====
-- A `BTreeMap` is determined by what it answers to each key.
use Prim.Native.Nat.Ordering.{lt, eq, gt}
use mathlib.Core.Path.{◌≡◌, refl}
use mathlib.Core.List.{[], ◌∷◌}
use mathlib.Core.Option.{none}
use native.Mathlib.Omega.{arith}
use network_l4_monitoring_co.Base.Order.{Ord, cmp_self, cmp-gt, cmp-lt}
use network_l4_monitoring_co.Base.BTreeMap.{BTreeMap, get, Below, Sorted, get-Below}

module _ {ℓ} {K V : Type ℓ} ⦃o : Ord K⦄ where
  -- A key at or below the first one of a sorted map is not in the rest.
  Below-trans : (k i : K) (m : BTreeMap K V) → o.cmp k i ≡ lt → Below i m → Below k m
  Below-trans k i [] h b = tt
  Below-trans k i ((j, v) ∷ m) h b = o.chain k i j h b

  get-rest :
      (k i : K) (u : V) (m : BTreeMap K V)
      → Sorted ((i, u) ∷ m)
      → get k m ≡ elim (o.cmp k i) [ lt ↦ none | eq ↦ none | gt ↦ get k ((i, u) ∷ m) ]
  unfolding get
  get-rest k i u m s = ground (arith, get-Below k m, get-Below i m, Below-trans k i m, o.same k i)

  same_head :
      (i j : K) (u v : V) (m n : BTreeMap K V)
      → ((k : K) → get k ((i, u) ∷ m) ≡ get k ((j, v) ∷ n))
      → (i ≡ j) × (u ≡ v)
  unfolding get
  same_head i j u v m n h =
      ground (arith, h i, h j, cmp_self i, cmp_self j, o.same i j, cmp-gt i j, cmp-lt i j)

  pub BTreeMap-ext :
      (m n : BTreeMap K V) → Sorted m → Sorted n → ((k : K) → get k m ≡ get k n) → m ≡ n
  unfolding get
  BTreeMap-ext [] [] s t h = refl
  BTreeMap-ext [] ((j, v) ∷ n) s t h = ground (arith, h j, cmp_self j)
  BTreeMap-ext ((i, u) ∷ m) [] s t h = ground (arith, h i, cmp_self i)
  BTreeMap-ext ((i, u) ∷ m) ((j, v) ∷ n) s t h =
      let e = same_head i j u v m n h in
      let rest : m ≡ n =
        BTreeMap-ext m n s.1 t.1
          (λ k. ground (arith, get-rest k i u m s, get-rest k j v n t, h k, e.0)) in
      cc (e.0, e.1, rest)

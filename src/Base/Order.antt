-- ===== src/Base/Order.antt =====
-- The trait `Ord` of the standard library, with the laws that it asks of `cmp`, for texts and pairs.
use Prim.Native.Nat.{Ordering}
use Prim.Native.Nat.Ordering.{lt, eq, gt}
use Prim.Native.String.{String, compare, then}
use Prim.Native.String.compare.{nil-nil, nil-cons, cons-nil, cons-cons}
use mathlib.Core.Path.{◌≡◌, ap, ◌∙◌}
use native.Mathlib.Omega.{arith}
use text.Mathlib.TextEquality.{path_by_compare}

-- `Ordering::reverse`.
abbrev pub reverse : Ordering → Ordering
reverse lt = gt
reverse eq = eq
reverse gt = lt

-- A total order is dual, consistent with equality, and transitive.
pub record Ord {ℓ} (K : Type ℓ) : Type ℓ where
  pub cmp : K → K → Ordering
  pub dual : (a b : K) → cmp b a ≡ reverse (cmp a b)
  pub same : (a b : K) → cmp a b ≡ eq → a ≡ b
  pub chain : (a b c : K) → cmp a b ≡ lt → cmp b c ≡ lt → cmp a c ≡ lt

own_reverse : (r : Ordering) → r ≡ reverse r → r ≡ eq
own_reverse lt h = ground arith
own_reverse eq h = ground arith
own_reverse gt h = ground arith

module _ {ℓ} {K : Type ℓ} ⦃o : Ord K⦄ where
  pub cmp_self : (a : K) → o.cmp a a ≡ eq
  cmp_self a = own_reverse (o.cmp a a) (o.dual a a)

  pub cmp-gt : (a b : K) → o.cmp a b ≡ gt → o.cmp b a ≡ lt
  cmp-gt a b h = o.dual a b ∙ ap reverse h

  pub cmp-lt : (a b : K) → o.cmp a b ≡ lt → o.cmp b a ≡ gt
  cmp-lt a b h = o.dual a b ∙ ap reverse h

pub compare-dual : (s t : String) → compare t s ≡ reverse (compare s t)
compare-dual String.[] String.[] = ground (arith, nil-nil)
compare-dual String.[] (String.◌∷◌ d t) = ground (arith, nil-cons d t, cons-nil d t)
compare-dual (String.◌∷◌ c s) String.[] = ground (arith, nil-cons c s, cons-nil c s)
compare-dual (String.◌∷◌ c s) (String.◌∷◌ d t) =
    ground (arith, cons-cons c d s t, cons-cons d c t s, compare-dual s t)

pub compare-chain : (s t u : String) → compare s t ≡ lt → compare t u ≡ lt → compare s u ≡ lt
compare-chain s String.[] String.[] h k = ground (arith, nil-nil)
compare-chain s (String.◌∷◌ d t) String.[] h k = ground (arith, cons-nil d t)
compare-chain String.[] t (String.◌∷◌ e u) h k = nil-cons e u
compare-chain (String.◌∷◌ c s) String.[] (String.◌∷◌ e u) h k = ground (arith, cons-nil c s)
compare-chain (String.◌∷◌ c s) (String.◌∷◌ d t) (String.◌∷◌ e u) h k =
    ground (arith, cons-cons c d s t, cons-cons d e t u, cons-cons c e s u, compare-chain s t u)

instance unfoldable pub string_ord : Ord String
string_ord = record {
  cmp = compare;
  dual = compare-dual;
  same = path_by_compare;
  chain = compare-chain;
}

module _ {ℓ κ} {A : Type ℓ} {B : Type κ} ⦃a : Ord A⦄ ⦃b : Ord B⦄ where
  -- Tuples are compared from the left.
  abbrev pub from_left : A × B → A × B → Ordering
  from_left p q = then (a.cmp p.0 q.0) (b.cmp p.1 q.1)

  pub from_left-dual : (p q : A × B) → from_left q p ≡ reverse (from_left p q)
  from_left-dual p q = ground (arith, a.dual p.0 q.0, b.dual p.1 q.1)

  pub from_left-same : (p q : A × B) → from_left p q ≡ eq → p ≡ q
  from_left-same p q h = ground (arith, a.same p.0 q.0, b.same p.1 q.1)

  pub from_left-chain :
      (p q r : A × B) → from_left p q ≡ lt → from_left q r ≡ lt → from_left p r ≡ lt
  from_left-chain p q r h k =
      ground (arith, a.same p.0 q.0, a.same q.0 r.0, a.chain p.0 q.0 r.0, b.chain p.1 q.1 r.1)

  instance unfoldable pub pair_ord : Ord (A × B)
  pair_ord = record {
    cmp = from_left;
    dual = from_left-dual;
    same = from_left-same;
    chain = from_left-chain;
  }

-- ===== src/Capture/Bytes.antt =====
-- Reads from a byte slice, for l4scope/crates/l4scope-capture/src/parse.rs. `nothing` is the
-- `None` of the source's functions; `panic` is an index or a range out of bounds, or a
-- subtraction below 0.
use network_l4_monitoring_co.Base.{
  ℕ, zero, suc, ◌+◌, ◌-◌, ◌*◌, ◌≤◌, ◌<◌, ◌≡◌, ◌≢◌, refl, Bool, true, false, ◌⊎◌, inl, inr,
  Option-cases, le→leb, List, [], ◌∷◌, none, some, leb, if◌then◌else◌, length, get_elem?, drop,
  arith,
}

pub data Outcome {ℓ} (A : Type ℓ) : Type ℓ where
  found : A → Outcome A
  nothing : Outcome A
  panic : Outcome A

infixl 5 ◌>>=◌
abbrev pub ◌>>=◌ {ℓ κ} : {A : Type ℓ} {B : Type κ} → Outcome A → (A → Outcome B) → Outcome B
found a >>= f = f a
nothing >>= f = nothing
panic >>= f = panic

pub Outcome-cases {ℓ} :
    {A : Type ℓ} (o : Outcome A) → o ≢ panic → ((a : A) × (o ≡ found a)) ⊎ (o ≡ nothing)
Outcome-cases (found a) h = inl (a, refl)
Outcome-cases nothing h = inr refl
Outcome-cases panic h = absurd (h refl)

-- `d.get(i)?`.
unfoldable pub get : List ℕ → ℕ → Outcome ℕ
get d i = elim (get_elem? d i) [ none ↦ nothing | some b ↦ found b ]

-- `d[i]`.
unfoldable pub index : List ℕ → ℕ → Outcome ℕ
index d i = elim (get_elem? d i) [ none ↦ panic | some b ↦ found b ]

-- `d.get(i..)?`.
unfoldable pub get_from : List ℕ → ℕ → Outcome (List ℕ)
get_from d i = if leb i (length d) then found (drop i d) else nothing

-- `&d[i..]`.
unfoldable pub index_from : List ℕ → ℕ → Outcome (List ℕ)
index_from d i = if leb i (length d) then found (drop i d) else panic

-- `a - b` on `usize`.
unfoldable pub checked_sub : ℕ → ℕ → Outcome ℕ
checked_sub a b = if leb b a then found (a - b) else panic

unfoldable pub be16 : List ℕ → Outcome ℕ
unfolding get
be16 b = do a0 ← get b 0; a1 ← get b 1; found (a0 * 256 + a1)

unfoldable pub be32 : List ℕ → Outcome ℕ
unfolding get
be32 b = do
  a0 ← get b 0
  a1 ← get b 1
  a2 ← get b 2
  a3 ← get b 3
  found (a0 * 0x1000000 + a1 * 0x10000 + a2 * 256 + a3)

-- The number that `n` bytes from offset `i` spell, big-endian: the octets of an address.
unfoldable pub octets : List ℕ → ℕ → ℕ → ℕ → Outcome ℕ
unfolding index
octets d i zero acc = found acc
octets d i (suc n) acc = do b ← index d i; octets d (i + 1) n (acc * 256 + b)

-- The read did not panic.
pub data Safe {ℓ} {A : Type ℓ} : Outcome A → Type ℓ where
  safe_found : (a : A) → Safe (found a)
  safe_nothing : Safe nothing

pub Safe-ne-panic {ℓ} : {A : Type ℓ} {m : Outcome A} → Safe m → m ≢ panic
Safe-ne-panic (safe_found a) e = cc
Safe-ne-panic safe_nothing e = cc

-- A read that does not panic, then a part that does not.
pub Safe-bind {ℓ κ} :
    {A : Type ℓ} {B : Type κ} (m : Outcome A) (f : A → Outcome B)
    → Safe m
    → ((a : A) → Safe (f a))
    → Safe (m >>= f)
Safe-bind _ f (safe_found a) k = k a
Safe-bind _ f safe_nothing k = safe_nothing

pub Safe-if {ℓ} :
    {A : Type ℓ} (b : Bool) (m n : Outcome A)
    → (b ≡ true → Safe m)
    → (b ≡ false → Safe n)
    → Safe (if b then m else n)
Safe-if true m n h k = h refl
Safe-if false m n h k = k refl

pub get-Safe : (d : List ℕ) (i : ℕ) → Safe (get d i)
unfolding get
get-Safe d i = elim (Option-cases (get_elem? d i)) [
  | inl e ↦ rw (e, get) safe_nothing
  | inr (b, e) ↦ rw (e, get) (safe_found b)
]

get_elem?_found : (d : List ℕ) (i : ℕ) → i < length d → (b : ℕ) × (get_elem? d i ≡ some b)
get_elem?_found [] i h = absurd (omega arith)
get_elem?_found (b ∷ d) zero h = (b, refl)
get_elem?_found (b ∷ d) (suc i) h = get_elem?_found d i (omega arith)

pub index-Safe : (d : List ℕ) (i : ℕ) → i < length d → Safe (index d i)
unfolding index
index-Safe d i h = let (b, e) = get_elem?_found d i h in rw (e, index) (safe_found b)

pub get_from-Safe : (d : List ℕ) (i : ℕ) → Safe (get_from d i)
unfolding get_from
get_from-Safe d i = search (Safe-if, safe_found, safe_nothing)

pub index_from-Safe : (d : List ℕ) (i : ℕ) → i ≤ length d → Safe (index_from d i)
unfolding index_from
index_from-Safe d i h = rw (le→leb _ _ h) (safe_found _)

pub checked_sub-Safe : (a b : ℕ) → b ≤ a → Safe (checked_sub a b)
unfolding checked_sub
checked_sub-Safe a b h = rw (le→leb _ _ h) (safe_found _)

pub be16-Safe : (d : List ℕ) → Safe (be16 d)
unfolding be16
be16-Safe d = search (Safe-bind, get-Safe, safe_found)

pub be32-Safe : (d : List ℕ) → Safe (be32 d)
unfolding be32
be32-Safe d = search (Safe-bind, get-Safe, safe_found) depth 9

pub octets-Safe : (d : List ℕ) (i n acc : ℕ) → i + n ≤ length d → Safe (octets d i n acc)
unfolding octets
octets-Safe d i zero acc h = safe_found acc
octets-Safe d i (suc n) acc h =
    Safe-bind _ _ (index-Safe d i (omega arith))
      λ b. octets-Safe d (i + 1) n (acc * 256 + b) (omega arith)

pub ruleset safe_rules =
    (Safe-bind, Safe-if, safe_found, safe_nothing, get-Safe, get_from-Safe, be16-Safe, be32-Safe)

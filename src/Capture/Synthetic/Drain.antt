-- ===== src/Capture/Synthetic/Drain.antt =====
-- synthetic.rs: what the calls of its source give.
use network_l4_monitoring_co.Base.{
  ℕ, zero, suc, ◌+◌, ◌≡◌, refl, List, [], ◌∷◌, Option, none, some, get_elem?, drop, arith,
  Option-cases, inl, inr,
}
use network_l4_monitoring_co.Core.Types.{PacketMeta}
use network_l4_monitoring_co.Capture.Synthetic.{SyntheticSource, next_packet}

-- The results of `n` calls, and the source after them.
unfoldable pub calls : ℕ → SyntheticSource → List (Option PacketMeta) × SyntheticSource
calls zero s = ([], s)
calls (suc n) s = let (p, s') = next_packet s in let (ps, s'') = calls n s' in (p ∷ ps, s'')

-- The first `n` of a list without end: the values, and then `none`.
abbrev pub padded {ℓ} : {A : Type ℓ} → ℕ → List A → List (Option A)
padded zero xs = []
padded (suc n) [] = none ∷ padded n []
padded (suc n) (x ∷ xs) = some x ∷ padded n xs

pub drop-get_elem :
    {A : Type 0} (xs : List A) (i : ℕ) (x : A)
    → get_elem? xs i ≡ some x
    → drop i xs ≡ x ∷ drop (i + 1) xs
drop-get_elem [] i x h = absurd (cc)
drop-get_elem (y ∷ xs) zero x h = ground arith
drop-get_elem (y ∷ xs) (suc i) x h = ground (arith, drop-get_elem xs i x)

pub drop-get_none : {A : Type 0} (xs : List A) (i : ℕ) → get_elem? xs i ≡ none → drop i xs ≡ []
drop-get_none [] zero h = refl
drop-get_none [] (suc i) h = refl
drop-get_none (y ∷ xs) zero h = absurd (cc)
drop-get_none (y ∷ xs) (suc i) h = drop-get_none xs i h

-- The calls of a source give the packets that it has left, in order and once each, and then the end
-- of the stream for ever.
pub calls-padded : (n : ℕ) (s : SyntheticSource) → (calls n s).0 ≡ padded n (drop s.idx s.packets)
unfolding calls next_packet
calls-padded zero s = refl
calls-padded (suc n) s = elim (Option-cases (get_elem? s.packets s.idx)) [
  | inl e ↦ ground (arith, calls-padded n s, drop-get_none s.packets s.idx e)
  | inr (p, e) ↦
      ground
        (arith, calls-padded n (record s { idx = s.idx + 1 }), drop-get_elem s.packets s.idx p e)
]

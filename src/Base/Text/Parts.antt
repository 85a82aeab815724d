-- ===== src/Base/Text/Parts.antt =====
-- Texts that are put together from parts, and the splits of Base/Text that take them apart again.
use Prim.Native.Nat.{ℕ}
use Prim.Native.Char.{Char, code}
use Prim.Native.String.{String}
use native.Mathlib.Omega.{arith}
use mathlib.Core.Path.{◌≡◌, refl}
use mathlib.Core.Bool.{true, false}
use mathlib.Core.List.{[], ◌∷◌}
use mathlib.Core.Option.{none, some}
use network_l4_monitoring_co.Base.Tests.{◌==◌}
use network_l4_monitoring_co.Base.Text.{
  is_empty, is_whitespace, split_once, split, rsplit_once, split_whitespace, strip_text, ends_part,
}

-- One text before another.
abbrev pub put : String → String → String
put String.[] rest = rest
put (String.◌∷◌ c s) rest = String.◌∷◌ c (put s rest)

-- The text does not have the character.
abbrev pub Free : ℕ → String → Type 0
Free ch String.[] = Unit
Free ch (String.◌∷◌ c s) = ((code c == ch) ≡ false) × Free ch s

pub put-Free : (ch : ℕ) (s t : String) → Free ch s → Free ch t → Free ch (put s t)
put-Free ch String.[] t f g = g
put-Free ch (String.◌∷◌ c s) t f g = (f.0, put-Free ch s t f.1 g)

-- A separator between two texts, the first of which does not have it.
module _ (ch : ℕ) (c : Char) (is : (code c == ch) ≡ true) where
  pub split_once-put :
      (k v : String) → Free ch k → split_once ch (put k (String.◌∷◌ c v)) ≡ some (k, v)
  unfolding split_once
  split_once-put String.[] v f = ground (arith, is)
  split_once-put (String.◌∷◌ d k) v f = ground (arith, split_once-put k v f.1, f.0)

  pub split-put :
      (s rest : String) → Free ch s → split ch (put s (String.◌∷◌ c rest)) ≡ s ∷ split ch rest
  unfolding split
  split-put String.[] rest f = ground (arith, is)
  split-put (String.◌∷◌ d s) rest f = ground (arith, split-put s rest f.1, f.0)

pub split-Free : (ch : ℕ) (s : String) → Free ch s → split ch s ≡ s ∷ []
unfolding split
split-Free ch String.[] f = refl
split-Free ch (String.◌∷◌ c s) f = ground (arith, split-Free ch s f.1, f.0)

rsplit_once-Free : (ch : ℕ) (s : String) → Free ch s → rsplit_once ch s ≡ none
unfolding rsplit_once
rsplit_once-Free ch String.[] f = refl
rsplit_once-Free ch (String.◌∷◌ c s) f = ground (arith, rsplit_once-Free ch s f.1, f.0)

pub rsplit_once-put :
    (ch : ℕ) (c : Char)
    → (code c == ch) ≡ true
    → (k v : String) → Free ch v
    → rsplit_once ch (put k (String.◌∷◌ c v)) ≡ some (k, v)
unfolding rsplit_once
rsplit_once-put ch c is String.[] v f = ground (arith, rsplit_once-Free ch v f, is)
rsplit_once-put ch c is (String.◌∷◌ d k) v f = ground (arith, rsplit_once-put ch c is k v f)

pub strip_text-put : (p rest : String) → strip_text p (put p rest) ≡ some rest
unfolding strip_text
strip_text-put String.[] rest = refl
strip_text-put (String.◌∷◌ c p) rest = ground (arith, strip_text-put p rest)

-- A text with no whitespace.
abbrev pub IsSolid : String → Type 0
IsSolid String.[] = Unit
IsSolid (String.◌∷◌ c s) = (is_whitespace c ≡ false) × IsSolid s

-- A part, a space, and what follows.
pub split_whitespace-put :
    (t : String) (c : Char) (rest : String)
    → IsSolid t
    → is_empty t ≡ false
    → is_whitespace c ≡ true
    → split_whitespace (put t (String.◌∷◌ c rest)) ≡ t ∷ split_whitespace rest
unfolding split_whitespace is_empty ends_part
split_whitespace-put String.[] c rest f set w = absurd (cc)
split_whitespace-put (String.◌∷◌ d String.[]) c rest f set w = ground (arith, f.0, w)
split_whitespace-put (String.◌∷◌ d (String.◌∷◌ e t)) c rest f set w =
    ground (arith, split_whitespace-put (String.◌∷◌ e t) c rest f.1 refl w, f.0, f.1.0)

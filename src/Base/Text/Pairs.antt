-- ===== src/Base/Text/Pairs.antt =====
-- A list of `k=v` with commas between, as a writer: the format of the attributes and headers that the
-- configuration has.
use Prim.Native.String.{String}
use mathlib.Core.Path.{◌≡◌, refl}
use mathlib.Core.Bool.{false}
use mathlib.Core.List.{List, [], ◌∷◌}
use mathlib.Core.Option.{some}
use network_l4_monitoring_co.Base.Text.{is_empty, trim, split_once}
use network_l4_monitoring_co.Base.Text.Parts.{put, Free, put-Free, split_once-put}

abbrev pub put_pair : String × String → String
put_pair (k, v) = put k (put "=" v)

abbrev pub put_list : List (String × String) → String
put_list [] = ""
put_list (a ∷ []) = put_pair a
put_list (a ∷ b ∷ rest) = put (put_pair a) (put "," (put_list (b ∷ rest)))

-- A key and a value that can stand in such a list.
pub record IsPlain (a : String × String) : Type 0 where
  pub key_comma : Free 44 a.0
  pub key_equals : Free 61 a.0
  pub value_comma : Free 44 a.1
  pub key_trimmed : trim a.0 ≡ a.0
  pub value_trimmed : trim a.1 ≡ a.1
  pub key_set : is_empty a.0 ≡ false

pub put_pair-Free : (a : String × String) → IsPlain a → Free 44 (put_pair a)
put_pair-Free (k, v) p = put-Free 44 k (put "=" v) p.key_comma (refl, p.value_comma)

pub split_once-put_pair : (a : String × String) → IsPlain a → split_once 61 (put_pair a) ≡ some a
split_once-put_pair (k, v) p = split_once-put 61 _ refl k v p.key_equals

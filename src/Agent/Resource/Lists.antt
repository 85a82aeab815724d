-- ===== src/Agent/Resource/Lists.antt =====
-- A list of `k=v` of main.rs, written from attributes and read back.
use network_l4_monitoring_co.Base.{◌≡◌, refl, sym, ap, ◌∙◌, List, [], ◌∷◌, ◌++◌, All, arith}
use mathlib.Core.List.{append_assoc, append-nil}
use network_l4_monitoring_co.Base.Text.{split, split_once}
use network_l4_monitoring_co.Base.Text.Parts.{split-put, split-Free}
use network_l4_monitoring_co.Base.Text.Pairs.{
  put_pair, put_list, IsPlain, put_pair-Free, split_once-put_pair,
}
use network_l4_monitoring_co.Agent.Resource.{Attribute, push_kv, push_kvs, push_kv_list}

push_kv-put_pair :
    (v : List Attribute) (a : Attribute) → IsPlain a → push_kv v (put_pair a) ≡ v ++ a ∷ []
unfolding push_kv
push_kv-put_pair v (k, val) p =
    ground (arith, split_once-put_pair (k, val) p, p.key_trimmed, p.value_trimmed, p.key_set)

-- A list of attributes with keys that are not empty, no blanks at the ends, no comma, and no `=` in a
-- key, is read from its text as it is, in order, after the attributes that are there.
pub push_kv_list-put_list :
    (v attrs : List Attribute) → All IsPlain attrs → push_kv_list v (put_list attrs) ≡ v ++ attrs
unfolding push_kv_list push_kvs
push_kv_list-put_list v [] ok_attrs = unfold split split_once push_kv in sym (append-nil v)
push_kv_list-put_list v (a ∷ []) (p, ok_attrs) =
    ap (push_kvs v) (split-Free 44 (put_pair a) (put_pair-Free a p)) ∙ push_kv-put_pair v a p
push_kv_list-put_list v (a ∷ b ∷ rest) (p, ok_attrs) =
    ap (push_kvs v) (split-put 44 _ refl (put_pair a) (put_list (b ∷ rest)) (put_pair-Free a p))
    ∙ ap (λ w. push_kvs w (split 44 (put_list (b ∷ rest)))) (push_kv-put_pair v a p)
    ∙ push_kv_list-put_list (v ++ a ∷ []) (b ∷ rest) ok_attrs
    ∙ append_assoc v (a ∷ []) (b ∷ rest)

-- ===== src/Export/Otlp/Client/Endpoint.antt =====
-- The endpoint and the headers of otlp.rs, written and read back.
use network_l4_monitoring_co.Base.{
  ◌^◌, ◌-◌, ◌≡◌, refl, ap, String, false, List, [], ◌∷◌, Option, none, some, All, arith, unwrap_or,
}
use network_l4_monitoring_co.Base.Text.{trim, is_empty, split, split_once, rsplit_once, parse_uint}
use network_l4_monitoring_co.Base.Text.Parts.{
  put, Free, put-Free, split-put, split-Free, rsplit_once-put, strip_text-put,
}
use network_l4_monitoring_co.Base.Text.Pairs.{
  put_pair, put_list, IsPlain, put_pair-Free, split_once-put_pair,
}
use network_l4_monitoring_co.Core.Config.{OtlpConfig}
use network_l4_monitoring_co.Core.Error.{ok}
use network_l4_monitoring_co.Export.Otlp.Client.{
  default_port, authority_of, host_port, headers_in, headers_of, without_scheme, parse_target,
}

-- What follows the authority: nothing, or a path.
abbrev pub after_authority : Option String → String
after_authority none = ""
after_authority (some path) = put "/" path

abbrev pub put_authority : String → String → String
put_authority host port = put host (put ":" port)

put_nil : (s : String) → put s "" ≡ s
put_nil String.[] = refl
put_nil (String.◌∷◌ c s) = ap (String.◌∷◌ c) (put_nil s)

authority_of-put :
    (auth : String) (tail : Option String)
    → Free 47 auth
    → authority_of (put auth (after_authority tail)) ≡ auth
unfolding authority_of
authority_of-put auth none f = rw (put_nil auth) (ground (arith, split-Free 47 auth f))
authority_of-put auth (some path) f =
    let parts : split 47 (put auth (put "/" path)) ≡ auth ∷ split 47 path =
      split-put 47 _ refl auth path f in
    ground (arith, parts)

headers_of-put_list : (hs : List (String × String)) → All IsPlain hs → headers_of (put_list hs) ≡ hs
unfolding headers_of headers_in
headers_of-put_list [] h = unfold split split_once in refl
headers_of-put_list (a ∷ []) (p, h) = ground (
  arith,
  split-Free 44 (put_pair a) (put_pair-Free a p),
  split_once-put_pair a p,
  p.key_trimmed,
  p.value_trimmed,
)
headers_of-put_list (a ∷ b ∷ rest) (p, h) =
    let parts : split 44 (put_list (a ∷ b ∷ rest)) ≡ put_pair a ∷ split 44 (put_list (b ∷ rest)) =
      split-put 44 _ refl (put_pair a) (put_list (b ∷ rest)) (put_pair-Free a p) in
    ground (
      arith,
      parts,
      split_once-put_pair a p,
      p.key_trimmed,
      p.value_trimmed,
      headers_of-put_list (b ∷ rest) h,
    )

-- An endpoint `http://HOST:PORT`, with a path behind it or not, and headers `k=v` between commas are
-- read as this host, the port if it is a u16 and 4318 otherwise, and these headers in order; the path
-- of the endpoint is ignored. The host is not empty and has no slash, the port has no slash and no
-- colon, and the headers have no comma, no `=` in a key, no empty key and no blanks at their ends.
pub parse_target-put :
    {E : Type 0} (cfg : OtlpConfig) (host port : String) (tail : Option String)
    (hs : List (String × String))
    → trim cfg.endpoint ≡ put "http://" (put (put_authority host port) (after_authority tail))
    → cfg.headers ≡ put_list hs
    → is_empty host ≡ false
    → Free 47 host
    → Free 47 port
    → Free 58 port
    → All IsPlain hs
    → parse_target {E = E} cfg
      ≡ ok (record {
        host = host;
        port = unwrap_or (parse_uint (2 ^ 16 - 1) port) default_port;
        path = cfg.path;
        headers = hs;
      })
unfolding parse_target without_scheme host_port
parse_target-put cfg host port tail hs ep headers set slash1 slash2 colon plain =
    let rest = put (put_authority host port) (after_authority tail) in
    let last : rsplit_once 58 (put_authority host port) ≡ some (host, port) =
      rsplit_once-put 58 _ refl host port colon in
    ground (
      arith,
      ep,
      headers,
      set,
      strip_text-put "http://" rest,
      authority_of-put (put_authority host port) tail
          (put-Free 47 host (put ":" port) slash1 (refl, slash2)),
      last,
      headers_of-put_list hs plain,
    )

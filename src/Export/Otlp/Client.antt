-- ===== src/Export/Otlp/Client.antt =====
-- l4scope/crates/l4scope-export/src/otlp.rs: the endpoint, the request, and one push of the metrics. The
-- thread of `start`, which pushes again and again, is not modelled.
pub mod Endpoint
use Prim.Native.String.{◌++◌}
use mathlib.Core.Option
use network_l4_monitoring_co.Base.{
  ℕ, ◌^◌, ◌-◌, String, Bool, true, false, not, Option, none, some, List, [], ◌∷◌, ◌⊎◌, inl, inr,
  if◌then◌else◌, unwrap_or,
}
use network_l4_monitoring_co.Base.Text.{
  trim, is_empty, split, split_once, rsplit_once, strip_text, starts_with, parse_uint, byte_len,
  split_whitespace, second_word,
}
use network_l4_monitoring_co.Core.Float.{Fmt}
use network_l4_monitoring_co.Core.Config.{OtlpConfig}
use network_l4_monitoring_co.Core.Error.{Error, io, config, Result, ok, err, ◌>>=◌}
use network_l4_monitoring_co.Export.Metrics.{MetricsSnapshot}
use network_l4_monitoring_co.Export.Otlp.{build_body}

pub record Target : Type 0 where
  pub host : String
  pub port : ℕ
  pub path : String
  pub headers : List (String × String)

abbrev pub default_port : ℕ
default_port = 4318

-- The first part of the text, which `split` always has.
abbrev pub first_part : List String → String → String
first_part [] rest = rest
first_part (part ∷ parts) rest = part

unfoldable pub authority_of : String → String
authority_of rest = first_part (split 47 rest) rest

-- Host and port; a port that is no u16 is the default one.
unfoldable pub host_port : String → String × ℕ
host_port authority = elim (rsplit_once 58 authority) [
  | none ↦ (authority, default_port)
  | some (h, p) ↦ (h, unwrap_or (parse_uint (2 ^ 16 - 1) p) default_port)
]

unfoldable pub headers_in : List String → List (String × String)
headers_in [] = []
headers_in (kv ∷ kvs) =
    let rest = headers_in kvs in
    elim (split_once 61 kv) [ none ↦ rest | some (k, v) ↦ (trim k, trim v) ∷ rest ]

unfoldable pub headers_of : String → List (String × String)
unfolding headers_in
headers_of text = headers_in (split 44 text)

-- The endpoint with no scheme.
unfoldable pub without_scheme : {E : Type 0} → String → Result E String
without_scheme ep = elim (strip_text "http://" ep) [
  | some r ↦ ok r
  | none ↦
      if starts_with "https://" ep
      then err (config "otlp endpoint must be http:// (run a node-local Collector for TLS/cloud)")
      else ok ep
]

unfoldable pub parse_target : {E : Type 0} → OtlpConfig → Result E Target
unfolding authority_of host_port headers_of without_scheme
parse_target cfg = do
  rest ← without_scheme (trim cfg.endpoint)
  let (host, port) = host_port (authority_of rest)
  (if is_empty host
      then err (config "otlp endpoint has no host")
      else ok
          (record { host = host; port = port; path = cfg.path; headers = headers_of cfg.headers }))

unfoldable pub header_lines : List (String × String) → String
header_lines [] = ""
header_lines ((k, v) ∷ hs) =
    let rest = header_lines hs in if is_empty k then rest else k ++ ": " ++ v ++ "\r\n" ++ rest

module _ {F : Type 0} (fmt : Fmt F) where
  -- The head of the request; the body follows it.
  unfoldable pub request_head : Target → String → String
  unfolding header_lines
  request_head t body =
      "POST "
      ++ t.path
      ++ " HTTP/1.1\r\n"
      ++ "Host: "
      ++ t.host
      ++ ":"
      ++ fmt.show_nat t.port
      ++ "\r\n"
      ++ "Content-Type: application/json\r\n"
      ++ "Content-Length: "
      ++ fmt.show_nat (byte_len body)
      ++ "\r\n"
      ++ header_lines t.headers
      ++ "Connection: close\r\n\r\n"

-- The error of an answer; an empty one is a read that failed or found the end.
unfoldable pub check_answer : String → Option String
check_answer line = elim (second_word (split_whitespace line)) [
  | none ↦ none
  | some status ↦
      if starts_with "2" status then none else some ("collector returned HTTP " ++ status)
]

-- What a connection will do: the errors of the two writes, and the text of the bytes that one read of
-- the answer gives, empty if there are none.
pub record Connection : Type 0 where
  pub write_head : Option String
  pub write_body : Option String
  pub answer : String

-- `connect` gives the connection or the text of its error. The result is what has been written
-- whole, and the error.
module _ {F : Type 0} (fmt : Fmt F) (connect : String → ℕ → String ⊎ Connection) where
  unfoldable pub exchange : Connection → String → String → List String × Option String
  unfolding check_answer
  exchange c head body = elim c.write_head [
    | some e ↦ ([], some e)
    | none ↦ elim c.write_body [
      | some e ↦ (head ∷ [], some e)
      | none ↦ (head ∷ body ∷ [], check_answer c.answer)
    ]
  ]

  unfoldable pub post : Target → String → List String × Option String
  unfolding request_head
  post t body = elim (connect t.host t.port) [
    | inl e ↦ ([], some ("connect " ++ t.host ++ ":" ++ fmt.show_nat t.port ++ ": " ++ e))
    | inr c ↦ exchange c (request_head fmt t body) body
  ]

  -- A push at the time `now` of the clock.
  unfoldable pub build_and_post :
      Target → MetricsSnapshot F → List (String × String) → ℕ → ℕ → List String × Option String
  build_and_post t snap attrs start_ns now = post t (build_body fmt snap attrs start_ns now)

  -- What has been sent, and the error; `other` makes an `std::io::Error` of a text.
  unfoldable pub flush :
      {E : Type 0}
      → (String → E)
      → MetricsSnapshot F
      → OtlpConfig
      → List (String × String)
      → ℕ
      → ℕ
      → List String × Option (Error E)
  unfolding parse_target build_and_post
  flush other snap cfg attrs start_ns now = elim (parse_target cfg) [
    | err e ↦ ([], some e)
    | ok target ↦
        let (sent, failed) = build_and_post target snap attrs start_ns now in
        (sent, Option.map (λ e. io (other e)) failed)
  ]

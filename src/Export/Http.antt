-- ===== src/Export/Http.antt =====
-- l4scope/crates/l4scope-export/src/http.rs: the endpoint of the metrics. The thread around its loop is
-- not modelled.
pub mod Scrape
use Prim.Native.String.{◌++◌}
use text.Mathlib.Text.{◌==◌ as str_eq}
use network_l4_monitoring_co.Base.{
  ℕ, String, Bool, true, false, ◌||◌, Option, none, some, List, [], ◌∷◌, ◌⊎◌, inl, inr,
  if◌then◌else◌, unwrap_or,
}
use network_l4_monitoring_co.Base.Text.{
  is_empty, starts_with, split_whitespace, second_word, byte_len,
}
use network_l4_monitoring_co.Core.Float.{Fmt}
use network_l4_monitoring_co.Core.Error.{config, Result, ok, err}
use network_l4_monitoring_co.Export.Metrics.{Metrics}
use network_l4_monitoring_co.Export.Metrics.Render.{render_prometheus}

-- What the calls of `read_line` on a connection will give, each line with its end, or an error. At the
-- end of the list they give the empty text, which is the end of the stream.
abbrev pub Lines : Type 0 → Type 0
Lines E = List (E ⊎ String)

unfoldable pub read_line : {E : Type 0} → Lines E → E ⊎ (String × Lines E)
read_line [] = inr ("", [])
read_line (inl e ∷ ls) = inl e
read_line (inr l ∷ ls) = inr (l, ls)

-- A connection, with the errors of cloning it and of writing the response.
pub record Stream (E : Type 0) : Type 0 where
  pub clone_error : Option E
  pub lines : Lines E
  pub write_error : Option E

abbrev pub ends_headers : String → Bool
ends_headers line = is_empty line || str_eq line "\r\n" || str_eq line "\n"

-- The loop that drops the header lines.
unfoldable pub drain_headers : {E : Type 0} → Lines E → E ⊎ Lines E
drain_headers [] = inr []
drain_headers (inl e ∷ ls) = inl e
drain_headers (inr l ∷ ls) = let rest = drain_headers ls in if ends_headers l then inr ls else rest

module _ {F : Type 0} (fmt : Fmt F) where
  -- Status, content type and body for a path.
  unfoldable pub content : Metrics F → String → String × String × String
  content registry path =
      if starts_with "/metrics" path
      then ("200 OK", "text/plain; version=0.0.4", render_prometheus fmt registry)
      else if starts_with "/healthz" path
      then ("200 OK", "text/plain", "ok\n")
      else ("404 Not Found", "text/plain", "not found\n")

  unfoldable pub response : String × String × String → String
  response (status, ctype, body) =
      "HTTP/1.1 "
      ++ status
      ++ "\r\nContent-Type: "
      ++ ctype
      ++ "\r\nContent-Length: "
      ++ fmt.show_nat (byte_len body)
      ++ "\r\nConnection: close\r\n\r\n"
      ++ body

  unfoldable pub requested_path : String → String
  requested_path line = unwrap_or (second_word (split_whitespace line)) "/"

  -- The response that is written.
  unfoldable pub handle_conn : {E : Type 0} → Stream E → Metrics F → E ⊎ String
  unfolding content response requested_path
  handle_conn stream registry = elim stream.clone_error [
    | some e ↦ inl e
    | none ↦ elim (read_line stream.lines) [
      | inl e ↦ inl e
      | inr (line, rest) ↦ elim (drain_headers rest) [
        | inl e ↦ inl e
        | inr after ↦ elim stream.write_error [
          | some e ↦ inl e
          | none ↦ inr (response (content registry (requested_path line)))
        ]
      ]
    ]
  ]

  -- The loop over the connections, each with the registry as it then is: the responses.
  unfoldable pub serve_all : {E : Type 0} → List (E ⊎ (Stream E × Metrics F)) → List String
  serve_all [] = []
  serve_all (inl e ∷ rest) = serve_all rest
  serve_all (inr (stream, registry) ∷ rest) =
      let later = serve_all rest in
      elim (handle_conn stream registry) [ inl e ↦ later | inr text ↦ text ∷ later ]

  -- `bind` gives the error of binding the address, if there is one.
  unfoldable pub serve :
      {E : Type 0}
      → (E → String)
      → (String → Option E)
      → String
      → List (E ⊎ (Stream E × Metrics F))
      → Result E (List String)
  unfolding serve_all
  serve show_io bind addr incoming = elim (bind addr) [
    | some e ↦ err (config ("cannot bind metrics addr " ++ addr ++ ": " ++ show_io e))
    | none ↦ ok (serve_all incoming)
  ]

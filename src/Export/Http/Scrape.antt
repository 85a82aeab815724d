-- ===== src/Export/Http/Scrape.antt =====
-- A request to http.rs, written line by line, and what is answered.
use network_l4_monitoring_co.Base.{
  ◌≡◌, refl, ap, ◌∙◌, String, false, none, List, [], ◌∷◌, ◌++◌ as append, inr, All, map, arith,
}
use Prim.Native.String.{◌++◌}
use network_l4_monitoring_co.Base.Text.{is_empty, is_whitespace, split_whitespace, byte_len}
use network_l4_monitoring_co.Base.Text.Parts.{put, IsSolid, split_whitespace-put, strip_text-put}
use network_l4_monitoring_co.Core.Float.{Fmt}
use network_l4_monitoring_co.Export.Metrics.{Metrics}
use network_l4_monitoring_co.Export.Metrics.Render.{render_prometheus}
use network_l4_monitoring_co.Export.Http.{
  Lines, Stream, read_line, ends_headers, drain_headers, content, response, requested_path,
  handle_conn,
}

-- A header line does not end the headers.
abbrev pub IsHeader : String → Type 0
IsHeader line = ends_headers line ≡ false

drain_headers-append :
    {E : Type 0} (headers : List String) (rest : Lines E)
    → All IsHeader headers
    → drain_headers (append (map inr headers) (inr "\r\n" ∷ rest)) ≡ inr rest
unfolding drain_headers is_empty
drain_headers-append [] rest h = refl
drain_headers-append (line ∷ headers) rest (k, h) =
    ground (arith, k, drain_headers-append headers rest h)

abbrev pub sound : {E : Type 0} → Lines E → Stream E
sound lines = record { clone_error = none; lines = lines; write_error = none }

abbrev pub put_request : String → String → String → String
put_request method path version = put method (put " " (put path (put " " version)))

module _ {F : Type 0} (fmt : Fmt F) where
  requested_path-put_request :
      (method path version : String)
      → IsSolid method
      → IsSolid path
      → is_empty method ≡ false
      → is_empty path ≡ false
      → requested_path fmt (put_request method path version) ≡ path
  unfolding requested_path is_whitespace
  requested_path-put_request method path version m p m_set p_set =
      let first : split_whitespace (put_request method path version)
          ≡ method ∷ split_whitespace (put path (put " " version)) =
        split_whitespace-put method _ (put path (put " " version)) m m_set refl in
      let second : split_whitespace (put path (put " " version)) ≡ path ∷ split_whitespace version =
        split_whitespace-put path _ version p p_set refl in
      ground (arith, first, second)

  -- A request `METHOD PATH VERSION` with any header lines up to a blank one, on a connection that does
  -- not fail, is answered by the path alone, whatever follows the blank line.
  pub handle_conn-put_request :
      {E : Type 0} (registry : Metrics F) (method path version : String) (headers : List String)
      (rest : Lines E)
      → IsSolid method
      → IsSolid path
      → is_empty method ≡ false
      → is_empty path ≡ false
      → All IsHeader headers
      → handle_conn fmt
          (sound
            (inr (put_request method path version) ∷ append (map inr headers) (inr "\r\n" ∷ rest)))
          registry
        ≡ inr (response fmt (content fmt registry path))
  unfolding handle_conn read_line
  handle_conn-put_request registry method path version headers rest m p m_set p_set hs = ground (
    arith,
    drain_headers-append headers rest hs,
    requested_path-put_request method path version m p m_set p_set,
  )

  -- Such a request for a path that starts with `/metrics` is answered with the status 200, the metrics
  -- of the registry as the body, and the number of the bytes of the body as its length.
  pub scrape :
      {E : Type 0} (registry : Metrics F) (method query version : String) (headers : List String)
      (rest : Lines E)
      → IsSolid method
      → IsSolid query
      → is_empty method ≡ false
      → All IsHeader headers
      → let body = render_prometheus fmt registry in
        handle_conn fmt
          (sound (
            inr (put_request method (put "/metrics" query) version)
            ∷ append (map inr headers) (inr "\r\n" ∷ rest)))
          registry
        ≡ inr (
            "HTTP/1.1 "
            ++ "200 OK"
            ++ "\r\nContent-Type: "
            ++ "text/plain; version=0.0.4"
            ++ "\r\nContent-Length: "
            ++ fmt.show_nat (byte_len body)
            ++ "\r\nConnection: close\r\n\r\n"
            ++ body)
  unfolding content response is_empty is_whitespace
  scrape registry method query version headers rest m q m_set hs =
      let found : content fmt registry (put "/metrics" query)
          ≡ ("200 OK", "text/plain; version=0.0.4", render_prometheus fmt registry) =
        ground (arith, strip_text-put "/metrics" query) in
      handle_conn-put_request registry method (put "/metrics" query) version headers rest m
        (refl, (refl, (refl, (refl, (refl, (refl, (refl, (refl, q)))))))) m_set refl hs
      ∙ ap (λ r. inr (response fmt r)) found

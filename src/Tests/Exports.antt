-- ===== src/Tests/Exports.antt =====
-- The client of otlp.rs and the endpoint of http.rs at concrete inputs.
use Prim.Native.String.{◌++◌}
use network_l4_monitoring_co.Base.{◌≡◌, refl, String, true, false, some, [], ◌∷◌, inr}
use network_l4_monitoring_co.Base.Text.{
  trim, trim_start, trim_end, is_whitespace, is_empty, parse_uint, parse_digits, byte_len,
}
use network_l4_monitoring_co.Core.Config.{OtlpConfig}
use network_l4_monitoring_co.Core.Error.{ok}
use network_l4_monitoring_co.Export.Metrics.{new}
use network_l4_monitoring_co.Export.Metrics.Render.{render_prometheus}
use network_l4_monitoring_co.Export.Http.{handle_conn}
use network_l4_monitoring_co.Export.Http.Scrape.{sound, scrape}
use network_l4_monitoring_co.Export.Otlp.Client.{parse_target}
use network_l4_monitoring_co.Export.Otlp.Client.Endpoint.{parse_target-put}
use network_l4_monitoring_co.Tests.Values.{ops, fmt}

abbrev otlp : OtlpConfig
otlp = record {
  enabled = true;
  endpoint = " http://collector:4317/ignored";
  path = "/v1/metrics";
  interval_secs = 15;
  headers = "api-key=secret";
  resource_attributes = "";
  service_name = "l4scope";
  pod_cidrs = "";
  pod_attribution = false;
}

parse_target-put_example :
    parse_target {E = String} otlp
    ≡ ok (record {
      host = "collector";
      port = 4317;
      path = "/v1/metrics";
      headers = ("api-key", "secret") ∷ [];
    })
unfolding trim trim_start trim_end is_whitespace is_empty parse_uint parse_digits
parse_target-put_example =
    parse_target-put otlp "collector" "4317" (some "ignored") (("api-key", "secret") ∷ []) refl refl
      refl (refl, (refl, (refl, (refl, (refl, (refl, (refl, (refl, (refl, tt)))))))))
      (refl, (refl, (refl, (refl, tt)))) (refl, (refl, (refl, (refl, tt))))
      (
        record {
          key_comma = (refl, (refl, (refl, (refl, (refl, (refl, (refl, tt)))))));
          key_equals = (refl, (refl, (refl, (refl, (refl, (refl, (refl, tt)))))));
          value_comma = (refl, (refl, (refl, (refl, (refl, (refl, tt))))));
          key_trimmed = refl;
          value_trimmed = refl;
          key_set = refl;
        },
        tt,
      )

scrape_example :
    let body = render_prometheus fmt (new ops) in
    handle_conn fmt {E = String}
      (sound (inr "GET /metrics?x HTTP/1.1\r\n" ∷ inr "Host: a\r\n" ∷ inr "\r\n" ∷ []))
      (new ops)
    ≡ inr (
        "HTTP/1.1 "
        ++ "200 OK"
        ++ "\r\nContent-Type: "
        ++ "text/plain; version=0.0.4"
        ++ "\r\nContent-Length: "
        ++ fmt.show_nat (byte_len body)
        ++ "\r\nConnection: close\r\n\r\n"
        ++ body)
unfolding is_empty is_whitespace
scrape_example =
    scrape fmt (new ops) "GET" "?x" "HTTP/1.1\r\n" ("Host: a\r\n" ∷ []) []
      (refl, (refl, (refl, tt))) (refl, (refl, tt)) refl (refl, tt)

-- ===== src/Tests/Otlp.antt =====
-- otlp.rs at concrete inputs.
use network_l4_monitoring_co.Base.{◌≡◌, some}
use network_l4_monitoring_co.Detect.Json.{json_escape}
use network_l4_monitoring_co.Export.Otlp.{esc}
use network_l4_monitoring_co.Export.Otlp.Escaped.{unesc, has_bare, unesc-json_escape}

unesc-json_escape_example :
    (unesc (json_escape "a \"b\"\n") ≡ some "a \"b\"\n")
    × (esc "a \"b\"\n" ≡ json_escape "a \"b\"\n")
unfolding has_bare
unesc-json_escape_example = unesc-json_escape "a \"b\"\n"

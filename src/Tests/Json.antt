-- ===== src/Tests/Json.antt =====
-- The escapes of types.rs at a concrete text.
use network_l4_monitoring_co.Base.{◌≡◌, refl}
use network_l4_monitoring_co.Detect.Json.{json_escape}

escaped : json_escape "a\"b\\" ≡ "a\\\"b\\\\"
unfolding json_escape
escaped = refl

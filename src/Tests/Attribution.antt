-- ===== src/Tests/Attribution.antt =====
-- attribution.rs at concrete inputs.
use network_l4_monitoring_co.Base.{◌≡◌, ◌↔◌, true, arith}
use network_l4_monitoring_co.Core.Types.{v4}
use network_l4_monitoring_co.Export.Attribution.{cidr_contains}
use network_l4_monitoring_co.Export.Attribution.Networks.{SameNetwork, cidr_contains_iff}

cidr_contains_iff_example :
    (cidr_contains (v4 0x0a000000) 8 (v4 0x0a010203) ≡ true)
    ↔ SameNetwork (v4 0x0a000000) 8 (v4 0x0a010203)
cidr_contains_iff_example =
    cidr_contains_iff (v4 0x0a000000) 8 (v4 0x0a010203) (omega arith) (omega arith)

-- ===== src/Tests/Storm.antt =====
-- The RST-storm rule at concrete inputs.
use network_l4_monitoring_co.Base.{ℕ, ◌≡◌, refl, not, ◌&&◌, List, [], ◌∷◌, arith}
use network_l4_monitoring_co.Core.Types.{PacketMeta, reverse, has}
use network_l4_monitoring_co.Core.Config.{DetectConfig}
use network_l4_monitoring_co.Detect.Engine.{process}
use network_l4_monitoring_co.Detect.Engine.Rates.{reset_times}
use network_l4_monitoring_co.Detect.Engine.Alerts.{is_storm, alerts, latest, may_alert, alert_if}
use network_l4_monitoring_co.Detect.Engine.Alerts.History.{gap_ns}
use network_l4_monitoring_co.Detect.Engine.Storm.{before, reset_rate, rst_storm_alert}
use network_l4_monitoring_co.Detect.Engine.Trace.{Call, packet}
use network_l4_monitoring_co.Tests.Values.{ops, fmt, cfg, packet_of, syn_packet}

abbrev strict : DetectConfig ℕ
strict = record cfg { rst_storm_per_sec = 2 }

abbrev reset : PacketMeta
reset = packet_of 1_000_000_007 reverse 0x14 0 101 0

abbrev again : PacketMeta
again = packet_of 1_000_000_009 reverse 0x14 0 101 0

abbrev refused : List Call
refused = packet syn_packet ∷ packet reset ∷ []

rst_storm_alert_example :
    alerts is_storm (process ops fmt again (before ops fmt strict refused again).0).1
    ≡ alert_if
        (not (ops.lt (reset_rate ops fmt strict refused again) strict.rst_storm_per_sec)
          && may_alert
              (gap_ns strict)
              (latest 0 (alerts is_storm (before ops fmt strict refused again).1))
              1_000_000_009)
        1_000_000_009
unfolding reset_times has
rst_storm_alert_example =
    rst_storm_alert ops fmt strict refused again refl (omega arith) (omega arith) (omega arith)

-- ===== src/Detect/Detectors/Text.antt =====
-- The texts of l4scope/crates/l4scope-core/src/types.rs and
-- l4scope/crates/l4scope-detect/src/detectors.rs: the `Display` of keys and the details of
-- events.
use Prim.Native.String.{◌++◌}
use network_l4_monitoring_co.Base.{ℕ, String}
use network_l4_monitoring_co.Core.Float.{FloatOps, Fmt}
use network_l4_monitoring_co.Core.Types.{Protocol, tcp, udp, IpAddr, v4, v6, Endpoint, FlowKey}
use network_l4_monitoring_co.Detect.Flow.{FlowState}

unfoldable pub protocol_name : Protocol → String
protocol_name tcp = "tcp"
protocol_name udp = "udp"

module _ {F : Type 0} (fmt : Fmt F) where
  show_address : IpAddr → String
  show_address (v4 a) = fmt.show_ip (v4 a)
  show_address (v6 a) = "[" ++ fmt.show_ip (v6 a) ++ "]"

  unfoldable pub show_endpoint : Endpoint → String
  unfolding show_address
  show_endpoint ep = show_address ep.ip ++ ":" ++ fmt.show_nat ep.port

  unfoldable pub show_key : FlowKey → String
  unfolding protocol_name show_endpoint
  show_key k =
      protocol_name k.proto ++ " " ++ show_endpoint k.low ++ " <-> " ++ show_endpoint k.high

  unfoldable pub retransmission_text : FloatOps F → FlowKey → FlowState → F → String
  retransmission_text ops key flow ratio =
      "TCP retransmissions on "
      ++ show_key key
      ++ ": "
      ++ fmt.show_nat flow.retransmits
      ++ "/"
      ++ fmt.show_nat flow.data_segments
      ++ " segments ("
      ++ fmt.show_f64 1 (ops.mul ratio (ops.from_u64 100))
      ++ "% loss/retx)"

  unfoldable pub out_of_order_text : FlowKey → String
  out_of_order_text key = "Out-of-order / gap in segment stream on " ++ show_key key

  unfoldable pub dup_ack_text : FlowKey → ℕ → String
  dup_ack_text key n =
      fmt.show_nat n ++ " duplicate ACKs on " ++ show_key key ++ " (fast-retransmit / loss signal)"

  unfoldable pub zero_window_text : FlowKey → String
  zero_window_text key =
      "Zero receive window on " ++ show_key key ++ " — receiver stalled / app not draining"

  unfoldable pub high_rtt_text : FlowKey → F → String
  high_rtt_text key rtt_ms =
      "High handshake RTT on " ++ show_key key ++ ": " ++ fmt.show_f64 0 rtt_ms ++ " ms"

  unfoldable pub handshake_failure_text : FlowKey → String
  handshake_failure_text key = "Connection refused (RST during handshake) on " ++ show_key key

  unfoldable pub rst_storm_text : FlowKey → F → String
  rst_storm_text key rate =
      "RST storm: " ++ fmt.show_f64 0 rate ++ " resets/s host-wide (near " ++ show_key key ++ ")"

  unfoldable pub syn_backlog_text : Endpoint → ℕ → String
  syn_backlog_text service n =
      "SYN backlog to "
      ++ show_endpoint service
      ++ ": "
      ++ fmt.show_nat n
      ++ " half-open connections (possible SYN flood / accept-queue exhaustion)"

  unfoldable pub churn_text : F → String
  churn_text rate = "Connection churn: " ++ fmt.show_f64 0 rate ++ " new flows/s host-wide"

  unfoldable pub handshake_timeout_text : Endpoint → F → String
  handshake_timeout_text service waited =
      "SYN to "
      ++ show_endpoint service
      ++ " unanswered for "
      ++ fmt.show_f64 1 waited
      ++ "s (handshake timeout)"

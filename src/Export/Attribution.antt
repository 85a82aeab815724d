-- ===== src/Export/Attribution.antt =====
-- l4scope/crates/l4scope-export/src/attribution.rs: which endpoint of a flow is a pod of the node.
pub mod Networks
use network_l4_monitoring_co.Base.{
  ℕ, ◌*◌, ◌-◌, ◌%◌, ◌^◌, Bool, false, ◌||◌, ltb, ◌==◌, if◌then◌else◌, bit_and, String, Option, none,
  some, List, [], ◌∷◌, ◌++◌, length,
}
use network_l4_monitoring_co.Base.Text
use network_l4_monitoring_co.Base.Text.{trim, split, split_once, parse_uint}
use network_l4_monitoring_co.Core.Float.{Fmt}
use network_l4_monitoring_co.Core.Types.{IpAddr, v4, v6, FlowKey}

-- The addresses and prefix lengths of the networks.
pub record PodMatcher : Type 0 where
  pub cidrs : List (IpAddr × ℕ)

-- One part of the list; `parse_ip` is `str::parse::<IpAddr>`.
unfoldable pub push_network :
    (String → Option IpAddr) → List (IpAddr × ℕ) → String → List (IpAddr × ℕ)
push_network parse_ip cidrs text =
    let part = trim text in
    if Text.is_empty part then cidrs else elim (split_once 47 part) [
      | none ↦ cidrs
      | some (net, pfx) ↦ elim (parse_ip (trim net)) [
        | none ↦ cidrs
        | some ip ↦ elim (parse_uint (2 ^ 32 - 1) (trim pfx)) [
          | none ↦ cidrs
          | some p ↦ cidrs ++ (ip, p) ∷ []
        ]
      ]
    ]

unfoldable pub push_networks :
    (String → Option IpAddr) → List (IpAddr × ℕ) → List String → List (IpAddr × ℕ)
unfolding push_network
push_networks parse_ip cidrs [] = cidrs
push_networks parse_ip cidrs (part ∷ parts) =
    push_networks parse_ip (push_network parse_ip cidrs part) parts

unfoldable pub new : (String → Option IpAddr) → String → PodMatcher
unfolding push_networks
new parse_ip spec = record { cidrs = push_networks parse_ip [] (split 44 spec) }

unfoldable pub is_empty : PodMatcher → Bool
is_empty m = length m.cidrs == 0

-- `MAX << (width - prefix)` of a word of that width, 0 for the prefix 0.
abbrev pub network_mask : ℕ → ℕ → ℕ
network_mask width prefix =
    if prefix == 0 then 0 else (2 ^ width - 1) * 2 ^ (width - prefix) % 2 ^ width

unfoldable pub cidr_contains : IpAddr → ℕ → IpAddr → Bool
cidr_contains (v4 n) prefix (v4 a) =
    if ltb 32 prefix
    then false
    else bit_and n (network_mask 32 prefix) == bit_and a (network_mask 32 prefix)
cidr_contains (v6 n) prefix (v6 a) =
    if ltb 128 prefix
    then false
    else bit_and n (network_mask 128 prefix) == bit_and a (network_mask 128 prefix)
cidr_contains (v4 n) prefix (v6 a) = false
cidr_contains (v6 n) prefix (v4 a) = false

unfoldable pub any_contains : List (IpAddr × ℕ) → IpAddr → Bool
any_contains [] ip = false
any_contains ((net, prefix) ∷ cs) ip = cidr_contains net prefix ip || any_contains cs ip

unfoldable pub contains : PodMatcher → IpAddr → Bool
contains m ip = any_contains m.cidrs ip

unfoldable pub local_pod_ip : {F : Type 0} → Fmt F → PodMatcher → FlowKey → Option String
local_pod_ip fmt m key =
    if contains m key.low.ip
    then some (fmt.show_ip key.low.ip)
    else if contains m key.high.ip
    then some (fmt.show_ip key.high.ip)
    else none

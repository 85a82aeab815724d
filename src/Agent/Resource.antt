-- ===== src/Agent/Resource.antt =====
-- l4scope/crates/l4scope-agent/src/main.rs: the resource attributes of the OTLP exporter.
pub mod Lists
use network_l4_monitoring_co.Base.{String, List, [], ◌∷◌, ◌++◌, Option, none, some, if◌then◌else◌}
use network_l4_monitoring_co.Base.Text.{is_empty, trim, split, split_once}
use network_l4_monitoring_co.Core.Config.{OtlpConfig}

abbrev pub Attribute : Type 0
Attribute = String × String

-- One part of a list of `k=v`.
unfoldable pub push_kv : List Attribute → String → List Attribute
push_kv v kv = elim (split_once 61 kv) [
  | none ↦ v
  | some (k, val) ↦ let k' = trim k in if is_empty k' then v else v ++ (k', trim val) ∷ []
]

unfoldable pub push_kvs : List Attribute → List String → List Attribute
unfolding push_kv
push_kvs v [] = v
push_kvs v (kv ∷ kvs) = push_kvs (push_kv v kv) kvs

unfoldable pub push_kv_list : List Attribute → String → List Attribute
unfolding push_kvs
push_kv_list v s = push_kvs v (split 44 s)

-- The variables of the environment and the attributes that they set.
abbrev pub env_map : List (String × String)
env_map =
    ("HOSTNAME", "host.name")
    ∷ ("K8S_NODE_NAME", "k8s.node.name")
    ∷ ("NODE_NAME", "k8s.node.name")
    ∷ ("K8S_CLUSTER_NAME", "k8s.cluster.name")
    ∷ ("CLOUD_PROVIDER", "cloud.provider")
    ∷ ("CLOUD_REGION", "cloud.region")
    ∷ ("CLOUD_ACCOUNT_ID", "cloud.account.id")
    ∷ []

-- `var` is `std::env::var`, with `none` for its error.
unfoldable pub push_env :
    (String → Option String) → List (String × String) → List Attribute → List Attribute
push_env var [] v = v
push_env var ((env, key) ∷ rest) v =
    push_env var rest
      (elim (var env) [ none ↦ v | some val ↦ if is_empty val then v else v ++ (key, val) ∷ [] ])

unfoldable pub build_resource_attrs : (String → Option String) → OtlpConfig → List Attribute
unfolding push_env push_kv_list
build_resource_attrs var cfg =
    let v = push_env var env_map (("service.name", cfg.service_name) ∷ []) in
    let w = push_kv_list v cfg.resource_attributes in
    elim (var "OTEL_RESOURCE_ATTRIBUTES") [ none ↦ w | some s ↦ push_kv_list w s ]

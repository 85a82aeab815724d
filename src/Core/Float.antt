-- ===== src/Core/Float.antt =====
-- What the code uses of `f64` and of `format!`: the type and its operations are parameters. An
-- integral literal such as `1000.0` is `from_u64 1000`.
use network_l4_monitoring_co.Base.{ℕ, String, Bool}
use network_l4_monitoring_co.Core.Types.{IpAddr}

pub record FloatOps (F : Type 0) : Type 0 where
  -- `n as f64`
  pub from_u64 : ℕ → F
  pub div : F → F → F
  pub mul : F → F → F
  -- `a < b`, false if one of them is NaN
  pub lt : F → F → Bool
  -- `a >= b`
  pub ge : F → F → Bool

pub record Fmt (F : Type 0) : Type 0 where
  -- `{}` of an unsigned integer
  pub show_nat : ℕ → String
  -- `{}` of an `Ipv4Addr` or `Ipv6Addr`
  pub show_ip : IpAddr → String
  -- `{:.n}` of an `f64`
  pub show_f64 : ℕ → F → String
  -- `{}` of an `f64`
  pub show_plain_f64 : F → String
  -- `{:#010x}` of a `u32`
  pub show_hex : ℕ → String

-- ===== src/Core/Error.antt =====
-- l4scope/crates/l4scope-core/src/error.rs: the error type. `E` is `std::io::Error`, and its text is a
-- parameter.
use Prim.Native.String.{◌++◌}
use network_l4_monitoring_co.Base.{String}

pub data Error (E : Type 0) : Type 0 where
  io : E → Error E
  parse config unsupported_backend : String → Error E

pub data Result {ℓ} (E : Type 0) (A : Type ℓ) : Type ℓ where
  ok : A → Result E A
  err : Error E → Result E A

infixl 5 ◌>>=◌
abbrev pub ◌>>=◌ {ℓ κ} :
    {E : Type 0} {A : Type ℓ} {B : Type κ} → Result E A → (A → Result E B) → Result E B
ok a >>= f = f a
err e >>= f = err e

unfoldable pub show_error : {E : Type 0} → (E → String) → Error E → String
show_error show_io (io e) = "io error: " ++ show_io e
show_error show_io (parse m) = "parse error: " ++ m
show_error show_io (config m) = "config error: " ++ m
show_error show_io (unsupported_backend m) = "unsupported capture backend: " ++ m

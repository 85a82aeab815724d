-- ===== src/Export/JsonSink.antt =====
-- l4scope/crates/l4scope-export/src/json.rs: the sink of events. Opening a file is not modelled: a path
-- that cannot be opened is the error of `from_target`, which `opens` decides.
use Prim.Native.String.{◌++◌}
use text.Mathlib.Text.{◌==◌ as str_eq}
use network_l4_monitoring_co.Base.{
  String, Bool, true, false, ◌||◌, List, [], ◌∷◌, ◌++◌ as append, Option, none, some, if◌then◌else◌,
}
use network_l4_monitoring_co.Base.Text.{trim}
use network_l4_monitoring_co.Core.Error.{config, Result, ok, err}
use network_l4_monitoring_co.Core.Float.{Fmt}
use network_l4_monitoring_co.Core.Types.{L4Event}
use network_l4_monitoring_co.Detect.Json.{to_json}

pub data Target : Type 0 where
  off stdout stderr : Target
  file : String → Target

-- The sink with the lines that it has handed to its target, where the code ignores a failure.
pub record JsonSink : Type 0 where
  pub target : Target
  pub written : List String

-- `opens path` is the error text of the system for a path that cannot be opened.
unfoldable pub from_target : {E : Type 0} → (String → Option String) → String → Result E JsonSink
from_target opens text =
    let t = trim text in
    if str_eq t "" || str_eq t "off" || str_eq t "none"
    then ok (record { target = off; written = [] })
    else if str_eq t "stdout"
    then ok (record { target = stdout; written = [] })
    else if str_eq t "stderr"
    then ok (record { target = stderr; written = [] })
    else elim (opens t) [
      | some e ↦ err (config ("cannot open json_events " ++ t ++ ": " ++ e))
      | none ↦ ok (record { target = file t; written = [] })
    ]

-- Whether the sink writes lines.
abbrev pub writes : Target → Bool
writes off = false
writes stdout = true
writes stderr = true
writes (file path) = true

module _ {F : Type 0} (fmt : Fmt F) where
  unfoldable pub emit : L4Event F → JsonSink → JsonSink
  emit ev sink =
      if writes sink.target
      then record sink { written = append sink.written (to_json fmt ev ∷ []) }
      else sink

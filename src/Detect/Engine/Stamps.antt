-- ===== src/Detect/Engine/Stamps.antt =====
-- The times of the events that `Engine::process` and `Engine::sweep` of engine.rs return.
use network_l4_monitoring_co.Base.{ℕ, ◌≡◌, List, [], ◌∷◌}
use network_l4_monitoring_co.Base.HashMap
use network_l4_monitoring_co.Core.Types.{L4Event}
use network_l4_monitoring_co.Detect.Engine.{Engine}

-- Every event of the list has the time `t`.
abbrev pub Stamped : {F : Type 0} → ℕ → List (L4Event F) → Type 0
Stamped t [] = Unit
Stamped t (ev ∷ evs) = (ev.ts_nanos ≡ t) × Stamped t evs

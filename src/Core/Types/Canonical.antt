-- ===== src/Core/Types/Canonical.antt =====
-- `FlowKey::canonical` of l4scope/crates/l4scope-core/src/types.rs: what a key keeps of the two
-- endpoints.
use network_l4_monitoring_co.Base.{◌≡◌, ◌≢◌, arith}
use network_l4_monitoring_co.Core.Types.{
  Endpoint, Protocol, Direction, forward, reverse, FlowKey, canonical,
}

abbrev pub opposite : Direction → Direction
opposite forward = reverse
opposite reverse = forward

-- The (source, destination) of a packet with a key and a direction.
abbrev pub observed : FlowKey → Direction → Endpoint × Endpoint
observed k forward = (k.low, k.high)
observed k reverse = (k.high, k.low)

-- The two directions of a conversation between different endpoints have the same key and opposite
-- directions, and key and direction give back the source and the destination.
pub canonical_lem :
    (a b : Endpoint) (proto : Protocol)
    → a ≢ b
    → ((canonical a b proto).0 ≡ (canonical b a proto).0)
      × ((canonical a b proto).1 ≡ opposite (canonical b a proto).1)
      × (observed (canonical a b proto).0 (canonical a b proto).1 ≡ (a, b))
unfolding canonical
canonical_lem a b proto h = (ground arith, ground arith, ground arith)

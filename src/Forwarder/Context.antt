-- ===== src/Forwarder/Context.antt =====
-- `ForwardingContext` and `send_to_proxy`: the maps that the workers of the primary share, and what
-- they have put into the channels to the proxies.
use remora.Prelude.{ℕ, List, [], ◌∷◌, ◌++◌, Map, contains, nat_eq, if◌then◌else◌}
use remora.Config.{SeparationMode}
use remora.Api.{PrimaryToProxyMessage}
use remora.Versioned.{VersionedDependencyController}

-- Locality first, or round robin.
pub data PreConsensusSchedulingPolicy : Type 0 where
  lsds rsds : PreConsensusSchedulingPolicy

-- `proxy_connections` is the ids of the proxies with an open channel; `sent` is what the channels
-- were given, oldest first.
pub record ForwardingContext : Type 0 where
  pub proxy_connections : List ℕ
  pub dependency_controller : VersionedDependencyController
  pub pre_consensus_routing_plan : Map ℕ ℕ
  pub states_to_proxy : Map (ℕ × ℕ) ℕ
  pub stateless_forwarding_table : Map ℕ ℕ
  pub separation_mode : SeparationMode
  pub policy : PreConsensusSchedulingPolicy
  pub proxy_loads : Map ℕ ℕ
  pub sent : List (ℕ × PrimaryToProxyMessage)

-- A message for a proxy that is not connected is dropped with a warning.
unfoldable pub send_to_proxy : ForwardingContext → ℕ → PrimaryToProxyMessage → ForwardingContext
send_to_proxy c dest_proxy message =
    if contains c.proxy_connections dest_proxy
    then record c { sent = c.sent ++ (dest_proxy, message) ∷ [] }
    else c

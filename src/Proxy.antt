-- ===== src/Proxy.antt =====
-- src/proxy/core.rs: the state that the two message processors of a proxy share.
-- The maps behind their `Arc`s are one state here, and each handler is a function on it. A spawned
-- task is a value in `spawned`, with what its body was given; Tasks has the bodies.
pub mod Primary
pub mod Peers
pub mod Tasks
pub mod Migration
pub mod Accepts
pub mod Results
use remora.Prelude.{ℕ, List, [], ◌∷◌, ◌++◌, Option, Bool, Map, contains, nat_eq, if◌then◌else◌}
use remora.Config.{SeparationMode}
use remora.Api.{
  TransactionWithTimestamp, StatelessVerificationRequest, RequiredStates, NewStates,
  ProxyToProxyMessage,
}
use remora.Execution.{Executor, ExecutionResults}
use remora.Versioned.{VersionedDependencyController}
use remora.Oneshot.{OneshotDependencyController}

-- What a handler hands to `tokio::spawn`.
pub data Spawned (Object : Type 0) : Type 0 where
  verification : (tx : ℕ) → StatelessVerificationRequest → Spawned Object
  execution : TransactionWithTimestamp → Option ℕ → RequiredStates → Spawned Object
  migration : NewStates Object → (current_handles : List ℕ) → Spawned Object
  state_answer : (proxy : ℕ) → List (ℕ × ℕ) → (prior_handles : List ℕ) → Spawned Object
  result_answer : (proxy digest rx : ℕ) → Spawned Object

-- `tx_inter_proxy_replies` is the ids of the proxies with an open channel and `sent` what these were
-- given; `notified` is the handles that were notified, `signals` the results that oneshot channels
-- carry, and `tx_results` the executions reported to the primary, oldest first.
pub record Proxy ⦃E : Executor⦄ : Type 0 where
  pub id : ℕ
  pub mode : SeparationMode
  pub context : E.ExecutionContext
  pub store : E.Store
  pub stateful_controller : VersionedDependencyController
  pub stateless_controller : OneshotDependencyController
  pub tx_inter_proxy_replies : List ℕ
  pub sent : List (ℕ × ProxyToProxyMessage E.Object)
  pub spawned : List (Spawned E.Object)
  pub notified : List ℕ
  pub signals : Map ℕ Bool
  pub tx_results : List (ExecutionResults E.Object E.Effects)

module _ ⦃E : Executor⦄ where
  abbrev pub spawn : Spawned E.Object → Proxy → Proxy
  spawn task c = record c { spawned = c.spawned ++ task ∷ [] }

  -- A message for a proxy without a connection is dropped with a warning.
  unfoldable pub send_msg_to_proxy : ℕ → ProxyToProxyMessage E.Object → Proxy → Proxy
  send_msg_to_proxy proxy_id message c =
      if contains c.tx_inter_proxy_replies proxy_id
      then record c { sent = c.sent ++ (proxy_id, message) ∷ [] }
      else c

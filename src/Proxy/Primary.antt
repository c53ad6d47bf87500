-- ===== src/Proxy/Primary.antt =====
-- src/proxy/core.rs, `PrimaryMessageProcessor`: what a proxy does with a message of the primary, up to
-- the tasks that it spawns. `none` is a panic.
use remora.Prelude.{ℕ, [], ◌∷◌, ◌++◌, Option, none, some, contains, nat_eq, ◌==◌, if◌then◌else◌}
use remora.Config.{is_proxy_separation, is_primary_separation}
use remora.Api.{
  TransactionWithTimestamp, StatelessVerificationRequest, RequiredStates, PrimaryToProxyMessage,
  txn, stateless_txn, combined_txn, digest, request_digest, request, stateful_request,
  stateless_request,
}
use remora.Execution.{Executor}
use remora.Oneshot.{set_local_dependency, get_dependency, set_remote_dependency}
use remora.Proxy.{Proxy, spawn, verification, execution, send_msg_to_proxy}

module _ ⦃E : Executor⦄ where
  unfoldable pub process_stateless_transaction : StatelessVerificationRequest → Proxy → Proxy
  process_stateless_transaction req c =
      let (tx, controller) = set_local_dependency (request_digest req) c.stateless_controller in
      spawn (verification tx req) (record c { stateless_controller = controller })

  -- The receiver of the stateless result. A proxy that is not connected is an `unwrap` of nothing.
  unfoldable pub stateless_handle : ℕ → TransactionWithTimestamp → Proxy → Option (Option ℕ × Proxy)
  stateless_handle stateless_proxy t c =
      if is_proxy_separation c.mode
      then (if stateless_proxy == c.id
          then (let (rx, controller) = get_dependency (digest t) c.stateless_controller in
              some (rx, record c { stateless_controller = controller }))
          else (if contains c.tx_inter_proxy_replies stateless_proxy
              then (let (rx, controller) =
                    set_remote_dependency (digest t) c.stateless_controller in
                  some (
                    some rx,
                    record c {
                      stateless_controller = controller;
                      sent =
                          c.sent
                          ++ (stateless_proxy, request (stateless_request c.id (digest t))) ∷ [];
                    },
                  ))
              else none))
      else some (none, c)

  -- The requests for missing states, one for each; asking itself is a failed assertion.
  unfoldable pub request_states : RequiredStates → Proxy → Option Proxy
  request_states [] c = some c
  request_states ((state, none) ∷ required) c = request_states required c
  request_states ((state, some proxy_id) ∷ required) c =
      let rest =
        request_states required
          (send_msg_to_proxy proxy_id (request (stateful_request c.id (state ∷ []))) c) in
      if proxy_id == c.id then none else rest

  unfoldable pub schedule_stateful_transaction :
      TransactionWithTimestamp → RequiredStates → Option ℕ → Proxy → Option Proxy
  schedule_stateful_transaction t required rx c = elim (request_states required c) [
    | none ↦ none
    | some c' ↦ some (spawn (execution t rx required) c')
  ]

  unfoldable pub process_stateful_transaction :
      TransactionWithTimestamp → ℕ → RequiredStates → Proxy → Option Proxy
  process_stateful_transaction t stateless_proxy required c =
      elim (stateless_handle stateless_proxy t c) [
        | none ↦ none
        | some (rx, c') ↦ schedule_stateful_transaction t required rx c'
      ]

  unfoldable pub handle_primary_message : PrimaryToProxyMessage → Proxy → Option Proxy
  handle_primary_message (stateless_txn req) c =
      if is_primary_separation c.mode then some (process_stateless_transaction req c) else none
  handle_primary_message (txn t stateless_proxy missing) c =
      if is_primary_separation c.mode
      then process_stateful_transaction t stateless_proxy missing c
      else none
  handle_primary_message (combined_txn t stateless_proxy missing) c =
      if is_primary_separation c.mode
      then none
      else process_stateful_transaction t stateless_proxy missing (
          if is_proxy_separation c.mode
          then process_stateless_transaction (E.make_verification_request t) c
          else c)

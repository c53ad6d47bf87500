-- ===== src/Proxy/Peers.antt =====
-- src/proxy/core.rs, `ProxyMessageProcessor`: what a proxy does with a message of another proxy, up to
-- the tasks that it spawns. `none` is a panic.
use remora.Prelude.{
  ℕ, List, [], ◌∷◌, Option, none, some, Bool, true, false, insert, nat_eq, if◌then◌else◌,
}
use remora.Config.{is_primary_separation}
use remora.SequenceNumber.{SequenceNumbers}
use remora.Api.{
  NewStates, ProxyToProxyMessage, request, reply, stateful_request, stateless_request,
  stateful_reply, stateless_reply,
}
use remora.Execution.{Executor}
use remora.Versioned.{get_prior_dependency_and_update}
use remora.Oneshot.{get_dependency, take_signal, remove_dependency}
use remora.Proxy.{Proxy, spawn, migration, state_answer, result_answer}

module _ ⦃E : Executor⦄ where
  unfoldable pub handle_stateless_reply : ℕ → Bool → Proxy → Proxy
  handle_stateless_reply txn_digest result c =
      let (tx, controller) = take_signal txn_digest c.stateless_controller in
      record c {
        stateless_controller = remove_dependency txn_digest controller;
        signals = elim tx [ none ↦ c.signals | some n ↦ insert c.signals n result ];
      }

  unfoldable pub handle_stateless_request : ℕ → ℕ → Proxy → Option Proxy
  handle_stateless_request proxy_id txn_digest c =
      let (rx, controller) = get_dependency txn_digest c.stateless_controller in
      elim rx [
        | none ↦ none
        | some n ↦ some (
            spawn (result_answer proxy_id txn_digest n)
              (record c { stateless_controller = controller }))
      ]

module _ ⦃E : Executor⦄ ⦃S : SequenceNumbers⦄ where
  -- Each object with the version before its own; the first version has none before it.
  unfoldable pub prior_versions : NewStates E.Object → Option (List (ℕ × ℕ))
  prior_versions [] = some []
  prior_versions ((oid, o) ∷ objects) = elim (S.one_before (E.version o)) [
    | none ↦ none
    | some v ↦ elim (prior_versions objects) [
      | none ↦ none
      | some versions ↦ some ((oid, v) ∷ versions)
    ]
  ]

  -- A reply stands for a transaction that moves each object from the version before to its own.
  unfoldable pub handle_stateful_reply : NewStates E.Object → Proxy → Option Proxy
  handle_stateful_reply objects c = elim (prior_versions objects) [
    | none ↦ none
    | some objs ↦ elim (get_prior_dependency_and_update 0 objs true false c.stateful_controller) [
      | none ↦ none
      | some (handles, controller) ↦
          some (spawn (migration objects handles.1) (record c { stateful_controller = controller }))
    ]
  ]

  unfoldable pub handle_stateful_request : ℕ → List (ℕ × ℕ) → Proxy → Option Proxy
  handle_stateful_request proxy_id requested c =
      elim (get_prior_dependency_and_update 0 requested false true c.stateful_controller) [
        | none ↦ none
        | some (handles, controller) ↦ some (
            spawn (state_answer proxy_id requested handles.0)
              (record c { stateful_controller = controller }))
      ]

  unfoldable pub handle_proxy_message : ProxyToProxyMessage E.Object → Proxy → Option Proxy
  handle_proxy_message (request (stateful_request proxy_id requested)) c =
      handle_stateful_request proxy_id requested c
  handle_proxy_message (request (stateless_request proxy_id txn_digest)) c =
      if is_primary_separation c.mode
      then handle_stateless_request proxy_id txn_digest c
      else some c
  handle_proxy_message (reply (stateful_reply objects)) c = handle_stateful_reply objects c
  handle_proxy_message (reply (stateless_reply txn_digest result)) c =
      some (handle_stateless_reply txn_digest result c)

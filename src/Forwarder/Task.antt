-- ===== src/Forwarder/Task.antt =====
-- `process_forwarding_task` and the stateless `process`: from a transaction with its versions to the
-- messages that the proxies get. `none` is a panic.
pub mod Choice
pub mod Delivery
pub mod Separate
use remora.Prelude.{
  true, ℕ, zero, suc, ◌%◌, List, [], ◌∷◌, Option, none, some, Map, get, remove, insert, nat_eq,
  length, Bool, false, if◌then◌else◌, ◌==◌, not,
}
use remora.SequenceNumber.{SequenceNumbers}
use remora.Config.{
  SeparationMode, is_primary_separation, no_separation, proxy_separation, primary_pre_separation,
  primary_post_separation,
}
use remora.Api.{
  TransactionWithTimestamp, digest, StatelessVerificationRequest, request_digest, cost_hint,
  PrimaryToProxyMessage, txn, stateless_txn, combined_txn, RequiredStates,
}
use remora.Versioned.{
  VersionedDependencyController, get_prior_dependency_and_update, remove_dependency,
}
use remora.Forwarder.Context.{
  ForwardingContext, PreConsensusSchedulingPolicy, lsds, rsds, send_to_proxy,
}
use remora.Forwarder.MostStates.{get_proxy_for_shared_objects_most_states}
use remora.Forwarder.Loads.{add_load, pick_stateless_proxy, unwrap_or}
use remora.Forwarder.MissingStates.{get_missing_states_for_transaction}

pub record ForwardingTask : Type 0 where
  pub transaction : TransactionWithTimestamp
  pub required_versions : List (ℕ × ℕ)
  pub counter : ℕ

-- `.unwrap_or(task.counter % proxy_connections.len())`, whose argument is computed in any case.
unfoldable pub or_round_robin : Option (Option ℕ) → ℕ → ℕ → Option ℕ
unfolding unwrap_or
or_round_robin none counter proxies = none
or_round_robin (some chosen) counter proxies =
    if proxies == 0 then none else some (unwrap_or chosen (counter % proxies))

unfoldable pub fallback_proxy : ForwardingContext → ForwardingTask → Option ℕ
unfolding or_round_robin
fallback_proxy c task =
    let proxies = length c.proxy_connections in
    elim c.policy [
      | lsds ↦
          or_round_robin
            (get_proxy_for_shared_objects_most_states proxies c.states_to_proxy
              task.required_versions task.counter)
            task.counter proxies
      | rsds ↦ or_round_robin (some none) task.counter proxies
    ]

abbrev use_fallback : ForwardingContext → ForwardingTask → Option ℕ → Option (ℕ × ForwardingContext)
use_fallback c task none = none
use_fallback c task (some proxy) = some (
  proxy,
  record c {
    proxy_loads = add_load c.proxy_loads proxy task.transaction.expected_stateful_duration;
  },
)

-- The planned proxy, whose entry leaves the plan, or the fallback.
unfoldable pub choose_proxy : ForwardingContext → ForwardingTask → Option (ℕ × ForwardingContext)
choose_proxy c task = elim (get c.pre_consensus_routing_plan (digest task.transaction)) [
  | some proxy ↦ some (
    proxy,
    record c {
      pre_consensus_routing_plan = remove c.pre_consensus_routing_plan (digest task.transaction);
    },
  )
  | none ↦ use_fallback c task (fallback_proxy c task)
]

-- separation_mode == SeparationMode::PrimaryPostSeparation
unfoldable pub is_post : SeparationMode → Bool
is_post no_separation = false
is_post proxy_separation = false
is_post primary_pre_separation = false
is_post primary_post_separation = true

-- The executor's `make_verification_request` is a parameter: the forwarder is generic in it.
module _ (make_verification_request : TransactionWithTimestamp → StatelessVerificationRequest) where
  -- After consensus: the stateless part is sent now, to the least loaded proxy.
  unfoldable pub send_stateless_now :
      ForwardingContext → TransactionWithTimestamp → ℕ × ForwardingContext
  send_stateless_now c t =
      let (proxy, loads) =
        pick_stateless_proxy c.proxy_connections c.proxy_loads t.verification_duration in
      (
        proxy,
        send_to_proxy (record c { proxy_loads = loads }) proxy
            (stateless_txn (make_verification_request t)),
      )

  -- Before consensus: it was sent then, and the table says where.
  unfoldable pub lookup_stateless :
      ForwardingContext → TransactionWithTimestamp → ℕ × ForwardingContext
  unfolding unwrap_or
  lookup_stateless c t = (
    unwrap_or (get c.stateless_forwarding_table (digest t)) 0,
    record c { stateless_forwarding_table = remove c.stateless_forwarding_table (digest t) },
  )

  -- The message for the proxy that executes the transaction.
  unfoldable pub build_message :
      ForwardingContext
      → TransactionWithTimestamp
      → ℕ
      → RequiredStates
      → PrimaryToProxyMessage × ForwardingContext
  build_message c t proxy missing =
      if not (is_primary_separation c.separation_mode)
      then (combined_txn t proxy missing, c)
      else (let (stateless_proxy, c') =
            if is_post c.separation_mode then send_stateless_now c t else lookup_stateless c t in
          (txn t stateless_proxy missing, c'))

  module _ ⦃S : SequenceNumbers⦄ where
    -- Before the wait: the handles to await, and those to signal in the end.
    unfoldable pub register_task :
        ForwardingContext → ForwardingTask → Option ((List ℕ × List ℕ) × ForwardingContext)
    register_task c task = elim task.required_versions [
      | [] ↦ some (([], []), c)
      | k ∷ ks ↦
          elim (get_prior_dependency_and_update 0 task.required_versions false false
            c.dependency_controller) [
              | none ↦ none
              | some (handles, controller) ↦
                  some (handles, record c { dependency_controller = controller })
            ]
    ]

    -- After the wait, the proxy being chosen.
    unfoldable pub forward_to : ForwardingContext → ForwardingTask → ℕ → ForwardingContext
    forward_to c task proxy =
        let (missing, states) =
          get_missing_states_for_transaction (some task.required_versions) proxy
            c.states_to_proxy in
        let (message, c') =
          build_message (record c { states_to_proxy = states }) task.transaction proxy missing in
        send_to_proxy c' proxy message

    abbrev forward_chosen :
        ForwardingTask → Option (ℕ × ForwardingContext) → Option (ℕ × ForwardingContext)
    forward_chosen task none = none
    forward_chosen task (some (proxy, c)) = some (proxy, forward_to c task proxy)

    -- After the wait: the state once the message is sent, with the proxy that was chosen, which the source
    -- does not return, for statements to name it. The source then notifies the handles that
    -- `register_task` gave to signal, which changes nothing of this state.
    unfoldable pub forward_task :
        ForwardingContext → ForwardingTask → Option (ℕ × ForwardingContext)
    forward_task c task = forward_chosen task (
        choose_proxy
          (record c {
            dependency_controller =
                remove_dependency task.required_versions c.dependency_controller;
          })
          task)

-- The stateless worker, before consensus: the request is sent, and then the table is written.
unfoldable pub process_stateless :
    ForwardingContext → StatelessVerificationRequest → ForwardingContext
process_stateless c request =
    let (proxy, loads) =
      pick_stateless_proxy c.proxy_connections c.proxy_loads (cost_hint request) in
    let c' = send_to_proxy (record c { proxy_loads = loads }) proxy (stateless_txn request) in
    record c' {
      stateless_forwarding_table =
          insert c'.stateless_forwarding_table (request_digest request) proxy;
    }

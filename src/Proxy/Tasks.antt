-- ===== src/Proxy/Tasks.antt =====
-- src/proxy/core.rs: the bodies of the tasks that a proxy spawns, cut where they wait. Notified
-- handles and results of channels are in the state; `none` of a test for a result is a wait.
use remora.Prelude.{
  ℕ, List, [], ◌∷◌, ◌++◌, Option, none, some, Bool, true, false, not, ◌&&◌, ◌||◌, map, get, insert,
  nat_eq, ◌==◌, if◌then◌else◌,
}
use remora.Config.{is_proxy_separation}
use remora.SequenceNumber.{SequenceNumbers}
use remora.Api.{
  TransactionWithTimestamp, StatelessVerificationRequest, RequiredStates, NewStates, digest, reply,
  stateful_reply, stateless_reply,
}
use remora.Api.SharedObjects.{sorted_insert}
use remora.Execution.{Executor, ExecutionResults}
use remora.Versioned.{
  VersionedDependencyController, get_prior_dependency_and_update, remove_dependency,
}
use remora.Oneshot.{remove_dependency as remove_result}
use remora.Proxy.{Proxy, send_msg_to_proxy}

-- The versions that a transaction requires, without the proxies that have them.
abbrev pub versions_of : RequiredStates → List (ℕ × ℕ)
versions_of required = map (λ e. e.0) required

-- The handles of a transaction: its objects, what it awaits, what it signals.
pub record Dependencies : Type 0 where
  pub obj_ids : List (ℕ × ℕ)
  pub prior_handles : List ℕ
  pub current_handles : List ℕ

module _ ⦃S : SequenceNumbers⦄ where
  unfoldable pub dependencies_of :
      List (ℕ × ℕ)
      → VersionedDependencyController
      → Option (Dependencies × VersionedDependencyController)
  dependencies_of [] controller =
      some (record { obj_ids = []; prior_handles = []; current_handles = [] }, controller)
  dependencies_of (k ∷ ks) controller =
      elim (get_prior_dependency_and_update 0 (k ∷ ks) false false controller) [
        | none ↦ none
        | some (handles, controller') ↦ some (
          record { obj_ids = k ∷ ks; prior_handles = handles.0; current_handles = handles.1 },
          controller',
        )
      ]

  unfoldable pub get_dependencies :
      RequiredStates
      → VersionedDependencyController
      → Option (Dependencies × VersionedDependencyController)
  get_dependencies required controller = dependencies_of (versions_of required) controller

module _ ⦃E : Executor⦄ where
  -- The body of a verification.
  unfoldable pub run_verification : ℕ → StatelessVerificationRequest → Proxy → Proxy
  run_verification tx req c = record c {
    signals = insert c.signals tx (E.verify_transaction c.context req);
  }

  unfoldable pub assign_required : TransactionWithTimestamp → RequiredStates → Proxy → Proxy
  assign_required t [] c = c
  assign_required t (e ∷ required) c = record c {
    context =
        E.assign_shared_object_versions_with_required_versions c.context t
          (versions_of (e ∷ required));
  }

  -- The body of an execution up to its first wait.
  unfoldable pub start_execution :
      ⦃S : SequenceNumbers⦄
      → TransactionWithTimestamp
      → RequiredStates
      → Proxy
      → Option (Dependencies × Proxy)
  start_execution t required c =
      let c' = assign_required t required c in
      elim (get_dependencies required c'.stateful_controller) [
        | none ↦ none
        | some (dependencies, controller) ↦
            some (dependencies, record c' { stateful_controller = controller })
      ]

  -- Whether the transaction is verified, once its result is there.
  unfoldable pub stateless_verified :
      TransactionWithTimestamp → Option ℕ → Proxy → Option (Bool × Proxy)
  stateless_verified t (some rx) c = elim (get c.signals rx) [
    | none ↦ none
    | some verified ↦ some (
      verified,
      record c { stateless_controller = remove_result (digest t) c.stateless_controller },
    )
  ]
  stateless_verified t none c =
      if is_proxy_separation c.mode
      then some (true, c)
      else some (E.verify_transaction c.context (E.make_verification_request t), c)

  unfoldable pub ready_to_execute : TransactionWithTimestamp → Bool → Proxy → Bool
  ready_to_execute t verified c =
      verified && (not (E.has_shared_input t) || E.pre_execute_check c.context c.store t)

  abbrev pub skipped : TransactionWithTimestamp → ExecutionResults E.Object E.Effects
  skipped t = record { transaction = t; updates = none; new_state = none }

  -- The body of an execution once its prior handles are notified.
  unfoldable pub finish_execution : TransactionWithTimestamp → Bool → Dependencies → Proxy → Proxy
  finish_execution t verified dependencies c =
      let c' = record c {
        stateful_controller = remove_dependency dependencies.obj_ids c.stateful_controller;
      } in
      let (result, store) =
        if ready_to_execute t verified c'
        then E.execute c'.context c'.store t
        else (skipped t, c'.store) in
      record c' {
        store = store;
        notified = c'.notified ++ dependencies.current_handles;
        tx_results = c'.tx_results ++ result ∷ [];
      }

  -- The body of a migration.
  unfoldable pub run_migration : NewStates E.Object → List ℕ → Proxy → Proxy
  run_migration objects current_handles c = record c {
    store = E.commit_new_objects c.store objects;
    notified = c.notified ++ current_handles;
  }

  -- An object joins the reply if it is there at the requested version.
  unfoldable pub matching : Option (Option E.Object) → ℕ → Option E.Object
  matching none seq_num = none
  matching (some none) seq_num = none
  matching (some (some o)) seq_num = if E.version o == seq_num then some o else none

  unfoldable pub read_states : E.Store → List (ℕ × ℕ) → NewStates E.Object → NewStates E.Object
  read_states store [] objects = objects
  read_states store ((oid, seq_num) ∷ requested) objects =
      read_states store requested (elim (matching (E.read_object store oid) seq_num) [
        | none ↦ objects
        | some o ↦ sorted_insert oid o objects
      ])

  -- The body of an answer to a request for states, once its prior handles are notified.
  unfoldable pub answer_states : ℕ → List (ℕ × ℕ) → Proxy → Proxy
  answer_states proxy_id requested c =
      send_msg_to_proxy proxy_id (reply (stateful_reply (read_states c.store requested [])))
        (record c { stateful_controller = remove_dependency requested c.stateful_controller })

  -- The body of an answer to a request for a result, once the result is there.
  unfoldable pub answer_result : ℕ → ℕ → Bool → Proxy → Proxy
  answer_result proxy_id txn_digest result c =
      send_msg_to_proxy proxy_id (reply (stateless_reply txn_digest result))
        (record c { stateless_controller = remove_result txn_digest c.stateless_controller })

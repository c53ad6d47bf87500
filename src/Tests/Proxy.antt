-- ===== src/Tests/Proxy.antt =====
-- A proxy with an executor whose objects are a content with a version, and whose transactions change
-- nothing and verify if their digest is below 100.
use remora.Prelude.{
  inr, ℕ, ◌≡◌, ◌≢◌, refl, List, [], ◌∷◌, Option, none, some, true, false, ltb, Map, get, insert,
  contains, nat_eq, pair_eq, arith, All,
}
use remora.SequenceNumber.{plain_numbers}
use remora.Config.{
  SeparationMode, proxy_separation, primary_post_separation, no_separation, is_proxy_separation,
}
use remora.Api.{
  NewStates, PrimaryToProxyMessage, combined_txn, digest, request_digest, reply, stateful_reply,
}
use remora.Execution.{Executor}
use remora.Versioned.{VersionedDependencyController}
use remora.Versioned.Entry.{IsWellFormed, handle}
use remora.Oneshot.{new_controller as new_results}
use remora.Oneshot.Rendezvous.{Call, local, dependency}
use remora.Forwarder.Context.{ForwardingContext}
use remora.Forwarder.Task.{forward_task}
use remora.Tests.Data.{mint, trade, request_for}
use remora.Tests.Forwarder.{context, context-IsReady, task}
use remora.Proxy.{Proxy, migration, verification, execution}
use remora.Proxy.Primary.{handle_primary_message, stateless_handle}
use remora.Proxy.Peers.{handle_proxy_message, handle_stateless_reply}
use remora.Proxy.Tasks.{ready_to_execute, Dependencies, answer_states, finish_execution}
use remora.Proxy.Migration.{migrate_lem}
use remora.Proxy.Accepts.{forwarded_messages-return}
use remora.Proxy.Results.{remote_result_lem, combined_txn_lem, skipped_then_asked, later}

abbrev commit_all : Map ℕ (ℕ × ℕ) → NewStates (ℕ × ℕ) → Map ℕ (ℕ × ℕ)
commit_all store [] = store
commit_all store ((oid, o) ∷ objects) = commit_all (insert store oid o) objects

abbrev read : Option (ℕ × ℕ) → Option (Option (ℕ × ℕ))
read o = some o

instance abbrev still : Executor
still = record {
  Object = ℕ × ℕ;
  Effects = ℕ;
  Store = Map ℕ (ℕ × ℕ);
  ExecutionContext = ℕ;
  version = λ o. o.1;
  read_object = λ store oid. read (get store oid);
  commit_new_objects = commit_all;
  execute = λ ctx store t.
      (record { transaction = t; updates = some (digest t); new_state = some [] }, store);
  pre_execute_check = λ ctx store t. true;
  assign_shared_object_versions_with_required_versions = λ ctx t required. ctx;
  make_verification_request = request_for;
  verify_transaction = λ ctx request. ltb (request_digest request) 100;
  has_shared_input = λ t. true;
}

-- Object 7 is awaited at version 5.
abbrev waiting_controller : VersionedDependencyController
waiting_controller = record {
  obj_task_map = ((7, 5), some (0, 3)) ∷ [];
  initial_version = 2;
  next_notify = 4;
}

waiting_controller-IsWellFormed : IsWellFormed waiting_controller
unfolding handle get
waiting_controller-IsWellFormed = record {
  filled = λ k e h. ground arith;
  allocated = λ k n h. ground arith;
  distinct = λ j k n h i. ground arith;
  initial = refl;
}

-- A proxy that is connected to proxies 0 and 1, with object 7 at version 5 in its store.
abbrev proxy : ℕ → SeparationMode → Proxy
proxy id mode = record {
  id = id;
  mode = mode;
  context = 0;
  store = (7, (40, 5)) ∷ [];
  stateful_controller = waiting_controller;
  stateless_controller = new_results;
  tx_inter_proxy_replies = 0 ∷ 1 ∷ [];
  sent = [];
  spawned = [];
  notified = [];
  signals = [];
  tx_results = [];
}

migrate_lem_example :
    (asker' : Proxy) × ((answer_states 1 ((7, 5) ∷ []) (proxy 0 no_separation)).sent
      ≡ (1, reply (stateful_reply ((7, (40, 5)) ∷ []))) ∷ [])
    × (handle_proxy_message (reply (stateful_reply ((7, (40, 5)) ∷ []))) (proxy 1 no_separation)
        ≡ some asker')
    × (asker'.spawned ≡ migration ((7, (40, 5)) ∷ []) (3 ∷ []) ∷ [])
unfolding handle get contains
migrate_lem_example =
    migrate_lem (proxy 0 no_separation) (proxy 1 no_separation) 7 4 3 (40, 5)
      waiting_controller-IsWellFormed refl refl refl refl

forwarded_messages-return_example :
    (p : ℕ) × (d : ForwardingContext) × (msgs : List (ℕ × PrimaryToProxyMessage)) × (forward_task
        request_for context task
      ≡ some (p, d))
    × (d.sent ≡ msgs)
    × All (λ m. handle_primary_message m.1 (proxy m.0 primary_post_separation) ≢ none) msgs
unfolding contains get
forwarded_messages-return_example =
    forwarded_messages-return context (λ q. proxy q primary_post_separation) (λ q. refl) (λ q. refl)
      (λ q r a b. inr b) task context-IsReady (λ d q e. ground arith)

combined_txn_lem_example :
    (n : ℕ) × (d : Proxy) × (handle_primary_message
        (combined_txn mint 1 (((7, 5), some 0) ∷ []))
        (proxy 1 proxy_separation)
      ≡ some d)
    × (d.spawned
        ≡ verification n (request_for mint) ∷ execution mint (some n) (((7, 5), some 0) ∷ []) ∷ [])
unfolding get new_results request_digest
combined_txn_lem_example =
    combined_txn_lem mint (proxy 1 proxy_separation) (((7, 5), some 0) ∷ []) refl refl refl
      (λ e. ground arith, tt)

-- A verification of another transaction while the result is on its way.
abbrev another : List Call
another = local 8 ∷ dependency 8 ∷ []

remote_result_lem_example :
    (rx : ℕ) × (d : Proxy) × (stateless_handle 0 mint (proxy 1 primary_post_separation)
      ≡ some (some rx, d))
    × (get (handle_stateless_reply 1 true (later another d)).signals rx ≡ some true)
unfolding is_proxy_separation contains
remote_result_lem_example =
    remote_result_lem 0 mint (proxy 1 primary_post_separation) another true refl (omega arith) refl
      (omega arith)

abbrev waits_for : Dependencies
waits_for = record { obj_ids = (7, 5) ∷ []; prior_handles = 3 ∷ []; current_handles = 4 ∷ [] }

skipped_then_asked_example :
    ((answer_states 0
        ((7, 6) ∷ [])
        (finish_execution trade false waits_for (proxy 1 no_separation))).sent
      ≡ (0, reply (stateful_reply [])) ∷ [])
    × (handle_proxy_message (reply (stateful_reply [])) (proxy 0 no_separation) ≡ none)
unfolding get contains ready_to_execute finish_execution
skipped_then_asked_example =
    skipped_then_asked trade false waits_for (proxy 1 no_separation) (proxy 0 no_separation) 7 6
      refl (λ o found v. ground arith) refl

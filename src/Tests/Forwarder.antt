-- ===== src/Tests/Forwarder.antt =====
-- Routing of transactions with shared objects.
use remora.Prelude.{
  map, false, ℕ, ◌+◌, ◌≡◌, ◌≤◌, refl, List, [], ◌∷◌, ◌++◌, none, some, All, contains, get,
  if◌then◌else◌, ◌==◌, nat_eq, pair_eq, arith, true, Map,
}
use remora.SequenceNumber.{plain_numbers}
use remora.Config.{primary_pre_separation, primary_post_separation}
use remora.Api.{txn, stateless_txn, request_digest, PrimaryToProxyMessage}
use remora.Versioned.{new_controller}
use remora.Versioned.Register.{produced}
use remora.Forwarder.MostStates.{get_proxy_for_shared_objects_most_states}
use remora.Forwarder.MostStates.Best.{HostsMost, most_states_lem}
use remora.Forwarder.Loads.{load_of, pick_stateless_proxy, pick_stateless_proxy_lem}
use remora.Forwarder.MissingStates.{get_missing_states_for_transaction}
use remora.Forwarder.MissingStates.Owners.{
  Asked, next_of, missing_states-asks, missing_states-owners,
}
use remora.Forwarder.Context.{ForwardingContext, lsds}
use remora.Forwarder.Task.{process_stateless, ForwardingTask, forward_task}
use remora.Forwarder.Task.Separate.{pre_separation_lem}
use remora.Forwarder.Task.Choice.{IsReady}
use remora.Forwarder.Task.Delivery.{Delivers, forward_task_lem}
use remora.Tests.Data.{mint, request_for}

-- Object 7 is at proxy 1, object 9 at proxy 0.
abbrev places : Map (ℕ × ℕ) ℕ
places = ((7, 3), 1) ∷ ((9, 4), 0) ∷ []

abbrev needs : List (ℕ × ℕ)
needs = (7, 3) ∷ (9, 4) ∷ []

most_states_lem_example :
    (p : ℕ) × (get_proxy_for_shared_objects_most_states 2 places needs 5 ≡ some (some p))
    × HostsMost 2 places needs 5 p
most_states_lem_example = most_states_lem 2 places needs 5 (omega arith)

-- A tie is broken by the transaction's number.
tie : get_proxy_for_shared_objects_most_states 2 places needs 5 ≡ some (some 1)
unfolding get_proxy_for_shared_objects_most_states get
tie = refl

pick_stateless_proxy_lem_example :
    let (picked, loads') = pick_stateless_proxy (0 ∷ 1 ∷ []) ((0, 40) ∷ []) 200 in
    (contains (0 ∷ 1 ∷ []) picked ≡ true)
    × All (λ r. load_of ((0, 40) ∷ []) picked ≤ load_of ((0, 40) ∷ []) r) (0 ∷ 1 ∷ [])
    × (load_of loads' 1
        ≡ (if picked == 1 then load_of ((0, 40) ∷ []) 1 + 200 else load_of ((0, 40) ∷ []) 1))
pick_stateless_proxy_lem_example = pick_stateless_proxy_lem 0 (1 ∷ []) ((0, 40) ∷ []) 200 1

missing_states-asks_example :
    (map (λ e. e.0) (get_missing_states_for_transaction (some needs) 1 places).0 ≡ needs)
    × All (Asked places 1) (get_missing_states_for_transaction (some needs) 1 places).0
missing_states-asks_example =
    missing_states-asks needs 1 places (((λ e. ground arith), tt), (tt, tt))

missing_states-owners_example :
    get (get_missing_states_for_transaction (some needs) 1 places).1 (9, 5) ≡ (
      if contains (produced (next_of needs) false needs) (9, 5)
      then some 1
      else if contains needs (9, 5)
      then none
      else get places (9, 5))
missing_states-owners_example = missing_states-owners needs 1 places (9, 5)

abbrev pub context : ForwardingContext
context = record {
  proxy_connections = 0 ∷ 1 ∷ [];
  dependency_controller = new_controller;
  pre_consensus_routing_plan = [];
  states_to_proxy = places;
  stateless_forwarding_table = [];
  separation_mode = primary_post_separation;
  policy = lsds;
  proxy_loads = [];
  sent = [];
}

pub context-IsReady : IsReady context
unfolding contains get
context-IsReady = record {
  some_proxy = omega arith;
  dense = λ p lt. ground arith;
  planned = λ d p e. ground arith;
}

abbrev pub task : ForwardingTask
task = record { transaction = mint; required_versions = needs; counter = 5 }

forward_task_lem_example :
    (p : ℕ) × (d : ForwardingContext) × (msgs : List (ℕ × PrimaryToProxyMessage)) × (forward_task
        request_for context task
      ≡ some (p, d))
    × (contains context.proxy_connections p ≡ true)
    × (d.sent ≡ context.sent ++ msgs)
    × Delivers request_for primary_post_separation
        (0 ∷ 1 ∷ [])
        []
        mint
        p
        (get_missing_states_for_transaction (some needs) p places).0
        msgs
forward_task_lem_example =
    forward_task_lem request_for context task primary_post_separation refl context-IsReady

abbrev early : ForwardingContext
early = record context { separation_mode = primary_pre_separation }

early-IsReady : IsReady early
early-IsReady = record {
  some_proxy = context-IsReady.some_proxy;
  dense = context-IsReady.dense;
  planned = context-IsReady.planned;
}

pre_separation_lem_example :
    (p q : ℕ) × (d : ForwardingContext) × (forward_task request_for
        (process_stateless early (request_for mint))
        task
      ≡ some (p, d))
    × (contains early.proxy_connections p ≡ true)
    × (contains early.proxy_connections q ≡ true)
    × (d.sent
        ≡ ((q, stateless_txn (request_for mint)) ∷ [])
          ++ (p, txn mint q (get_missing_states_for_transaction (some needs) p places).0) ∷ [])
unfolding request_digest
pre_separation_lem_example =
    pre_separation_lem request_for early (request_for mint) task refl early-IsReady refl

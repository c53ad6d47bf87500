-- ===== src/Schedule/Batch.antt =====
-- src/primary/shared_obj_txn_forwarder.rs, `PreConsensusSchedTask`: the planning of a batch.
pub mod Routes
pub mod Assign
pub mod Together
pub mod Planned
pub mod Outcome
pub mod Sharing
use remora.Prelude.{
  ◌>>=◌, suc, ℕ, zero, List, [], ◌∷◌, Option, none, some, map, length, Map, get, insert, nat_eq,
  ◌+◌,
}
use remora.Api.{TransactionWithTimestamp}
use remora.Schedule.Graph.{DiGraph, build_dependency_graph}
use remora.Schedule.Search.{find_all_subgraphs, range}
use remora.Schedule.External.{External}
use remora.Schedule.Scores.{add_at, zeros, best_candidates, choose}
use remora.Schedule.Policy.{
  PreConsensusSchedTask, num_proxies, route, collect_objects, collect_digests, total_weight,
  to_tx_map, current_load, sort_by_len, large, locality_scores, note_objects,
}

-- The proxy of a subgraph, with its digests and its objects.
pub record Assignment : Type 0 where
  pub proxy_id : ℕ
  pub subgraph_digests : List ℕ
  pub subgraph_objects : List ℕ

module _ ⦃E : External⦄ where
  abbrev pub Sched : Type 0
  Sched = PreConsensusSchedTask E.Seed

  unfoldable pub update_state_for_sds :
      Map ℕ TransactionWithTimestamp → Sched → Assignment → Option Sched
  unfolding total_weight
  update_state_for_sds tx_map s a = do
    last ← note_objects s.object_last_proxy a.proxy_id a.subgraph_objects
    some (record s {
      proxy_loads =
          insert s.proxy_loads a.proxy_id
            (current_load s.proxy_loads a.proxy_id + total_weight tx_map a.subgraph_digests);
      object_last_proxy = last;
    })

  -- The sequential updates, with the distribution that is counted for the log.
  unfoldable pub update_all :
      Map ℕ TransactionWithTimestamp → Sched → List ℕ → List Assignment → Option Sched
  update_all tx_map s proxy_load_distribution [] = some s
  update_all tx_map s proxy_load_distribution (a ∷ as') = do
    s' ← update_state_for_sds tx_map s a
    distribution ← add_at proxy_load_distribution a.proxy_id (length a.subgraph_digests)
    update_all tx_map s' distribution as'

module _ ⦃D : DiGraph⦄ ⦃E : External⦄ where
  unfoldable pub assign_large_subgraph_proxy :
      D.Graph → Map ℕ TransactionWithTimestamp → Sched → List ℕ → Option (Assignment × Sched)
  unfolding collect_objects current_load zeros
  assign_large_subgraph_proxy graph tx_map s subgraph_nodes = do
    subgraph_digests ← collect_digests graph subgraph_nodes
    let subgraph_objects = collect_objects tx_map subgraph_digests
    scores ← locality_scores s.object_last_proxy (zeros (num_proxies s)) subgraph_objects
    let load_scores = map (current_load s.proxy_loads) (range 0 (num_proxies s))
    (best_proxy, seed) ← choose s.seed (best_candidates scores load_scores)
    some (
      record {
        proxy_id = best_proxy;
        subgraph_digests = subgraph_digests;
        subgraph_objects = subgraph_objects;
      },
      record s {
        pre_consensus_routing_plan = route s.pre_consensus_routing_plan subgraph_digests best_proxy;
        seed = seed;
      },
    )

  unfoldable pub assign_all :
      D.Graph
      → Map ℕ TransactionWithTimestamp
      → Sched
      → List (List ℕ)
      → Option (List Assignment × Sched)
  assign_all graph tx_map s [] = some ([], s)
  assign_all graph tx_map s (subgraph ∷ subgraphs) = do
    (a, s') ← assign_large_subgraph_proxy graph tx_map s subgraph
    (as', s'') ← assign_all graph tx_map s' subgraphs
    some (a ∷ as', s'')

  unfoldable pub handle_large_subgraphs :
      D.Graph → Map ℕ TransactionWithTimestamp → Sched → List (List ℕ) → Option Sched
  unfolding zeros
  handle_large_subgraphs graph tx_map s large_subgraphs = do
    (assignments, s') ← assign_all graph tx_map s large_subgraphs
    update_all tx_map s' (zeros (num_proxies s')) assignments

  -- With no large subgraph, `handle_large_subgraphs` is not called, and has nothing to do.
  unfoldable pub apply_sds_policy : D.Graph → Sched → List TransactionWithTimestamp → Option Sched
  unfolding to_tx_map sort_by_len large
  apply_sds_policy graph s transactions = do
    subgraphs ← find_all_subgraphs graph
    elim (large (sort_by_len subgraphs)) [
      | [] ↦ some s
      | c ∷ cs ↦ handle_large_subgraphs graph (to_tx_map transactions []) s (c ∷ cs)
    ]

  unfoldable pub schedule_transaction_batch : Sched → List TransactionWithTimestamp → Option Sched
  unfolding build_dependency_graph
  schedule_transaction_batch s transactions = elim (num_proxies s) [
    | zero ↦ some s
    | suc n ↦ apply_sds_policy (build_dependency_graph transactions).0 s transactions
  ]

  -- The `while let` loop over the batches that come.
  unfoldable pub process_pre_consensus_txns :
      Sched → List (List TransactionWithTimestamp) → Option Sched
  process_pre_consensus_txns s [] = some s
  process_pre_consensus_txns s (transactions ∷ batches) = do
    s' ← schedule_transaction_batch s transactions
    process_pre_consensus_txns s' batches

-- `new`: nothing is planned, and no object has a proxy.
unfoldable pub new_sched : {Seed : Type 0} → List ℕ → Seed → PreConsensusSchedTask Seed
new_sched proxy_connections seed = record {
  proxy_connections = proxy_connections;
  pre_consensus_routing_plan = [];
  proxy_loads = [];
  object_last_proxy = [];
  seed = seed;
}

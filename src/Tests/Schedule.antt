-- ===== src/Tests/Schedule.antt =====
-- A graph by its lists of digests and edges, and a plan for three transactions.
use remora.Prelude.{
  count, concat, insert, subst, ap, ℕ, zero, suc, ◌+◌, ◌<◌, ◌≡◌, refl, List, [], ◌∷◌, ◌++◌, true,
  some, arith, length, All, get_elem?, get, contains, nat_eq, ◌==◌, ◌*◌, ◌-◌, ◌/◌, ◌%◌, ◌^◌, ==_iff,
  sym, ◌∙◌, get_elem?-returns, if◌then◌else◌, ltb, get_elem?-append, get_elem?-last, length-append,
}
use remora.Api.{TransactionWithTimestamp, digest}
use remora.Schedule.Graph.{
  add_transactions, add_transaction, access_all, access, DiGraph, DiGraphLaws,
  build_dependency_graph,
}
use remora.Schedule.External.{External, ExternalLaws}
use remora.Schedule.Search.{search, visit, push_new, search_from, find_all_subgraphs}
use remora.Schedule.Batch.{Sched, schedule_transaction_batch, process_pre_consensus_txns}
use remora.Schedule.Batch.Planned.{IsInRange}
use remora.Schedule.Batch.Outcome.{process-IsInRange, IsPlannable, schedule-IsInRange}
use remora.Schedule.Conflicts.{Chain, start, share, IsGroup, subgraphs-IsGroup, subgraphs_return}
use remora.Schedule.Graph.Edges.{Shares}
use remora.Versions.Laws.{touches}
use remora.Schedule.Policy.{num_proxies, object_id_24bit_index}
use remora.Schedule.Index.{IsIndex, object_id_24bit_index-bound}
use remora.Schedule.Batch.Together.{Together}
use remora.Schedule.Batch.Sharing.{schedule-Together, schedule-alone}
use remora.Tests.Data.{mint, trade, over, request_for}
use remora.Tests.Forwarder.{context}
use remora.Forwarder.Context.{ForwardingContext}
use remora.Forwarder.Task.{ForwardingTask}
use remora.SequenceNumber.{plain_numbers}
use remora.Planning.{Forwards, IsDense, planned_together}
use remora.Config.{primary_post_separation}

record EdgeList : Type 0 where
  digests : List ℕ
  edges : List (ℕ × ℕ)

abbrev adjacent : List (ℕ × ℕ) → ℕ → List ℕ
adjacent [] u = []
adjacent ((a, b) ∷ edges) u =
    let rest = adjacent edges u in
    let back = if b == u then a ∷ rest else rest in if a == u then b ∷ back else back

instance abbrev edge_list : DiGraph
edge_list = record {
  Graph = EdgeList;
  new = record { digests = []; edges = [] };
  node_count = λ g. length g.digests;
  weight = λ g. get_elem? g.digests;
  neighbors_undirected = λ g. adjacent g.edges;
  add_node = λ g w. record { digests = g.digests ++ w ∷ []; edges = g.edges };
  add_edge = λ g a b. record { digests = g.digests; edges = (a, b) ∷ g.edges };
}

edge_list_laws : DiGraphLaws edge_list
unfolding contains
edge_list_laws = record {
  node_count-new = refl;
  node_count-add_node = λ g w. omega (arith, length-append g.digests (w ∷ []));
  node_count-add_edge = λ g a b. refl;
  weight-new_node = λ g w. get_elem?-last g.digests w;
  weight-old_node = λ g w i h.
      let (x, e) = get_elem?-returns g.digests i h in
      get_elem?-append g.digests (w ∷ []) i x e ∙ sym e;
  weight-add_edge = λ g a b i. refl;
  neighbors-new = λ u v. refl;
  neighbors-add_node = λ g w u v. refl;
  neighbors-add_edge = λ g a b u v ha hb. ground (
    arith,
    ==_iff a u,
    ==_iff u a,
    ==_iff b u,
    ==_iff u b,
    ==_iff a v,
    ==_iff v a,
    ==_iff b v,
    ==_iff v b,
  );
}

-- Scores are counted in tenths; the random numbers are 0; an id is its first byte.
instance abbrev tenths : External
tenths = record {
  Float = ℕ;
  of_usize = λ n. n * 100;
  zero_f = 0;
  one_f = 10;
  half = 5;
  epsilon = 1;
  add = λ a b. a + b;
  sub = λ a b. a - b;
  mul = λ a b. a * b;
  div = λ a b. a * 10 / b;
  max_f = λ a b. if ltb a b then b else a;
  abs = λ a. a;
  lt_f = ltb;
  Seed = ℕ;
  usize = λ seed n. (0, suc seed);
  byte = λ id i. elim i [ zero ↦ id % 2 ^ 8 | suc _ ↦ 0 ];
}

first_byte_lt : (id i : ℕ) → tenths.byte id i < 2 ^ 8
first_byte_lt id zero = omega arith
first_byte_lt id (suc i) = omega arith

tenths_laws : ExternalLaws tenths
tenths_laws = record { usize_lt = λ seed n h. h; byte_lt = first_byte_lt }

-- Three transactions, of which the first and the third share object 7, and the second is alone; and two
-- proxies, of which the second had object 7 last.
abbrev lone : TransactionWithTimestamp
lone = over 4 (12 ∷ [])

abbrev batch : List TransactionWithTimestamp
batch = mint ∷ lone ∷ trade ∷ []

abbrev task : Sched
task = record {
  proxy_connections = 0 ∷ 1 ∷ [];
  pre_consensus_routing_plan = (4, 0) ∷ [];
  proxy_loads = (0, 5) ∷ [];
  object_last_proxy = (6, 1) ∷ [];
  seed = 0;
}

groups : find_all_subgraphs (build_dependency_graph batch).0 ≡ some ((0 ∷ 2 ∷ []) ∷ (1 ∷ []) ∷ [])
unfolding find_all_subgraphs search_from search visit push_new build_dependency_graph
    add_transactions add_transaction access_all access get insert contains
groups = refl

task-IsInRange : IsInRange task
unfolding get
task-IsInRange = record { last = λ k p e. ground arith; plan = λ k p e. ground arith }

abbrev position : ℕ → ℕ
position d = if d == 1 then 0 else if d == 4 then 1 else 2

batch-position :
    (i : ℕ) (t : TransactionWithTimestamp) → get_elem? batch i ≡ some t → i ≡ position (digest t)
batch-position zero t h = ground arith
batch-position (suc zero) t h = ground arith
batch-position (suc (suc zero)) t h = ground arith
batch-position (suc (suc (suc i))) t h = absurd (ground arith)

batch-IsPlannable : IsPlannable batch
batch-IsPlannable = record {
  distinct =
      λ i j t u ei ej same. batch-position i t ei ∙ ap position same ∙ sym (batch-position j u ej);
  valid = (
    (omega arith, (omega arith, tt)),
    ((omega arith, tt), ((omega arith, (omega arith, tt)), tt)),
  );
}

chain : Chain batch 0 2
unfolding contains
chain = share start (7, (mint, refl, refl), (trade, refl, refl))

schedule-Together_example :
    (s' : Sched) × (schedule_transaction_batch task batch ≡ some s')
    × Together (num_proxies s') s'.pre_consensus_routing_plan 1 3
schedule-Together_example =
    schedule-Together edge_list_laws tenths_laws task batch 0 2 mint trade task-IsInRange
      batch-IsPlannable (omega arith) refl refl (λ e. absurd (omega (arith, e))) chain

touches_at :
    (k o : ℕ) (t u : TransactionWithTimestamp)
    → get_elem? batch k ≡ some t
    → get_elem? batch k ≡ some u
    → touches t o ≡ true
    → touches u o ≡ true
touches_at k o t u et eu m =
    let same : t ≡ u = ground arith in subst (λ x. touches x o ≡ true) same m

not_shared : (k : ℕ) → Shares batch 1 k → k ≡ 1
unfolding contains
not_shared zero (o, (t, et, mt), (u, eu, mu)) =
    absurd (ground (arith, touches_at 1 o t lone et refl mt, touches_at 0 o u mint eu refl mu))
not_shared (suc zero) h = refl
not_shared (suc (suc zero)) (o, (t, et, mt), (u, eu, mu)) =
    absurd (ground (arith, touches_at 1 o t lone et refl mt, touches_at 2 o u trade eu refl mu))
not_shared (suc (suc (suc k))) (o, (t, et, mt), (u, eu, mu)) = absurd (ground arith)

schedule-alone_example :
    (s' : Sched) × (schedule_transaction_batch task batch ≡ some s')
    × (get s'.pre_consensus_routing_plan 4 ≡ some 0)
unfolding get
schedule-alone_example =
    schedule-alone edge_list_laws tenths_laws task batch 1 lone task-IsInRange batch-IsPlannable
      (omega arith) refl not_shared

process-IsInRange_example :
    (s' : Sched) × (process_pre_consensus_txns task (batch ∷ batch ∷ []) ≡ some s')
    × IsInRange s'
    × (s'.proxy_connections ≡ 0 ∷ 1 ∷ [])
process-IsInRange_example =
    process-IsInRange edge_list_laws tenths_laws task (batch ∷ batch ∷ []) task-IsInRange
      (batch-IsPlannable, (batch-IsPlannable, tt))

object_id_24bit_index-bound_example : IsIndex tenths_laws 7 (object_id_24bit_index 7)
object_id_24bit_index-bound_example = object_id_24bit_index-bound tenths_laws 7

subgraphs-IsGroup_example : All (IsGroup edge_list_laws batch) ((0 ∷ 2 ∷ []) ∷ (1 ∷ []) ∷ [])
subgraphs-IsGroup_example =
    subgraphs-IsGroup edge_list_laws batch ((0 ∷ 2 ∷ []) ∷ (1 ∷ []) ∷ []) groups

subgraphs_return_example :
    (subgraphs : List (List ℕ)) × (find_all_subgraphs (build_dependency_graph batch).0
      ≡ some subgraphs)
    × ((i : ℕ) → i < 3 → count (concat subgraphs) i ≡ 1)
subgraphs_return_example = subgraphs_return edge_list_laws batch

abbrev task_mint : ForwardingTask
task_mint = record { transaction = mint; required_versions = (7, 3) ∷ (9, 4) ∷ []; counter = 5 }

abbrev task_trade : ForwardingTask
task_trade = record { transaction = trade; required_versions = (7, 4) ∷ (9, 5) ∷ []; counter = 6 }

planned :
    (s' : Sched) × (schedule_transaction_batch task batch ≡ some s')
    × IsInRange s'
    × (s'.proxy_connections ≡ 0 ∷ 1 ∷ [])
planned = schedule-IsInRange edge_list_laws tenths_laws task batch task-IsInRange batch-IsPlannable

abbrev under_plan : ForwardingContext
under_plan = record context { pre_consensus_routing_plan = planned.0.pre_consensus_routing_plan }

under_plan-proxies : under_plan.proxy_connections ≡ planned.0.proxy_connections
under_plan-proxies = sym planned.3

two_proxies : IsDense (0 ∷ 1 ∷ [])
unfolding contains
two_proxies p lt = ground arith

planned_together_example :
    (p : ℕ) × (d e : ForwardingContext) × Forwards request_for primary_post_separation under_plan
      task_mint p d
    × Forwards request_for primary_post_separation d task_trade p e
planned_together_example =
    planned_together request_for edge_list_laws tenths_laws task batch 0 2 under_plan task_mint
      task_trade planned.0 primary_post_separation task-IsInRange batch-IsPlannable (omega arith)
      refl refl (λ e. absurd (omega (arith, e))) chain planned.1 refl under_plan-proxies two_proxies
      refl

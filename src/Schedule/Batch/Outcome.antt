-- ===== src/Schedule/Batch/Outcome.antt =====
-- What the planning of a batch comes to.
use remora.Prelude.{
  List-cases, ℕ, ◌<◌, ◌≡◌, refl, List, [], ◌∷◌, some, arith, length, All, get_elem?, nat_eq, ap,
  subst, sym, ◌∙◌, inl, inr,
}
use remora.Api.{TransactionWithTimestamp, digest}
use remora.Schedule.Graph.{DiGraph, DiGraphLaws, build_dependency_graph}
use remora.Schedule.Graph.Connected.{build-Covers}
use remora.Schedule.Search.{find_all_subgraphs}
use remora.Schedule.Conflicts.{build-find_all_subgraphs, subgraphs-inside}
use remora.Schedule.External.{External, ExternalLaws}
use remora.Schedule.Policy.{num_proxies, to_tx_map, sort_by_len, large}
use remora.Schedule.Choice.{Below}
use remora.Schedule.Batch.{
  Assignment, Sched, apply_sds_policy, handle_large_subgraphs, schedule_transaction_batch,
  process_pre_consensus_txns,
}
use remora.Schedule.Batch.Routes.{IsBatch, All-large, All-sort_by_len}
use remora.Schedule.Batch.Assign.{HasIndices, AssignsAll, done}
use remora.Schedule.Batch.Together.{AssignsAll-range}
use remora.Schedule.Batch.Planned.{IsInRange, handle_large-returns}

-- No two transactions of a batch have the same digest.
abbrev pub HasDistinctDigests : List TransactionWithTimestamp → Type 0
HasDistinctDigests txs =
    (i j : ℕ) (t u : TransactionWithTimestamp)
    → get_elem? txs i ≡ some t
    → get_elem? txs j ≡ some u
    → digest t ≡ digest u
    → i ≡ j

-- A batch with distinct digests, whose objects have an index.
pub record IsPlannable ⦃E : External⦄ (txs : List TransactionWithTimestamp) : Type 0 where
  pub distinct : HasDistinctDigests txs
  pub valid : HasIndices txs

-- A batch is planned by an assignment of its large subgraphs, and updates that keep the plan.
pub record Schedules ⦃D : DiGraph⦄ ⦃E : External⦄ (s : Sched) (txs : List TransactionWithTimestamp)
    (s' : Sched) : Type 0 where
  pub subgraphs : List (List ℕ)
  pub found : find_all_subgraphs (build_dependency_graph txs).0 ≡ some subgraphs
  pub assignments : List Assignment
  pub between : Sched
  pub all :
      AssignsAll
        (build_dependency_graph txs).0
        s
        (large (sort_by_len subgraphs))
        assignments
        between
  pub proxies : s'.proxy_connections ≡ s.proxy_connections
  pub plan : s'.pre_consensus_routing_plan ≡ between.pre_consensus_routing_plan
  pub last : Below (num_proxies s) s'.object_last_proxy

module _ ⦃D : DiGraph⦄ ⦃E : External⦄ (graphs : DiGraphLaws D) (laws : ExternalLaws E) where
  pub build-IsBatch :
      (txs : List TransactionWithTimestamp)
      → HasDistinctDigests txs
      → IsBatch (build_dependency_graph txs).0 txs
  unfolding build_dependency_graph
  build-IsBatch txs h = record { weights = (build-Covers graphs txs).digests; distinct = h }

  pub large-inside :
      (txs : List TransactionWithTimestamp) (subgraphs : List (List ℕ))
      → find_all_subgraphs (build_dependency_graph txs).0 ≡ some subgraphs
      → All (λ nodes. All (λ i. i < length txs) nodes) (large (sort_by_len subgraphs))
  large-inside txs subgraphs found =
      All-large (λ nodes. All (λ i. i < length txs) nodes) (sort_by_len subgraphs)
        (All-sort_by_len (λ nodes. All (λ i. i < length txs) nodes) subgraphs
          (subgraphs-inside graphs txs subgraphs found))

  -- Where there is a proxy, the policy is applied.
  schedule-apply :
      (s : Sched) (txs : List TransactionWithTimestamp)
      → 0 < num_proxies s
      → schedule_transaction_batch s txs ≡ apply_sds_policy (build_dependency_graph txs).0 s txs
  unfolding schedule_transaction_batch
  schedule-apply s txs h = ground arith

  policy-none :
      (s : Sched) (txs : List TransactionWithTimestamp) (subgraphs : List (List ℕ))
      → find_all_subgraphs (build_dependency_graph txs).0 ≡ some subgraphs
      → large (sort_by_len subgraphs) ≡ []
      → apply_sds_policy (build_dependency_graph txs).0 s txs ≡ some s
  unfolding apply_sds_policy
  policy-none s txs subgraphs found empty = ground arith

  policy-some :
      (s : Sched) (txs : List TransactionWithTimestamp) (subgraphs : List (List ℕ)) (c : List ℕ)
      (cs : List (List ℕ))
      → find_all_subgraphs (build_dependency_graph txs).0 ≡ some subgraphs
      → large (sort_by_len subgraphs) ≡ c ∷ cs
      → apply_sds_policy (build_dependency_graph txs).0 s txs
        ≡ handle_large_subgraphs (build_dependency_graph txs).0 (to_tx_map txs []) s (c ∷ cs)
  unfolding apply_sds_policy
  policy-some s txs subgraphs c cs found e = ground arith

  pub schedule-Schedules :
      (s : Sched) (txs : List TransactionWithTimestamp)
      → IsInRange s
      → IsPlannable txs
      → 0 < num_proxies s
      → (s' : Sched) × (schedule_transaction_batch s txs ≡ some s') × Schedules s txs s'
  schedule-Schedules s txs range plannable some_proxy =
      let (subgraphs, found) = build-find_all_subgraphs graphs txs in
      let g = (build_dependency_graph txs).0 in
      elim (List-cases (large (sort_by_len subgraphs))) [
        | inl empty ↦ (
          s,
          schedule-apply s txs some_proxy ∙ policy-none s txs subgraphs found empty,
          record {
            subgraphs = subgraphs;
            found = found;
            assignments = [];
            between = s;
            all = subst (λ l. AssignsAll g s l [] s) (sym empty) done;
            proxies = refl;
            plan = refl;
            last = range.last;
          },
        )
        | inr (c, cs, e) ↦
            let inside =
              subst (All (λ nodes. All (λ i. i < length txs) nodes)) e
                (large-inside txs subgraphs found) in
            let (s', handled, (assignments, between, all, proxies, plan, last)) =
              handle_large-returns laws s txs (c ∷ cs) (build-IsBatch txs plannable.distinct)
                some_proxy range plannable.valid inside in
            (
              s',
              schedule-apply s txs some_proxy ∙ policy-some s txs subgraphs c cs found e ∙ handled,
              record {
                subgraphs = subgraphs;
                found = found;
                assignments = assignments;
                between = between;
                all = subst (λ l. AssignsAll g s l assignments between) (sym e) all;
                proxies = proxies;
                plan = plan;
                last = last;
              },
            )
      ]

  -- A batch is planned without a panic when its digests are distinct and its objects have an index: what
  -- is recorded then names proxies that there are.
  pub schedule-IsInRange :
      (s : Sched) (txs : List TransactionWithTimestamp)
      → IsInRange s
      → IsPlannable txs
      → (s' : Sched) × (schedule_transaction_batch s txs ≡ some s')
        × IsInRange s'
        × (s'.proxy_connections ≡ s.proxy_connections)
  unfolding schedule_transaction_batch
  schedule-IsInRange s txs range plannable = elim (List-cases s.proxy_connections) [
    | inl none_left ↦ (s, ground arith, range, refl)
    | inr (p, ps, e) ↦
        let (s', returns, planned) =
          schedule-Schedules s txs range plannable (omega (arith, ap length e)) in
        let n = ap length planned.proxies in
        let batch = build-IsBatch txs plannable.distinct in
        let (_, _, _, below) =
          AssignsAll-range (build_dependency_graph txs).0 txs batch planned.all in
        (
          s',
          returns,
          record {
            last = subst (λ k. Below k s'.object_last_proxy) (sym n) planned.last;
            plan =
                subst (λ k. Below k s'.pre_consensus_routing_plan) (sym n)
                  (subst (Below (num_proxies s)) (sym planned.plan) (below range.plan));
          },
          planned.proxies,
        )
  ]

  -- From records in range, every run over batches with distinct digests and objects that have an index
  -- returns without a panic, with the same proxies and records in range.
  pub process-IsInRange :
      (s : Sched) (batches : List (List TransactionWithTimestamp))
      → IsInRange s
      → All IsPlannable batches
      → (s' : Sched) × (process_pre_consensus_txns s batches ≡ some s')
        × IsInRange s'
        × (s'.proxy_connections ≡ s.proxy_connections)
  unfolding process_pre_consensus_txns
  process-IsInRange s [] range plannable = (s, refl, range, refl)
  process-IsInRange s (txs ∷ batches) range plannable =
      let (s1, first, range1, same1) = schedule-IsInRange s txs range plannable.0 in
      let (s2, later, range2, same2) = process-IsInRange s1 batches range1 plannable.1 in
      (s2, rw (first, process_pre_consensus_txns) later, range2, same2 ∙ same1)

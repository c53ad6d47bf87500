-- ===== src/Schedule/Batch/Sharing.antt =====
-- Which transactions of a batch are planned together, and which are not planned.
use remora.Prelude.{
  count-append, count, contains-count, contains-append, ◌≤◌, ltb, ==_iff, ℕ, ◌<◌, ◌≡◌, ◌≢◌, refl,
  List, [], ◌∷◌, true, false, some, arith, length, All, get_elem?, get, contains, nat_eq, concat,
  ap, subst, sym, ◌∙◌, inl, get_elem?-lt, All-map,
}
use remora.Api.{TransactionWithTimestamp, digest}
use remora.Schedule.Graph.{DiGraph, DiGraphLaws, build_dependency_graph}
use remora.Schedule.Graph.Edges.{Shares}
use remora.Schedule.Search.{find_all_subgraphs}
use remora.Schedule.Conflicts.{
  Chain, Chain-back, IsGroup, start, share, subgraphs-IsGroup, subgraphs-once,
}
use remora.Schedule.External.{External, ExternalLaws}
use remora.Schedule.Policy.{num_proxies, sort_by_len, large}
use remora.Schedule.Batch.{Sched, schedule_transaction_batch}
use remora.Schedule.Batch.Routes.{All-large, All-sort_by_len, contains-large, contains-sort_by_len}
use remora.Schedule.Batch.Together.{
  Together, AssignsAll-Together, AssignsAll-keeps, AssignsAll-range,
}
use remora.Schedule.Batch.Planned.{IsInRange}
use remora.Schedule.Batch.Outcome.{IsPlannable, schedule-Schedules, build-IsBatch, large-inside}

module _ ⦃D : DiGraph⦄ ⦃E : External⦄ (graphs : DiGraphLaws D) (laws : ExternalLaws E) where
  IsGroup-same :
      (txs : List TransactionWithTimestamp) (nodes : List ℕ) (i j : ℕ)
      → IsGroup graphs txs nodes
      → Chain txs i j
      → contains nodes i ≡ contains nodes j
  IsGroup-same txs nodes i j k chain =
      let forth : contains nodes i ≡ true → contains nodes j ≡ true = λ m. k.together i j m chain in
      let back : contains nodes j ≡ true → contains nodes i ≡ true =
        λ m. k.together j i m (Chain-back chain) in
      ground arith

  in_subgraphs :
      (txs : List TransactionWithTimestamp) (subgraphs : List (List ℕ)) (i : ℕ)
      (t : TransactionWithTimestamp)
      → find_all_subgraphs (build_dependency_graph txs).0 ≡ some subgraphs
      → get_elem? txs i ≡ some t
      → contains (concat subgraphs) i ≡ true
  in_subgraphs txs subgraphs i t found e = ground (
    arith,
    contains-count (concat subgraphs) i,
    subgraphs-once graphs txs subgraphs i found (get_elem?-lt txs i t e),
  )

  -- With a proxy connected, records in range, distinct digests and objects that have an index, a batch is
  -- planned, and two of its transactions that a chain of shared objects connects are then planned for
  -- one proxy that there is.
  pub schedule-Together :
      (s : Sched) (txs : List TransactionWithTimestamp) (i j : ℕ) (t u : TransactionWithTimestamp)
      → IsInRange s
      → IsPlannable txs
      → 0 < num_proxies s
      → get_elem? txs i ≡ some t
      → get_elem? txs j ≡ some u
      → i ≢ j
      → Chain txs i j
      → (s' : Sched) × (schedule_transaction_batch s txs ≡ some s')
        × Together (num_proxies s') s'.pre_consensus_routing_plan (digest t) (digest u)
  schedule-Together s txs i j t u range plannable some_proxy ei ej apart chain =
      let (s', returns, planned) =
        schedule-Schedules graphs laws s txs range plannable some_proxy in
      let g = (build_dependency_graph txs).0 in
      let batch = build-IsBatch graphs laws txs plannable.distinct in
      let subgraphs = planned.subgraphs in
      let same : All (λ nodes. contains nodes i ≡ contains nodes j) subgraphs =
        All-map (λ nodes k. IsGroup-same txs nodes i j k chain) subgraphs
          (subgraphs-IsGroup graphs txs subgraphs planned.found) in
      let member : contains (concat (large (sort_by_len subgraphs))) i ≡ true =
        contains-large (sort_by_len subgraphs) i j apart
          (All-sort_by_len (λ nodes. contains nodes i ≡ contains nodes j) subgraphs same)
          (contains-sort_by_len subgraphs i ∙ in_subgraphs txs subgraphs i t planned.found ei) in
      let together =
        AssignsAll-Together g txs batch i j t u ei ej
          (large-inside graphs laws txs subgraphs planned.found)
          (All-large (λ nodes. contains nodes i ≡ contains nodes j) (sort_by_len subgraphs)
            (All-sort_by_len (λ nodes. contains nodes i ≡ contains nodes j) subgraphs same))
          planned.all (inl member) in
      (
        s',
        returns,
        subst (λ plan. Together (num_proxies s') plan (digest t) (digest u)) (sym planned.plan)
            (subst
              (λ n. Together n planned.between.pre_consensus_routing_plan (digest t) (digest u))
              (ap length ((AssignsAll-range g txs batch planned.all).0 ∙ sym planned.proxies))
              together),
      )

  -- A node that no other is chained to is alone in its subgraph.
  alone :
      (txs : List TransactionWithTimestamp) (i j : ℕ)
      → ((k : ℕ) → Shares txs i k → k ≡ i)
      → Chain txs i j
      → j ≡ i
  alone txs i j h start = refl
  alone txs i k h (share {j} c s) = h k (subst (λ m. Shares txs m k) (alone txs i j h c) s)

  all_same :
      (nodes : List ℕ) (i : ℕ)
      → ((w : ℕ) → contains nodes w ≡ true → w ≡ i)
      → length nodes ≡ count nodes i
  unfolding contains
  all_same [] i h = refl
  all_same (x ∷ nodes) i h = ground (
    arith,
    h x (ground (arith, ==_iff x x)),
    ==_iff x i,
    all_same nodes i (λ w m. h w (ground arith)),
  )

  not-large :
      (cs : List (List ℕ)) (i : ℕ)
      → All (λ nodes. contains nodes i ≡ true → ltb (length nodes) 2 ≡ true) cs
      → contains (concat (large cs)) i ≡ false
  unfolding large contains
  not-large [] i h = refl
  not-large (c ∷ cs) i h =
      ground (arith, h.0, not-large cs i h.1, contains-append c (concat (large cs)) i)

  count-concat :
      (cs : List (List ℕ)) (i : ℕ) → All (λ nodes. count nodes i ≤ count (concat cs) i) cs
  count-concat [] i = tt
  count-concat (c ∷ cs) i = (
    omega (arith, count-append c (concat cs) i),
    All-map (λ nodes k. omega (arith, k, count-append c (concat cs) i)) cs (count-concat cs i),
  )

  All-both {κ ι} :
      (P : List ℕ → Type κ) (Q : List ℕ → Type ι) (cs : List (List ℕ))
      → All P cs
      → All Q cs
      → All (λ c. P c × Q c) cs
  All-both P Q [] hp hq = tt
  All-both P Q (c ∷ cs) hp hq = ((hp.0, hq.0), All-both P Q cs hp.1 hq.1)

  -- With a proxy connected, records in range, distinct digests and objects that have an index, a batch is
  -- planned, and a transaction that shares no object with another of the batch keeps the plan that it had.
  pub schedule-alone :
      (s : Sched) (txs : List TransactionWithTimestamp) (i : ℕ) (t : TransactionWithTimestamp)
      → IsInRange s
      → IsPlannable txs
      → 0 < num_proxies s
      → get_elem? txs i ≡ some t
      → ((k : ℕ) → Shares txs i k → k ≡ i)
      → (s' : Sched) × (schedule_transaction_batch s txs ≡ some s')
        × (get s'.pre_consensus_routing_plan (digest t)
            ≡ get s.pre_consensus_routing_plan (digest t))
  schedule-alone s txs i t range plannable some_proxy e h =
      let (s', returns, planned) =
        schedule-Schedules graphs laws s txs range plannable some_proxy in
      let subgraphs = planned.subgraphs in
      let one = subgraphs-once graphs txs subgraphs i planned.found (get_elem?-lt txs i t e) in
      let small : All (λ nodes. contains nodes i ≡ true → ltb (length nodes) 2 ≡ true) subgraphs =
        All-map
          (λ nodes k m.
            ground
              (arith, all_same nodes i (λ w mw. alone txs i w h (k.0.chained i w m mw)), k.1, one))
          subgraphs
          (All-both _ _ subgraphs (subgraphs-IsGroup graphs txs subgraphs planned.found)
            (count-concat subgraphs i)) in
      let out = not-large (sort_by_len subgraphs) i (
        All-sort_by_len (λ nodes. contains nodes i ≡ true → ltb (length nodes) 2 ≡ true) subgraphs
          small) in
      (
        s',
        returns,
        ap (λ m. get m (digest t)) planned.plan
            ∙ AssignsAll-keeps (build_dependency_graph txs).0 txs
                (build-IsBatch graphs laws txs plannable.distinct) i t e
                (large-inside graphs laws txs subgraphs planned.found) out planned.all,
      )

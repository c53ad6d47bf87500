-- ===== src/Schedule/Batch/Planned.antt =====
-- The planning of a batch: its assignments, and the updates of loads and of last proxies.
use remora.Prelude.{
  ◌+◌, insert, ℕ, ◌<◌, ◌≡◌, refl, List, [], ◌∷◌, some, arith, length, All, Map, get, nat_eq, ap,
  subst, sym, ◌∙◌,
}
use remora.Api.{TransactionWithTimestamp}
use remora.Schedule.Graph.{DiGraph, build_dependency_graph}
use remora.Schedule.External.{External, ExternalLaws}
use remora.Schedule.Scores.{zeros}
use remora.Schedule.Policy.{num_proxies, current_load, total_weight, to_tx_map}
use remora.Schedule.Index.{HasIndex}
use remora.Schedule.Choice.{Below, length-zeros, add_at-returns, note_objects-returns}
use remora.Schedule.Batch.{
  Assignment, Sched, update_state_for_sds, update_all, handle_large_subgraphs,
}
use remora.Schedule.Batch.Routes.{IsBatch}
use remora.Schedule.Batch.Together.{AssignsAll-range}
use remora.Schedule.Batch.Assign.{
  HasIndices, AssignsAll, assign_all-AssignsAll, to_tx_map-HasIndicesIn,
}

module _ ⦃E : External⦄ where
  -- What the task records names proxies that there are.
  pub record IsInRange (s : Sched) : Type 0 where
    pub last : Below (num_proxies s) s.object_last_proxy
    pub plan : Below (num_proxies s) s.pre_consensus_routing_plan

  update_all-returns :
      ExternalLaws E
      → (tx_map : Map ℕ TransactionWithTimestamp) (s : Sched) (distribution : List ℕ) (n : ℕ)
        (assignments : List Assignment)
      → length distribution ≡ n
      → Below n s.object_last_proxy
      → All (λ a. (a.proxy_id < n) × All HasIndex a.subgraph_objects) assignments
      → (s' : Sched) × (update_all tx_map s distribution assignments ≡ some s')
        × (s'.proxy_connections ≡ s.proxy_connections)
        × (s'.pre_consensus_routing_plan ≡ s.pre_consensus_routing_plan)
        × Below n s'.object_last_proxy
  unfolding update_all update_state_for_sds
  update_all-returns laws tx_map s distribution n [] l below h = (s, refl, refl, refl, below)
  update_all-returns laws tx_map s distribution n (a ∷ rest) l below h =
      let (last, noted, below') =
        note_objects-returns laws s.object_last_proxy n a.proxy_id a.subgraph_objects h.0.0 below
          h.0.1 in
      let (counts, added, l') =
        add_at-returns distribution a.proxy_id (length a.subgraph_digests)
          (omega (arith, h.0.0, l)) in
      let s1 : Sched = record s {
        proxy_loads =
            insert s.proxy_loads a.proxy_id
              (current_load s.proxy_loads a.proxy_id + total_weight tx_map a.subgraph_digests);
        object_last_proxy = last;
      } in
      let (s', later, proxies, plan, range) =
        update_all-returns laws tx_map s1 counts n rest (l' ∙ l) below' h.1 in
      (s', rw (noted, added) later, proxies, plan, range)

module _ ⦃D : DiGraph⦄ ⦃E : External⦄ (laws : ExternalLaws E) where
  pub handle_large-returns :
      (s : Sched) (txs : List TransactionWithTimestamp) (cs : List (List ℕ))
      → IsBatch (build_dependency_graph txs).0 txs
      → 0 < num_proxies s
      → IsInRange s
      → HasIndices txs
      → All (λ nodes. All (λ i. i < length txs) nodes) cs
      → (s' : Sched) × (handle_large_subgraphs
            (build_dependency_graph txs).0
            (to_tx_map txs [])
            s
            cs
          ≡ some s')
        × ((assignments : List Assignment) × (between : Sched) × AssignsAll
              (build_dependency_graph txs).0
              s
              cs
              assignments
              between
            × (s'.proxy_connections ≡ s.proxy_connections)
            × (s'.pre_consensus_routing_plan ≡ between.pre_consensus_routing_plan)
            × Below (num_proxies s) s'.object_last_proxy)
  unfolding handle_large_subgraphs get
  handle_large-returns s txs cs batch some_proxy range valid inside =
      let g = (build_dependency_graph txs).0 in
      let tx_map = to_tx_map txs [] in
      let valid_in = to_tx_map-HasIndicesIn txs [] valid (λ d tx e. absurd (ground arith)) in
      let (assignments, between, assigned, all) =
        assign_all-AssignsAll laws g txs batch tx_map valid_in s cs some_proxy range.last inside in
      let (proxies, last, ranges, _) = AssignsAll-range g txs batch all in
      let same = ap length proxies in
      let (s', updated, proxies', plan', last') =
        update_all-returns laws tx_map between (zeros (num_proxies between)) (num_proxies s)
          assignments (length-zeros (num_proxies between) ∙ same)
          (subst (Below (num_proxies s)) (sym last) range.last) ranges in
      (
        s',
        rw (assigned, handle_large_subgraphs) updated,
        (assignments, between, all, proxies' ∙ proxies, plan', last'),
      )

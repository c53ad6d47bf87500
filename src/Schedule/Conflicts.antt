-- ===== src/Schedule/Conflicts.antt =====
-- The subgraphs of a batch, and chains of shared objects.
use remora.Prelude.{
  count, [], ==_iff, concat, length, All-map, subst, ℕ, ◌<◌, ◌≡◌, List, ◌∷◌, true, some, contains,
  nat_eq, arith, All,
}
use remora.Api.{TransactionWithTimestamp}
use remora.Schedule.Graph.{
  step, DiGraph, DiGraphLaws, Walk, here, IsProper, build_dependency_graph, add_transactions,
}
use remora.Schedule.Graph.Connected.{empty, build-Covers}
use remora.Schedule.Graph.Edges.{Shares, build-IsSound}
use remora.Schedule.Search.{find_all_subgraphs}
use remora.Schedule.Search.Subgraphs.{
  Closed, IsComponent, find_all_subgraphs-ends, find_all_subgraphs-Partitions,
  find_all_subgraphs-once,
}

-- Transactions that a chain of shared objects connects.
pub data Chain (txs : List TransactionWithTimestamp) (i : ℕ) : ℕ → Type 0 where
  start : Chain txs i i
  share : {j k : ℕ} → Chain txs i j → Shares txs j k → Chain txs i k

Chain-before :
    {txs : List TransactionWithTimestamp} {i j k : ℕ}
    → Shares txs i j
    → Chain txs j k
    → Chain txs i k
Chain-before s start = share start s
Chain-before s (share c t) = share (Chain-before s c) t

pub Chain-back : {txs : List TransactionWithTimestamp} {i j : ℕ} → Chain txs i j → Chain txs j i
Chain-back start = start
Chain-back (share c (o, tj, tk)) = Chain-before (o, tk, tj) (Chain-back c)

Chain-join :
    {txs : List TransactionWithTimestamp} {i j k : ℕ}
    → Chain txs i j
    → Chain txs j k
    → Chain txs i k
Chain-join c start = c
Chain-join c (share d s) = share (Chain-join c d) s

All-contains {ℓ} :
    {P : ℕ → Type ℓ} (nodes : List ℕ) → ((w : ℕ) → contains nodes w ≡ true → P w) → All P nodes
unfolding contains
All-contains [] h = tt
All-contains (x ∷ nodes) h =
    (h x (ground (arith, ==_iff x x)), All-contains nodes (λ w m. h w (ground arith)))

module _ ⦃D : DiGraph⦄ (g : D.Graph) where
  Closed-Walk :
      (nodes : List ℕ)
      → Closed g nodes
      → {u v : ℕ} → Walk g u v
      → contains nodes u ≡ true
      → contains nodes v ≡ true
  Closed-Walk nodes closed here m = m
  Closed-Walk nodes closed (step {v} {w} p n) m = closed v w (Closed-Walk nodes closed p m) n

  Closed-Walk_back :
      IsProper g
      → (nodes : List ℕ) → Closed g nodes
      → {u v : ℕ} → Walk g u v
      → contains nodes v ≡ true
      → contains nodes u ≡ true
  Closed-Walk_back proper nodes closed here m = m
  Closed-Walk_back proper nodes closed (step {v} {w} p n) m =
      Closed-Walk_back proper nodes closed p (closed w v m (proper.symmetric v w n))

module _ ⦃D : DiGraph⦄ (laws : DiGraphLaws D) (txs : List TransactionWithTimestamp) where
  build_dependency_graph-IsProper : IsProper (build_dependency_graph txs).0
  unfolding build_dependency_graph
  build_dependency_graph-IsProper = (build-Covers laws txs).built.proper

  -- The search for subgraphs in the dependency graph of a batch returns.
  pub build-find_all_subgraphs :
      (subgraphs : List (List ℕ)) × (find_all_subgraphs (build_dependency_graph txs).0
        ≡ some subgraphs)
  build-find_all_subgraphs =
      find_all_subgraphs-ends (build_dependency_graph txs).0 build_dependency_graph-IsProper

  Walk-Chain : {u v : ℕ} → Walk (add_transactions empty txs).graph u v → Chain txs u v
  Walk-Chain here = start
  Walk-Chain (step {v} {w} p n) = share (Walk-Chain p) ((build-IsSound laws txs).edges v w n)

  -- What a subgraph is, in terms of the transactions.
  pub record IsGroup (nodes : List ℕ) : Type 0 where
    pub together : (i j : ℕ) → contains nodes i ≡ true → Chain txs i j → contains nodes j ≡ true
    pub chained : (i j : ℕ) → contains nodes i ≡ true → contains nodes j ≡ true → Chain txs i j

  Shares-contains :
      (nodes : List ℕ)
      → Closed (add_transactions empty txs).graph nodes
      → (i j : ℕ) → contains nodes i ≡ true
      → Shares txs i j
      → contains nodes j ≡ true
  Shares-contains nodes closed i j m (o, (ti, ei, mi), (tj, ej, mj)) =
      let c = build-Covers laws txs in
      let li = c.linked i o ti ei mi in
      let lj = c.linked j o tj ej mj in
      let same : li.last ≡ lj.last = ground (arith, li.is_last, lj.is_last) in
      Closed-Walk_back (add_transactions empty txs).graph c.built.proper nodes closed lj.path (
        subst (λ a. contains nodes a ≡ true) same
          (Closed-Walk (add_transactions empty txs).graph nodes closed li.path m))

  IsComponent-IsGroup :
      (nodes : List ℕ) → IsComponent (add_transactions empty txs).graph nodes → IsGroup nodes
  IsComponent-IsGroup nodes c = record {
    together = go;
    chained = λ i j mi mj.
        Chain-join (Chain-back (Walk-Chain (c.connected i mi))) (Walk-Chain (c.connected j mj));
  }
    where
      go : (i j : ℕ) → contains nodes i ≡ true → Chain txs i j → contains nodes j ≡ true
      go i j m start = m
      go i k m (share {j} h s) = Shares-contains nodes c.closed j k (go i j m h) s

  -- The subgraphs that are found for a batch are groups of transactions that chains of shared objects
  -- connect, each with all the transactions that such chains lead to.
  pub subgraphs-IsGroup :
      (subgraphs : List (List ℕ))
      → find_all_subgraphs (build_dependency_graph txs).0 ≡ some subgraphs
      → All IsGroup subgraphs
  unfolding build_dependency_graph
  subgraphs-IsGroup subgraphs h =
      All-map IsComponent-IsGroup subgraphs
        (find_all_subgraphs-Partitions (add_transactions empty txs).graph
          (build-Covers laws txs).built.proper subgraphs h).components

  -- Each transaction of the batch stands once in one of the subgraphs.
  pub subgraphs-once :
      (subgraphs : List (List ℕ)) (i : ℕ)
      → find_all_subgraphs (build_dependency_graph txs).0 ≡ some subgraphs
      → i < length txs
      → count (concat subgraphs) i ≡ 1
  unfolding build_dependency_graph
  subgraphs-once subgraphs i h below =
      let c = build-Covers laws txs in
      find_all_subgraphs-once (add_transactions empty txs).graph c.built.proper subgraphs i h
        (omega (arith, c.size))

  -- The subgraphs have only nodes of the batch.
  pub subgraphs-inside :
      (subgraphs : List (List ℕ))
      → find_all_subgraphs (build_dependency_graph txs).0 ≡ some subgraphs
      → All (λ nodes. All (λ i. i < length txs) nodes) subgraphs
  unfolding build_dependency_graph
  subgraphs-inside subgraphs h =
      let c = build-Covers laws txs in
      All-map (λ nodes k. All-contains nodes (λ w m. omega (arith, k.bounded w m, c.size)))
        subgraphs
        (find_all_subgraphs-Partitions (add_transactions empty txs).graph c.built.proper subgraphs
          h).components

  -- The search for the subgraphs of a batch returns: no search takes more rounds than there are
  -- transactions. Each transaction then stands once in one of the subgraphs.
  pub subgraphs_return :
      (subgraphs : List (List ℕ)) × (find_all_subgraphs (build_dependency_graph txs).0
        ≡ some subgraphs)
      × ((i : ℕ) → i < length txs → count (concat subgraphs) i ≡ 1)
  subgraphs_return =
      let (subgraphs, found) = build-find_all_subgraphs in
      (subgraphs, found, λ i below. subgraphs-once subgraphs i found below)

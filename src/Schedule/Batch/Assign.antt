-- ===== src/Schedule/Batch/Assign.antt =====
-- The assignment of the large subgraphs, and the updates after it.
use remora.Prelude.{
  ◌∙◌, sym, ap, All-append, inr, subst, inl, ◌==◌, map, Option-cases, Bool-cases, ℕ, ◌<◌, ◌≡◌, refl,
  List, [], ◌∷◌, some, arith, length, All, Map, get, insert, get-insert, nat_eq,
}
use remora.Api.{TransactionWithTimestamp, digest}
use remora.Versions.{shared_object_ids}
use remora.Schedule.Graph.{DiGraph}
use remora.Schedule.External.{External, ExternalLaws}
use remora.Schedule.Scores.{zeros, best_candidates}
use remora.Schedule.Policy.{
  num_proxies, route, collect_digests, collect_objects, to_tx_map, current_load,
}
use remora.Schedule.Index.{HasIndex}
use remora.Schedule.Choice.{
  Below, length-zeros, best_candidates-lt, choose-returns, locality_scores-returns,
}
use remora.Schedule.Batch.{range, Assignment, Sched, assign_large_subgraph_proxy, assign_all}
use remora.Schedule.Batch.Routes.{IsBatch, collect_digests-returns}

-- The objects of the transactions have an index.
abbrev pub HasIndices : ⦃E : External⦄ → List TransactionWithTimestamp → Type 0
HasIndices txs = All (λ tx. All HasIndex (shared_object_ids tx)) txs

module _ ⦃E : External⦄ where
  abbrev HasIndicesIn : Map ℕ TransactionWithTimestamp → Type 0
  HasIndicesIn m =
      (d : ℕ) (tx : TransactionWithTimestamp)
      → get m d ≡ some tx
      → All HasIndex (shared_object_ids tx)

  HasIndicesIn-insert :
      (m : Map ℕ TransactionWithTimestamp) (tx : TransactionWithTimestamp)
      → All HasIndex (shared_object_ids tx)
      → HasIndicesIn m
      → HasIndicesIn (insert m (digest tx) tx)
  HasIndicesIn-insert m tx h hm d u e = elim (Bool-cases (digest tx == d)) [
    | inl same ↦
        let equal : tx ≡ u = ground (arith, get-insert m (digest tx) d tx) in
        subst (λ t. All HasIndex (shared_object_ids t)) equal h
    | inr differs ↦ hm d u (ground (arith, get-insert m (digest tx) d tx))
  ]

  pub to_tx_map-HasIndicesIn :
      (txs : List TransactionWithTimestamp) (m : Map ℕ TransactionWithTimestamp)
      → HasIndices txs
      → HasIndicesIn m
      → HasIndicesIn (to_tx_map txs m)
  unfolding to_tx_map
  to_tx_map-HasIndicesIn [] m h hm = hm
  to_tx_map-HasIndicesIn (tx ∷ txs) m h hm =
      to_tx_map-HasIndicesIn txs (insert m (digest tx) tx) h.1 (HasIndicesIn-insert m tx h.0 hm)

  collect_objects-HasIndex :
      (m : Map ℕ TransactionWithTimestamp) (ds : List ℕ)
      → HasIndicesIn m
      → All HasIndex (collect_objects m ds)
  unfolding collect_objects
  collect_objects-HasIndex m [] h = tt
  collect_objects-HasIndex m (d ∷ ds) h = elim (Option-cases (get m d)) [
    | inl missing ↦ rw (missing, collect_objects) (collect_objects-HasIndex m ds h)
    | inr (tx, e) ↦
        rw (e, collect_objects)
          (All-append HasIndex (shared_object_ids tx) (collect_objects m ds) (h d tx e)
            (collect_objects-HasIndex m ds h))
  ]

-- What the assignment of a subgraph does to the state.
pub record Assigns ⦃D : DiGraph⦄ ⦃E : External⦄ (g : D.Graph) (s : Sched) (nodes : List ℕ)
    (a : Assignment) (s' : Sched) : Type 0 where
  pub in_range : a.proxy_id < num_proxies s
  pub digests : collect_digests g nodes ≡ some a.subgraph_digests
  pub objects : All HasIndex a.subgraph_objects
  pub plan :
      s'.pre_consensus_routing_plan
      ≡ route s.pre_consensus_routing_plan a.subgraph_digests a.proxy_id
  pub proxies : s'.proxy_connections ≡ s.proxy_connections
  pub last : s'.object_last_proxy ≡ s.object_last_proxy

-- The assignments of a list of subgraphs, one after the other.
pub data AssignsAll ⦃D : DiGraph⦄ ⦃E : External⦄ (g : D.Graph)
    : Sched → List (List ℕ) → List Assignment → Sched → Type 0 where
  done : {s : Sched} → AssignsAll g s [] [] s
  next :
      {s s' s'' : Sched} {nodes : List ℕ} {cs : List (List ℕ)} {a : Assignment}
      {assignments : List Assignment}
      → Assigns g s nodes a s'
      → AssignsAll g s' cs assignments s''
      → AssignsAll g s (nodes ∷ cs) (a ∷ assignments) s''

module _ ⦃D : DiGraph⦄ ⦃E : External⦄ (laws : ExternalLaws E) (g : D.Graph)
    (txs : List TransactionWithTimestamp) (batch : IsBatch g txs)
    (tx_map : Map ℕ TransactionWithTimestamp) (valid : HasIndicesIn tx_map) where
  assign-Assigns :
      (s : Sched) (nodes : List ℕ)
      → 0 < num_proxies s
      → Below (num_proxies s) s.object_last_proxy
      → All (λ i. i < length txs) nodes
      → (a : Assignment) × (s' : Sched) × (assign_large_subgraph_proxy g tx_map s nodes
          ≡ some (a, s'))
        × Assigns g s nodes a s'
  unfolding assign_large_subgraph_proxy
  assign-Assigns s nodes some_proxy below inside =
      let n = num_proxies s in
      let (ds, collected, _) = collect_digests-returns g txs batch nodes inside in
      let objects = collect_objects tx_map ds in
      let valid_objects = collect_objects-HasIndex tx_map ds valid in
      let (scores, scored, size) =
        locality_scores-returns laws s.object_last_proxy n (zeros n) objects (length-zeros n) below
          valid_objects in
      let loads = map (current_load s.proxy_loads) (range 0 n) in
      let (best, seed, chosen, in_range) =
        choose-returns laws s.seed n (best_candidates scores loads) some_proxy
          (best_candidates-lt scores loads n size) in
      (
        record { proxy_id = best; subgraph_digests = ds; subgraph_objects = objects },
        record s {
          pre_consensus_routing_plan = route s.pre_consensus_routing_plan ds best;
          seed = seed;
        },
        rw (collected, scored, chosen) refl,
        record {
          in_range = in_range;
          digests = collected;
          objects = valid_objects;
          plan = refl;
          proxies = refl;
          last = refl;
        },
      )

  pub assign_all-AssignsAll :
      (s : Sched) (cs : List (List ℕ))
      → 0 < num_proxies s
      → Below (num_proxies s) s.object_last_proxy
      → All (λ nodes. All (λ i. i < length txs) nodes) cs
      → (assignments : List Assignment) × (s' : Sched) × (assign_all g tx_map s cs
          ≡ some (assignments, s'))
        × AssignsAll g s cs assignments s'
  unfolding assign_all
  assign_all-AssignsAll s [] some_proxy below inside = ([], s, refl, done)
  assign_all-AssignsAll s (nodes ∷ cs) some_proxy below inside =
      let (a, s1, first, assigns) = assign-Assigns s nodes some_proxy below inside.0 in
      let same = ap length assigns.proxies in
      let (rest, s2, later, all) =
        assign_all-AssignsAll s1 cs (rw same some_proxy)
          (λ k p e. omega (arith, same, below k p (sym (ap (λ m. get m k) assigns.last) ∙ e)))
          inside.1 in
      (a ∷ rest, s2, rw (first, assign_all, later) refl, next assigns all)

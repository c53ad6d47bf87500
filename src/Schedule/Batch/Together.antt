-- ===== src/Schedule/Batch/Together.antt =====
-- What the assignments of a batch do to the plan.
use remora.Prelude.{
  contains-append, sym, inr, subst, inl, Bool-cases, ◌∙◌, ◌⊎◌, if◌then◌else◌, ℕ, ◌<◌, ◌≡◌, refl,
  List, true, false, some, arith, length, All, get_elem?, Map, get, contains, nat_eq, concat, ap,
}
use remora.Api.{TransactionWithTimestamp, digest}
use remora.Schedule.Graph.{DiGraph}
use remora.Schedule.External.{External}
use remora.Schedule.Policy.{num_proxies}
use remora.Schedule.Index.{HasIndex}
use remora.Schedule.Choice.{Below}
use remora.Schedule.Batch.{Assignment, Sched}
use remora.Schedule.Batch.Routes.{IsBatch, get-route, collect_digests-returns}
use remora.Schedule.Batch.Assign.{Assigns, AssignsAll, done, next}

-- Both digests are planned for one proxy that there is.
pub record Together (n : ℕ) (plan : Map ℕ ℕ) (d e : ℕ) : Type 0 where
  pub proxy : ℕ
  pub in_range : proxy < n
  pub first : get plan d ≡ some proxy
  pub second : get plan e ≡ some proxy

module _ ⦃D : DiGraph⦄ ⦃E : External⦄ (g : D.Graph) (txs : List TransactionWithTimestamp)
    (batch : IsBatch g txs) where
  -- An assignment plans the transactions of its subgraph, and no others.
  Assigns-plan :
      {s s' : Sched} {nodes : List ℕ} {a : Assignment} (i : ℕ) (t : TransactionWithTimestamp)
      → All (λ i. i < length txs) nodes
      → get_elem? txs i ≡ some t
      → Assigns g s nodes a s'
      → get s'.pre_consensus_routing_plan (digest t) ≡ (
          if contains nodes i then some a.proxy_id else get s.pre_consensus_routing_plan (digest t))
  Assigns-plan {s} {s'} {nodes} {a} i t inside e h =
      let (ds, collected, members) = collect_digests-returns g txs batch nodes inside in
      ground (
        arith,
        members i t e,
        h.digests,
        ap (λ m. get m (digest t)) h.plan,
        get-route s.pre_consensus_routing_plan a.subgraph_digests a.proxy_id (digest t),
      )

  Assigns-Together :
      {s s' : Sched} {nodes : List ℕ} {a : Assignment} (i j : ℕ) (t u : TransactionWithTimestamp)
      → All (λ i. i < length txs) nodes
      → get_elem? txs i ≡ some t
      → get_elem? txs j ≡ some u
      → contains nodes i ≡ contains nodes j
      → Assigns g s nodes a s'
      → (contains nodes i ≡ true)
        ⊎ Together (num_proxies s) s.pre_consensus_routing_plan (digest t) (digest u)
      → Together (num_proxies s') s'.pre_consensus_routing_plan (digest t) (digest u)
  Assigns-Together {s} {s'} {nodes} {a} i j t u inside ei ej same h before =
      let pi = Assigns-plan i t inside ei h in
      let pj = Assigns-plan j u inside ej h in
      let proxies = ap length h.proxies in
      elim (Bool-cases (contains nodes i)) [
        | inl m ↦ record {
          proxy = a.proxy_id;
          in_range = omega (arith, h.in_range, proxies);
          first = ground (arith, pi);
          second = ground (arith, pj);
        }
        | inr m ↦ elim before [
          | inl now ↦ absurd (ground arith)
          | inr old ↦ record {
            proxy = old.proxy;
            in_range = omega (arith, old.in_range, proxies);
            first = ground (arith, pi, old.first);
            second = ground (arith, pj, old.second);
          }
        ]
      ]

  -- Two transactions that are in the same subgraphs, and in one of them, are planned together.
  pub AssignsAll-Together :
      {s s' : Sched} {cs : List (List ℕ)} {assignments : List Assignment} (i j : ℕ)
      (t u : TransactionWithTimestamp)
      → get_elem? txs i ≡ some t
      → get_elem? txs j ≡ some u
      → All (λ nodes. All (λ i. i < length txs) nodes) cs
      → All (λ nodes. contains nodes i ≡ contains nodes j) cs
      → AssignsAll g s cs assignments s'
      → (contains (concat cs) i ≡ true)
        ⊎ Together (num_proxies s) s.pre_consensus_routing_plan (digest t) (digest u)
      → Together (num_proxies s') s'.pre_consensus_routing_plan (digest t) (digest u)
  unfolding contains
  AssignsAll-Together i j t u ei ej inside same done (inl m) = absurd (ground arith)
  AssignsAll-Together i j t u ei ej inside same done (inr old) = old
  AssignsAll-Together i j t u ei ej inside same (next {nodes = nodes} {cs = cs} h rest) before =
      AssignsAll-Together i j t u ei ej inside.1 same.1 rest (elim (Bool-cases (contains nodes i)) [
        | inl m ↦ inr (Assigns-Together i j t u inside.0 ei ej same.0 h (inl m))
        | inr m ↦ elim before [
          | inl later ↦ inl (ground (arith, contains-append nodes (concat cs) i))
          | inr old ↦ inr (Assigns-Together i j t u inside.0 ei ej same.0 h (inr old))
        ]
      ])

  -- A transaction in none of the subgraphs keeps its plan.
  pub AssignsAll-keeps :
      {s s' : Sched} {cs : List (List ℕ)} {assignments : List Assignment} (i : ℕ)
      (t : TransactionWithTimestamp)
      → get_elem? txs i ≡ some t
      → All (λ nodes. All (λ i. i < length txs) nodes) cs
      → contains (concat cs) i ≡ false
      → AssignsAll g s cs assignments s'
      → get s'.pre_consensus_routing_plan (digest t) ≡ get s.pre_consensus_routing_plan (digest t)
  AssignsAll-keeps i t e inside out done = refl
  AssignsAll-keeps i t e inside out (next {nodes = nodes} {cs = cs} h rest) =
      let apart = contains-append nodes (concat cs) i in
      AssignsAll-keeps i t e inside.1 (ground (arith, apart)) rest
      ∙ ground (arith, apart, Assigns-plan i t inside.0 e h)

  -- The proxies stay, the last proxies of the objects too, and the plan stays in range.
  pub AssignsAll-range :
      {s s' : Sched} {cs : List (List ℕ)} {assignments : List Assignment}
      → AssignsAll g s cs assignments s'
      → (s'.proxy_connections ≡ s.proxy_connections)
        × (s'.object_last_proxy ≡ s.object_last_proxy)
        × All (λ a. (a.proxy_id < num_proxies s) × All HasIndex a.subgraph_objects) assignments
        × (Below (num_proxies s) s.pre_consensus_routing_plan
            → Below (num_proxies s) s'.pre_consensus_routing_plan)
  AssignsAll-range done = (refl, refl, tt, λ b. b)
  AssignsAll-range (next {s = s} {s' = s1} {s'' = s2} {a = a} {assignments = later} h rest) =
      let (proxies, last, all, plan) = AssignsAll-range rest in
      let same = ap length h.proxies in
      (
        proxies ∙ h.proxies,
        last ∙ h.last,
        (
          (h.in_range, h.objects),
          subst (λ n. All (λ b. (b.proxy_id < n) × All HasIndex b.subgraph_objects) later) same all,
        ),
        λ below.
            subst (λ n. Below n s2.pre_consensus_routing_plan) same
              (plan (
                subst (λ n. Below n s1.pre_consensus_routing_plan) (sym same)
                  (λ k p e. ground (
                    arith,
                    below k p,
                    h.in_range,
                    ap (λ m. get m k) h.plan,
                    get-route s.pre_consensus_routing_plan a.subgraph_digests a.proxy_id k,
                  )))),
      )

-- ===== src/Forwarder/Task/Choice.antt =====
-- Which proxies the forwarder's choice can fall on.

use remora.Prelude.{
  remove, ◌∙◌, ℕ, ◌%◌, ◌≡◌, ◌<◌, refl, List, [], ◌∷◌, Option, none, some, Map, get, contains,
  nat_eq, length, true, arith, inl, inr, Option-cases,
}
use remora.Api.{digest}
use remora.Forwarder.Context.{ForwardingContext, PreConsensusSchedulingPolicy, lsds, rsds}
use remora.Forwarder.MostStates.Best.{most_states_lem}
use remora.Forwarder.Loads.{add_load, unwrap_or}
use remora.Forwarder.Task.{ForwardingTask, or_round_robin, fallback_proxy, choose_proxy}

-- The proxies are numbered from 0, at least one is connected, and the plan names connected ones.
pub record IsReady (c : ForwardingContext) : Type 0 where
  pub some_proxy : 0 < length c.proxy_connections
  pub dense : (p : ℕ) → p < length c.proxy_connections → contains c.proxy_connections p ≡ true
  pub planned :
      (d p : ℕ)
      → get c.pre_consensus_routing_plan d ≡ some p
      → contains c.proxy_connections p ≡ true

pub nonempty : (xs : List ℕ) → 0 < length xs → (x : ℕ) × (rest : List ℕ) × (xs ≡ x ∷ rest)
nonempty [] h = absurd (omega arith)
nonempty (x ∷ rest) h = (x, rest, refl)

or_round_robin_lem :
    (chosen : Option ℕ) (counter n : ℕ)
    → 0 < n
    → or_round_robin (some chosen) counter n ≡ some (unwrap_or chosen (counter % n))
unfolding or_round_robin
or_round_robin_lem chosen counter n pos = ground arith

fallback-connected :
    (c : ForwardingContext) (task : ForwardingTask) (policy : PreConsensusSchedulingPolicy)
    → c.policy ≡ policy
    → IsReady c
    → (p : ℕ) × (fallback_proxy c task ≡ some p) × (p < length c.proxy_connections)
unfolding fallback_proxy
fallback-connected c task lsds e r =
    let n : ℕ = length c.proxy_connections in
    let (p, chosen, most) =
      most_states_lem n c.states_to_proxy task.required_versions task.counter r.some_proxy in
    (
      p,
      rw (e, fallback_proxy)
          (rw chosen
            (or_round_robin_lem (some p) task.counter n r.some_proxy ∙ unfold unwrap_or in refl)),
      most.connected,
    )
fallback-connected c task rsds e r =
    let n : ℕ = length c.proxy_connections in
    (
      task.counter % n,
      rw (e, fallback_proxy)
          (or_round_robin_lem none task.counter n r.some_proxy ∙ unfold unwrap_or in refl),
      grind arith,
    )

-- The choice changes the plan and the loads, and nothing that the messages depend on.
pub choose_proxy_lem :
    (c : ForwardingContext) (task : ForwardingTask)
    → IsReady c
    → (p : ℕ) × (plan loads : Map ℕ ℕ) × (choose_proxy c task
        ≡ some (p, record c { pre_consensus_routing_plan = plan; proxy_loads = loads }))
      × (contains c.proxy_connections p ≡ true)
unfolding choose_proxy
choose_proxy_lem c task r =
    let plan : Map ℕ ℕ = c.pre_consensus_routing_plan in
    elim (Option-cases (get plan (digest task.transaction))) [
      | inl e ↦
          let (p, f, lt) = fallback-connected c task c.policy refl r in
          (
            p,
            plan,
            add_load c.proxy_loads p task.transaction.expected_stateful_duration,
            rw (e, choose_proxy) (rw f refl),
            r.dense p lt,
          )
      | inr (p, e) ↦ (
        p,
        remove plan (digest task.transaction),
        c.proxy_loads,
        rw (e, choose_proxy) refl,
        r.planned (digest task.transaction) p e,
      )
    ]

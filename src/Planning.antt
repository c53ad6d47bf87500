-- ===== src/Planning.antt =====
-- `Schedule` and `Forwarder` together: the planning of a batch before consensus, and the forwarding of its
-- transactions after.
use remora.Prelude.{
  ◌++◌, sym, true, contains, length, false, subst, ℕ, ◌<◌, ◌≡◌, ◌≢◌, refl, ◌∙◌, ap, some, List, get,
  remove, get-remove, get_elem?, nat_eq, arith, ◌==◌, ==_ne,
}
use remora.SequenceNumber.{SequenceNumbers}
use remora.Api.{
  PrimaryToProxyMessage, RequiredStates, TransactionWithTimestamp, StatelessVerificationRequest,
  digest,
}
use remora.Forwarder.Context.{ForwardingContext, send_to_proxy}
use remora.Forwarder.Task.{
  ForwardingTask, choose_proxy, send_stateless_now, lookup_stateless, build_message, forward_to,
  forward_task,
}
use remora.Versioned.{remove_dependency}
use remora.Forwarder.MissingStates.{get_missing_states_for_transaction}
use remora.Schedule.Graph.{DiGraph, DiGraphLaws}
use remora.Schedule.Conflicts.{Chain}
use remora.Schedule.External.{External, ExternalLaws}
use remora.Schedule.Policy.{num_proxies}
use remora.Schedule.Batch.{Sched, schedule_transaction_batch}
use remora.Schedule.Batch.Together.{Together}
use remora.Schedule.Batch.Planned.{IsInRange}
use remora.Schedule.Batch.Outcome.{IsPlannable, schedule-IsInRange}
use remora.Schedule.Batch.Sharing.{schedule-Together}
use remora.Config.{SeparationMode}
use remora.Forwarder.Task.Choice.{IsReady}
use remora.Forwarder.Task.Delivery.{Delivers, forward_task_lem}

-- What the sending of messages leaves of a context.
record Keeps (c d : ForwardingContext) : Type 0 where
  connections : d.proxy_connections ≡ c.proxy_connections
  mode : d.separation_mode ≡ c.separation_mode
  plan : d.pre_consensus_routing_plan ≡ c.pre_consensus_routing_plan

Keeps-trans : (c d e : ForwardingContext) → Keeps c d → Keeps d e → Keeps c e
Keeps-trans c d e h k = record {
  connections = k.connections ∙ h.connections;
  mode = k.mode ∙ h.mode;
  plan = k.plan ∙ h.plan;
}

send_to_proxy-Keeps :
    (c : ForwardingContext) (p : ℕ) (m : PrimaryToProxyMessage) → Keeps c (send_to_proxy c p m)
unfolding send_to_proxy
send_to_proxy-Keeps c p m = record {
  connections = ground arith;
  mode = ground arith;
  plan = ground arith;
}

-- The connected proxies are those numbered below their count.
abbrev pub IsDense : List ℕ → Type 0
IsDense proxies = (p : ℕ) → p < length proxies → contains proxies p ≡ true

module _ (make_request : TransactionWithTimestamp → StatelessVerificationRequest) where
  build_message-Keeps :
      (c : ForwardingContext) (t : TransactionWithTimestamp) (p : ℕ) (missing : RequiredStates)
      → Keeps c (build_message make_request c t p missing).1
  unfolding build_message send_stateless_now lookup_stateless send_to_proxy
  build_message-Keeps c t p missing = record {
    connections = ground arith;
    mode = ground arith;
    plan = ground arith;
  }

  module _ ⦃S : SequenceNumbers⦄ where
    forward_to-Keeps :
        (c : ForwardingContext) (task : ForwardingTask) (p : ℕ)
        → Keeps c (forward_to make_request c task p)
    unfolding forward_to
    forward_to-Keeps c task p =
        let (missing, states) =
          get_missing_states_for_transaction (some task.required_versions) p c.states_to_proxy in
        let c1 : ForwardingContext = record c { states_to_proxy = states } in
        let (message, c2) = build_message make_request c1 task.transaction p missing in
        let kept = build_message-Keeps c1 task.transaction p missing in
        Keeps-trans c c2 (send_to_proxy c2 p message)
          (record { connections = kept.connections; mode = kept.mode; plan = kept.plan })
          (send_to_proxy-Keeps c2 p message)

    -- A planned transaction is given to the planned proxy, and its entry leaves the plan.
    forward_planned :
        (c : ForwardingContext) (task : ForwardingTask) (p : ℕ)
        → get c.pre_consensus_routing_plan (digest task.transaction) ≡ some p
        → (d : ForwardingContext) × (forward_task make_request c task ≡ some (p, d))
          × Keeps
              (record c {
                pre_consensus_routing_plan =
                    remove c.pre_consensus_routing_plan (digest task.transaction);
              })
              d
    unfolding forward_task choose_proxy
    forward_planned c task p e =
        let c1 : ForwardingContext = record c {
          dependency_controller = remove_dependency task.required_versions c.dependency_controller;
          pre_consensus_routing_plan =
              remove c.pre_consensus_routing_plan (digest task.transaction);
        } in
        let kept = forward_to-Keeps c1 task p in
        (
          forward_to make_request c1 task p,
          rw (e, choose_proxy) refl,
          record { connections = kept.connections; mode = kept.mode; plan = kept.plan },
        )

    -- The task is forwarded without a panic: the connected proxy `p` is sent the transaction, by the
    -- messages that the mode asks for and with the states that `p` misses, and nothing else is sent but
    -- the stateless part, where the mode asks for it now.
    pub record Forwards (mode : SeparationMode) (c : ForwardingContext) (task : ForwardingTask)
        (p : ℕ) (d : ForwardingContext) : Type 0 where
      pub returns : forward_task make_request c task ≡ some (p, d)
      pub connected : contains c.proxy_connections p ≡ true
      pub messages : List (ℕ × PrimaryToProxyMessage)
      pub sent : d.sent ≡ c.sent ++ messages
      pub delivers :
          Delivers make_request mode c.proxy_connections c.stateless_forwarding_table
            task.transaction p
            (get_missing_states_for_transaction (some task.required_versions) p c.states_to_proxy).0
            messages

    -- What remains is ready for the next task, with the rest of the plan.
    planned-Forwards :
        (c : ForwardingContext) (task : ForwardingTask) (mode : SeparationMode) (p : ℕ)
        → c.separation_mode ≡ mode
        → IsReady c
        → get c.pre_consensus_routing_plan (digest task.transaction) ≡ some p
        → (d : ForwardingContext) × Forwards mode c task p d
          × IsReady d
          × (d.separation_mode ≡ mode)
          × (d.pre_consensus_routing_plan
              ≡ remove c.pre_consensus_routing_plan (digest task.transaction))
    planned-Forwards c task mode p same ready e =
        let (q, d', messages, run', connected, sent, delivers) =
          forward_task_lem make_request c task mode same ready in
        let (d, run, kept) = forward_planned c task p e in
        let forwards : Forwards mode c task q d' = record {
          returns = run';
          connected = connected;
          messages = messages;
          sent = sent;
          delivers = delivers;
        } in
        let agree : ◌≡◌ {A = ℕ × ForwardingContext} (q, d') (p, d) = cc (run', run) in
        (
          d,
          subst (λ r. Forwards mode c task r.0 r.1) agree forwards,
          record {
            some_proxy = subst (λ l. 0 < length l) (sym kept.connections) ready.some_proxy;
            dense = subst IsDense (sym kept.connections) ready.dense;
            planned = λ k r at.
                subst (λ l. contains l r ≡ true) (sym kept.connections)
                  (ready.planned k r (
                    ground (
                      arith,
                      at,
                      ap (λ m. get m k) kept.plan,
                      get-remove c.pre_consensus_routing_plan (digest task.transaction) k,
                    )));
          },
          kept.mode ∙ same,
          kept.plan,
        )

    module _ ⦃D : DiGraph⦄ ⦃E : External⦄ (graphs : DiGraphLaws D) (laws : ExternalLaws E) where
      -- A context with the proxies of the planning, densely numbered, and with its plan, is ready.
      planned-IsReady :
          (s s' : Sched) (txs : List TransactionWithTimestamp) (c : ForwardingContext)
          → IsInRange s
          → IsPlannable txs
          → 0 < num_proxies s
          → schedule_transaction_batch s txs ≡ some s'
          → c.proxy_connections ≡ s'.proxy_connections
          → c.pre_consensus_routing_plan ≡ s'.pre_consensus_routing_plan
          → IsDense c.proxy_connections
          → IsReady c
      planned-IsReady s s' txs c range plannable some_proxy returns proxies plan dense =
          let (s1, returns1, range1, kept) = schedule-IsInRange graphs laws s txs range plannable in
          let same : s1 ≡ s' = ground (arith, returns1, returns) in
          let range' : IsInRange s' = subst IsInRange same range1 in
          let count : length c.proxy_connections ≡ num_proxies s' = ap length proxies in
          record {
            some_proxy = omega (arith, some_proxy, count, ap num_proxies same, ap length kept);
            dense = dense;
            planned = λ k p at.
                dense p (omega (arith, count, range'.plan k p (ap (λ m. get m k) (sym plan) ∙ at)));
          }

      -- Let a batch be planned with a proxy connected, records in range, distinct digests and objects that
      -- have an index, and let two of its transactions be connected by a chain of shared objects. If they
      -- are forwarded one after the other, in any separation mode, from a context with the plan and the
      -- proxies of the planning, which are numbered from 0, then neither panics, and both are sent to the
      -- same connected proxy, by the messages that the mode asks for and with the states that it misses.
      pub planned_together :
          (s : Sched) (txs : List TransactionWithTimestamp) (i j : ℕ) (c : ForwardingContext)
          (t u : ForwardingTask) (s' : Sched) (mode : SeparationMode)
          → IsInRange s
          → IsPlannable txs
          → 0 < num_proxies s
          → get_elem? txs i ≡ some t.transaction
          → get_elem? txs j ≡ some u.transaction
          → i ≢ j
          → Chain txs i j
          → schedule_transaction_batch s txs ≡ some s'
          → c.separation_mode ≡ mode
          → c.proxy_connections ≡ s'.proxy_connections
          → IsDense c.proxy_connections
          → c.pre_consensus_routing_plan ≡ s'.pre_consensus_routing_plan
          → (p : ℕ) × (d e : ForwardingContext) × Forwards mode c t p d × Forwards mode d u p e
      planned_together s txs i j c t u s' mode range plannable some_proxy et eu apart chain returns
            same_mode proxies dense plan =
          let (s1, returns1, both) =
            schedule-Together graphs laws s txs i j t.transaction u.transaction range plannable
              some_proxy et eu apart chain in
          let same : s1 ≡ s' = ground (arith, returns1, returns) in
          let k =
            subst
              (λ r.
                Together (num_proxies r) r.pre_consensus_routing_plan (digest t.transaction)
                  (digest u.transaction))
              same both in
          let ready =
            planned-IsReady s s' txs c range plannable some_proxy returns proxies plan dense in
          let (d, first, ready', mode', left) =
            planned-Forwards c t mode k.proxy same_mode ready
              (ap (λ m. get m (digest t.transaction)) plan ∙ k.first) in
          let differs : (digest t.transaction == digest u.transaction) ≡ false =
            ==_ne (digest t.transaction) (digest u.transaction)
              (λ e. apart (plannable.distinct i j t.transaction u.transaction et eu e)) in
          let (e, second, _, _, _) = planned-Forwards d u mode k.proxy mode' ready' (
            ground (
              arith,
              ap (λ m. get m (digest u.transaction)) left,
              get-remove c.pre_consensus_routing_plan (digest t.transaction) (digest u.transaction),
              differs,
              ap (λ m. get m (digest u.transaction)) plan,
              k.second,
            )) in
          (k.proxy, d, e, first, second)

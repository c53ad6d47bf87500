-- ===== src/Forwarder/Task/Delivery.antt =====
-- What the proxies get for one transaction, in each mode.
use mathlib.Core.List.{append_assoc}
use remora.Prelude.{
  ap, ◌∙◌, ℕ, ◌≡◌, refl, List, [], ◌∷◌, ◌++◌, some, Map, get, contains, nat_eq, true, false,
  if◌then◌else◌, arith,
}
use remora.SequenceNumber.{SequenceNumbers}
use remora.Config.{
  SeparationMode, is_primary_separation, no_separation, proxy_separation, primary_pre_separation,
  primary_post_separation,
}
use remora.Api.{
  TransactionWithTimestamp, digest, StatelessVerificationRequest, PrimaryToProxyMessage, txn,
  stateless_txn, combined_txn, RequiredStates,
}
use remora.Forwarder.Context.{ForwardingContext, send_to_proxy}
use remora.Forwarder.Loads.{pick_stateless_proxy, pick_stateless_proxy_lem, unwrap_or}
use remora.Forwarder.MissingStates.{get_missing_states_for_transaction}
use remora.Versioned.{remove_dependency}
use remora.Forwarder.Task.{
  is_post, ForwardingTask, send_stateless_now, lookup_stateless, build_message, forward_to,
  forward_task,
}
use remora.Forwarder.Task.Choice.{IsReady, nonempty, choose_proxy_lem}

sent-send_to_proxy :
    (c : ForwardingContext) (p : ℕ) (m : PrimaryToProxyMessage)
    → contains c.proxy_connections p ≡ true
    → (send_to_proxy c p m).sent ≡ c.sent ++ (p, m) ∷ []
unfolding send_to_proxy
sent-send_to_proxy c p m h = rw h refl

connections-send_to_proxy :
    (c : ForwardingContext) (p : ℕ) (m : PrimaryToProxyMessage)
    → (send_to_proxy c p m).proxy_connections ≡ c.proxy_connections
unfolding send_to_proxy
connections-send_to_proxy c p m = ground arith

module _ (make_request : TransactionWithTimestamp → StatelessVerificationRequest) where
  -- What a transaction and the states that it misses are to become, in each mode: one message that
  -- has both parts, or the stateless part for a connected proxy and then the rest, which names it;
  -- or the rest alone, which names the proxy that the table has for the stateless part.
  abbrev pub Delivers :
      SeparationMode
      → List ℕ
      → Map ℕ ℕ
      → TransactionWithTimestamp
      → ℕ
      → RequiredStates
      → List (ℕ × PrimaryToProxyMessage)
      → Type 0
  Delivers no_separation conn table t p missing msgs = msgs ≡ (p, combined_txn t p missing) ∷ []
  Delivers proxy_separation conn table t p missing msgs = msgs ≡ (p, combined_txn t p missing) ∷ []
  Delivers primary_pre_separation conn table t p missing msgs =
      msgs ≡ (p, txn t (unwrap_or (get table (digest t)) 0) missing) ∷ []
  Delivers primary_post_separation conn table t p missing msgs =
      (q : ℕ) × (contains conn q ≡ true)
      × (msgs ≡ (q, stateless_txn (make_request t)) ∷ (p, txn t q missing) ∷ [])

  -- The message is built and sent.
  abbrev deliver :
      ForwardingContext → TransactionWithTimestamp → ℕ → RequiredStates → ForwardingContext
  deliver c t p missing =
      let (message, c') = build_message make_request c t p missing in send_to_proxy c' p message

  module _ (c : ForwardingContext) (t : TransactionWithTimestamp) (p : ℕ)
      (missing : RequiredStates) where
    build_combined :
        is_primary_separation c.separation_mode ≡ false
        → build_message make_request c t p missing ≡ (combined_txn t p missing, c)
    unfolding build_message
    build_combined h = rw h refl

    build_separate :
        (r : ℕ × ForwardingContext)
        → is_primary_separation c.separation_mode ≡ true
        → (if is_post c.separation_mode
            then send_stateless_now make_request c t
            else lookup_stateless make_request c t)
          ≡ r
        → build_message make_request c t p missing ≡ (txn t r.0 missing, r.1)
    unfolding build_message
    build_separate r h e = rw (h, e) refl

    combined-Delivers :
        is_primary_separation c.separation_mode ≡ false
        → contains c.proxy_connections p ≡ true
        → (deliver c t p missing).sent ≡ c.sent ++ (p, combined_txn t p missing) ∷ []
    combined-Delivers h at = rw (build_combined h) (sent-send_to_proxy c p _ at)

    pre-Delivers :
        c.separation_mode ≡ primary_pre_separation
        → contains c.proxy_connections p ≡ true
        → (deliver c t p missing).sent
          ≡ c.sent
            ++ (p, txn t (unwrap_or (get c.stateless_forwarding_table (digest t)) 0) missing) ∷ []
    unfolding is_primary_separation is_post lookup_stateless
    pre-Delivers e at =
        rw (build_separate (lookup_stateless make_request c t) (ground arith) (ground arith))
          (sent-send_to_proxy _ p _ at)

    -- The proxy of the stateless part.
    abbrev picked : ℕ
    picked = (pick_stateless_proxy c.proxy_connections c.proxy_loads t.verification_duration).0

    post-Delivers :
        c.separation_mode ≡ primary_post_separation
        → contains c.proxy_connections p ≡ true
        → contains c.proxy_connections picked ≡ true
        → (deliver c t p missing).sent
          ≡ c.sent ++ (picked, stateless_txn (make_request t)) ∷ (p, txn t picked missing) ∷ []
    unfolding is_primary_separation is_post send_stateless_now
    post-Delivers e at' there =
        let c1 : ForwardingContext = record c {
          proxy_loads =
              (pick_stateless_proxy c.proxy_connections c.proxy_loads t.verification_duration).1;
        } in
        let m : PrimaryToProxyMessage = stateless_txn (make_request t) in
        let still : contains (send_to_proxy c1 picked m).proxy_connections p ≡ true =
          rw (connections-send_to_proxy c1 picked m) at' in
        rw (build_separate (send_stateless_now make_request c t) (ground arith) (ground arith)) (
          sent-send_to_proxy (send_to_proxy c1 picked m) p (txn t picked missing) still
          ∙ ap (λ l. l ++ (p, txn t picked missing) ∷ []) (sent-send_to_proxy c1 picked m there)
          ∙ append_assoc c.sent ((picked, m) ∷ []) ((p, txn t picked missing) ∷ []))

  deliver_lem :
      (c : ForwardingContext) (t : TransactionWithTimestamp) (p : ℕ) (missing : RequiredStates)
      (mode : SeparationMode) (q : ℕ) (qs : List ℕ)
      → c.separation_mode ≡ mode
      → c.proxy_connections ≡ q ∷ qs
      → contains c.proxy_connections p ≡ true
      → (msgs : List (ℕ × PrimaryToProxyMessage)) × ((deliver c t p missing).sent ≡ c.sent ++ msgs)
        × Delivers mode c.proxy_connections c.stateless_forwarding_table t p missing msgs
  unfolding is_primary_separation
  deliver_lem c t p missing no_separation q qs e conn at' =
      (_, combined-Delivers c t p missing (ground arith) at', refl)
  deliver_lem c t p missing proxy_separation q qs e conn at' =
      (_, combined-Delivers c t p missing (ground arith) at', refl)
  deliver_lem c t p missing primary_pre_separation q qs e conn at' =
      (_, pre-Delivers c t p missing e at', refl)
  deliver_lem c t p missing primary_post_separation q qs e conn at' =
      let there : contains c.proxy_connections (picked c t p missing) ≡ true =
        rw conn (pick_stateless_proxy_lem q qs c.proxy_loads t.verification_duration 0).0 in
      (_, post-Delivers c t p missing e at' there, (picked c t p missing, there, refl))

  module _ ⦃S : SequenceNumbers⦄ where
    -- A task whose wait is over, in each mode, when the connected proxies are those numbered below
    -- their count, there is one, and the routing plan names only these: the forwarder does not
    -- panic, it chooses a connected proxy and sends exactly the messages that the mode asks for, with
    -- the states that this proxy misses.
    pub forward_task_lem :
        (c : ForwardingContext) (task : ForwardingTask) (mode : SeparationMode)
        → c.separation_mode ≡ mode
        → IsReady c
        → (p : ℕ) × (d : ForwardingContext) × (msgs : List (ℕ × PrimaryToProxyMessage))
          × (forward_task make_request c task ≡ some (p, d))
          × (contains c.proxy_connections p ≡ true)
          × (d.sent ≡ c.sent ++ msgs)
          × Delivers mode c.proxy_connections c.stateless_forwarding_table task.transaction p
              (get_missing_states_for_transaction
                (some task.required_versions)
                p
                c.states_to_proxy).0
              msgs
    unfolding forward_task forward_to
    forward_task_lem c task mode e r =
        let c0 : ForwardingContext = record c {
          dependency_controller = remove_dependency task.required_versions c.dependency_controller;
        } in
        let ready : IsReady c0 = record {
          some_proxy = r.some_proxy;
          dense = r.dense;
          planned = r.planned;
        } in
        let (q, qs, conn) = nonempty c.proxy_connections r.some_proxy in
        let (p, plan, loads, chosen, at') = choose_proxy_lem c0 task ready in
        let (missing, states) =
          get_missing_states_for_transaction (some task.required_versions) p c.states_to_proxy in
        let c1 : ForwardingContext = record c0 {
          pre_consensus_routing_plan = plan;
          proxy_loads = loads;
          states_to_proxy = states;
        } in
        let (msgs, sent, delivers) =
          deliver_lem c1 task.transaction p missing mode q qs e conn at' in
        (p, deliver c1 task.transaction p missing, msgs, rw chosen refl, at', sent, delivers)

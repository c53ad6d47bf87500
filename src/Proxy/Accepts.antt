-- ===== src/Proxy/Accepts.antt =====
-- The messages of the primary's forwarder, at the proxies that they are for.
use remora.Prelude.{
  Option-cases, ℕ, ◌≡◌, ◌≢◌, refl, sym, ap, subst, ◌∙◌, List, [], ◌∷◌, ◌++◌, Option, none, some,
  true, false, contains, nat_eq, arith, ◌==◌, ==_ne, All, get, ◌⊎◌, inl, inr, Bool-cases,
}
use remora.SequenceNumber.{SequenceNumbers}
use remora.Config.{
  SeparationMode, no_separation, proxy_separation, primary_pre_separation, primary_post_separation,
  is_proxy_separation, is_primary_separation,
}
use remora.Api.{
  ProxyToProxyMessage, TransactionWithTimestamp, RequiredStates, PrimaryToProxyMessage, txn,
  stateless_txn, combined_txn, digest,
}
use remora.Execution.{Executor}
use remora.Forwarder.Context.{ForwardingContext}
use remora.Forwarder.Loads.{unwrap_or}
use remora.Forwarder.Task.{ForwardingTask, forward_task}
use remora.Forwarder.Task.Choice.{IsReady}
use remora.Forwarder.Task.Delivery.{Delivers, forward_task_lem}
use remora.Forwarder.MissingStates.Owners.{missing_states-not_self}
use remora.Proxy.{Proxy, send_msg_to_proxy}
use remora.Proxy.Primary.{
  process_stateless_transaction, stateless_handle, request_states, schedule_stateful_transaction,
  process_stateful_transaction, handle_primary_message,
}

module _ ⦃E : Executor⦄ where
  id-send_msg_to_proxy :
      (p : ℕ) (m : ProxyToProxyMessage E.Object) (c : Proxy) → (send_msg_to_proxy p m c).id ≡ c.id
  unfolding send_msg_to_proxy
  id-send_msg_to_proxy p m c = ground arith

  -- No request goes to the proxy itself.
  pub request_states-returns :
      (required : RequiredStates) (c : Proxy) (i : ℕ)
      → c.id ≡ i
      → All (λ e. e.1 ≢ some i) required
      → request_states required c ≢ none
  unfolding request_states
  request_states-returns [] c i same h = λ e. cc
  request_states-returns ((state, none) ∷ required) c i same h =
      request_states-returns required c i same h.1
  request_states-returns ((state, some p) ∷ required) c i same h =
      let other : (p == c.id) ≡ false = ==_ne p c.id (λ e. h.0 (ap (λ x. some x) (e ∙ same))) in
      rw other (request_states-returns required _ i (id-send_msg_to_proxy p _ c ∙ same) h.1)

  schedule-returns :
      (t : TransactionWithTimestamp) (required : RequiredStates) (rx : Option ℕ) (c : Proxy) (i : ℕ)
      → c.id ≡ i
      → All (λ e. e.1 ≢ some i) required
      → schedule_stateful_transaction t required rx c ≢ none
  unfolding schedule_stateful_transaction
  schedule-returns t required rx c i same h =
      ground (arith, request_states-returns required c i same h)

  -- The stateless part is here, or at a connected proxy.
  stateless_handle-returns :
      (p : ℕ) (t : TransactionWithTimestamp) (c : Proxy)
      → (p ≡ c.id) ⊎ (contains c.tx_inter_proxy_replies p ≡ true)
      → stateless_handle p t c ≢ none
  unfolding stateless_handle
  stateless_handle-returns p t c (inl e) = ground (arith, e)
  stateless_handle-returns p t c (inr conn) = ground (arith, conn)

  stateless_handle-id :
      (p : ℕ) (t : TransactionWithTimestamp) (c d : Proxy) (rx : Option ℕ)
      → stateless_handle p t c ≡ some (rx, d)
      → d.id ≡ c.id
  unfolding stateless_handle
  stateless_handle-id p t c d rx run = ground (arith, run)

  process_stateful-returns :
      (t : TransactionWithTimestamp) (p : ℕ) (required : RequiredStates) (c : Proxy) (i : ℕ)
      → c.id ≡ i
      → (p ≡ i) ⊎ (contains c.tx_inter_proxy_replies p ≡ true)
      → All (λ e. e.1 ≢ some i) required
      → process_stateful_transaction t p required c ≢ none
  unfolding process_stateful_transaction
  process_stateful-returns t p required c i same at h =
      elim (Option-cases (stateless_handle p t c)) [
        | inl e ↦ absurd (stateless_handle-returns p t c (here_or_there at) e)
        | inr ((rx, d), e) ↦
            let scheduled : schedule_stateful_transaction t required rx d ≢ none =
              schedule-returns t required rx d i (stateless_handle-id p t c d rx e ∙ same) h in
            λ nothing. scheduled (cc (e, nothing))
      ]
    where
      here_or_there :
          (p ≡ i) ⊎ (contains c.tx_inter_proxy_replies p ≡ true)
          → (p ≡ c.id) ⊎ (contains c.tx_inter_proxy_replies p ≡ true)
      here_or_there (inl e) = inl (e ∙ sym same)
      here_or_there (inr conn) = inr conn

  -- What a message asks of the proxy that gets it, whose id and mode are given.
  abbrev Suits : SeparationMode → (i : ℕ) → List ℕ → PrimaryToProxyMessage → Type 0
  Suits mode i conn (stateless_txn req) = is_primary_separation mode ≡ true
  Suits mode i conn (txn t p missing) =
      (is_primary_separation mode ≡ true)
      × ((p ≡ i) ⊎ (contains conn p ≡ true))
      × All (λ e. e.1 ≢ some i) missing
  Suits mode i conn (combined_txn t p missing) =
      (is_primary_separation mode ≡ false)
      × ((p ≡ i) ⊎ (contains conn p ≡ true))
      × All (λ e. e.1 ≢ some i) missing

  handle_primary-returns :
      (m : PrimaryToProxyMessage) (c : Proxy)
      → Suits c.mode c.id c.tx_inter_proxy_replies m
      → handle_primary_message m c ≢ none
  unfolding handle_primary_message process_stateless_transaction
  handle_primary-returns (stateless_txn req) c h = ground (arith, h)
  handle_primary-returns (txn t p missing) c h =
      rw h.0 (process_stateful-returns t p missing c c.id refl h.1 h.2)
  handle_primary-returns (combined_txn t p missing) c h =
      elim (Bool-cases (is_proxy_separation c.mode)) [
        | inl e ↦ rw (h.0, e) (process_stateful-returns t p missing _ c.id refl h.1 h.2)
        | inr e ↦ rw (h.0, e) (process_stateful-returns t p missing c c.id refl h.1 h.2)
      ]

  module _ (c : ForwardingContext) (proxies : ℕ → Proxy) (ids : (q : ℕ) → (proxies q).id ≡ q)
      (modes : (q : ℕ) → (proxies q).mode ≡ c.separation_mode)
      (meshed : (q r : ℕ)
        → contains c.proxy_connections q ≡ true
        → contains c.proxy_connections r ≡ true
        → (r ≡ q) ⊎ (contains (proxies q).tx_inter_proxy_replies r ≡ true)) where
    Suits-return :
        (mode : SeparationMode) (q : ℕ) (m : PrimaryToProxyMessage)
        → c.separation_mode ≡ mode
        → Suits mode q (proxies q).tx_inter_proxy_replies m
        → handle_primary_message m (proxies q) ≢ none
    Suits-return mode q m e h = handle_primary-returns m (proxies q) (
        subst (λ i. Suits (proxies q).mode i (proxies q).tx_inter_proxy_replies m) (sym (ids q))
          (subst (λ s. Suits s q (proxies q).tx_inter_proxy_replies m) (sym (modes q ∙ e)) h))

    Delivers-return :
        (mode : SeparationMode) (t : TransactionWithTimestamp) (p : ℕ) (missing : RequiredStates)
        (msgs : List (ℕ × PrimaryToProxyMessage))
        → c.separation_mode ≡ mode
        → contains c.proxy_connections p ≡ true
        → contains c.proxy_connections (unwrap_or (get c.stateless_forwarding_table (digest t)) 0)
          ≡ true
        → All (λ e. e.1 ≢ some p) missing
        → Delivers E.make_verification_request mode c.proxy_connections c.stateless_forwarding_table
            t p missing msgs
        → All (λ m. handle_primary_message m.1 (proxies m.0) ≢ none) msgs
    unfolding is_primary_separation
    Delivers-return no_separation t p missing msgs e conn table own d =
        subst (All (λ m. handle_primary_message m.1 (proxies m.0) ≢ none)) (sym d)
          (Suits-return no_separation p (combined_txn t p missing) e (refl, inl refl, own), tt)
    Delivers-return proxy_separation t p missing msgs e conn table own d =
        subst (All (λ m. handle_primary_message m.1 (proxies m.0) ≢ none)) (sym d)
          (Suits-return proxy_separation p (combined_txn t p missing) e (refl, inl refl, own), tt)
    Delivers-return primary_pre_separation t p missing msgs e conn table own d =
        subst (All (λ m. handle_primary_message m.1 (proxies m.0) ≢ none)) (sym d) (
          Suits-return primary_pre_separation p (txn t _ missing) e
              (refl, meshed p _ conn table, own),
          tt,
        )
    Delivers-return primary_post_separation t p missing msgs e conn table own (q, conn', d) =
        subst (All (λ m. handle_primary_message m.1 (proxies m.0) ≢ none)) (sym d) (
          Suits-return primary_post_separation q (stateless_txn (E.make_verification_request t)) e
              refl,
          (
            Suits-return primary_post_separation p (txn t q missing) e
                (refl, meshed p q conn conn', own),
            tt,
          ),
        )

    lookup-connected :
        IsReady c
        → ((d q : ℕ)
            → get c.stateless_forwarding_table d ≡ some q
            → contains c.proxy_connections q ≡ true)
        → (d : ℕ)
        → contains c.proxy_connections (unwrap_or (get c.stateless_forwarding_table d) 0) ≡ true
    unfolding unwrap_or
    lookup-connected ready known d = elim (Option-cases (get c.stateless_forwarding_table d)) [
      | inl e ↦ rw e (ready.dense 0 ready.some_proxy)
      | inr (q, e) ↦ rw e (known d q e)
    ]

    -- Let the forwarder's context be as `IsReady` says, with connected proxies in its stateless
    -- table, and let each proxy run in the forwarder's mode with a connection to all the others. Then
    -- the messages of a forwarding task go to connected proxies that handle them without a panic.
    pub forwarded_messages-return :
        ⦃S : SequenceNumbers⦄
        → (task : ForwardingTask) → IsReady c
        → ((d q : ℕ)
            → get c.stateless_forwarding_table d ≡ some q
            → contains c.proxy_connections q ≡ true)
        → (p : ℕ) × (d : ForwardingContext) × (msgs : List (ℕ × PrimaryToProxyMessage))
          × (forward_task E.make_verification_request c task ≡ some (p, d))
          × (d.sent ≡ c.sent ++ msgs)
          × All (λ m. handle_primary_message m.1 (proxies m.0) ≢ none) msgs
    forwarded_messages-return task ready known =
        let (p, d, msgs, run, conn, sent, delivers) =
          forward_task_lem E.make_verification_request c task c.separation_mode refl ready in
        (
          p,
          d,
          msgs,
          run,
          sent,
          Delivers-return c.separation_mode task.transaction p _ msgs refl conn
              (lookup-connected ready known (digest task.transaction))
              (missing_states-not_self (some task.required_versions) p c.states_to_proxy) delivers,
        )

-- ===== src/Forwarder/Task/Separate.antt =====
-- A transaction whose stateless part leaves before consensus: `process_stateless` and then the
-- forwarding task.
use remora.Prelude.{
  ◌≡◌, refl, ap, ◌∙◌, ℕ, [], ◌∷◌, ◌++◌, some, true, contains, get, insert, get-insert, nat_eq,
  ==_refl, arith,
}
use remora.SequenceNumber.{SequenceNumbers}
use remora.Config.{primary_pre_separation}
use remora.Api.{
  TransactionWithTimestamp, StatelessVerificationRequest, txn, stateless_txn, digest,
  request_digest, cost_hint,
}
use remora.Forwarder.Context.{ForwardingContext, send_to_proxy}
use remora.Forwarder.Loads.{pick_stateless_proxy, pick_stateless_proxy_lem, unwrap_or}
use remora.Forwarder.MissingStates.{get_missing_states_for_transaction}
use remora.Forwarder.Task.{ForwardingTask, forward_task, process_stateless}
use remora.Forwarder.Task.Choice.{IsReady, nonempty}
use remora.Forwarder.Task.Delivery.{forward_task_lem}

-- The state after the request, which goes to a connected proxy.
abbrev requested : ForwardingContext → StatelessVerificationRequest → ForwardingContext
requested c req =
    let (proxy, loads) = pick_stateless_proxy c.proxy_connections c.proxy_loads (cost_hint req) in
    record c {
      proxy_loads = loads;
      sent = c.sent ++ (proxy, stateless_txn req) ∷ [];
      stateless_forwarding_table = insert c.stateless_forwarding_table (request_digest req) proxy;
    }

abbrev picked : ForwardingContext → StatelessVerificationRequest → ℕ
picked c req = (pick_stateless_proxy c.proxy_connections c.proxy_loads (cost_hint req)).0

picked-connected :
    (c : ForwardingContext) (req : StatelessVerificationRequest)
    → IsReady c
    → contains c.proxy_connections (picked c req) ≡ true
picked-connected c req ready =
    let (q, qs, conn) = nonempty c.proxy_connections ready.some_proxy in
    rw conn (pick_stateless_proxy_lem q qs c.proxy_loads (cost_hint req) 0).0

process_stateless-requested :
    (c : ForwardingContext) (req : StatelessVerificationRequest)
    → contains c.proxy_connections (picked c req) ≡ true
    → process_stateless c req ≡ requested c req
unfolding process_stateless send_to_proxy
process_stateless-requested c req there = rw there refl

requested-IsReady :
    (c : ForwardingContext) (req : StatelessVerificationRequest)
    → IsReady c
    → IsReady (requested c req)
requested-IsReady c req ready = record {
  some_proxy = ready.some_proxy;
  dense = ready.dense;
  planned = ready.planned;
}

looked_up :
    (c : ForwardingContext) (req : StatelessVerificationRequest) (d : ℕ)
    → request_digest req ≡ d
    → unwrap_or (get (requested c req).stateless_forwarding_table d) 0 ≡ picked c req
unfolding unwrap_or
looked_up c req d same = ground (
  arith,
  same,
  get-insert c.stateless_forwarding_table (request_digest req) d (picked c req),
  ==_refl d,
)

module _ (make_request : TransactionWithTimestamp → StatelessVerificationRequest)
    ⦃S : SequenceNumbers⦄ where
  -- In the pre-consensus mode, in a ready context, the request of a transaction and then its
  -- forwarding task send two messages: the request to some connected proxy, and to a connected proxy
  -- the transaction, which names the proxy of its request and has the states that are missing.
  pub pre_separation_lem :
      (c : ForwardingContext) (req : StatelessVerificationRequest) (task : ForwardingTask)
      → c.separation_mode ≡ primary_pre_separation
      → IsReady c
      → request_digest req ≡ digest task.transaction
      → (p q : ℕ) × (d : ForwardingContext) × (forward_task make_request
            (process_stateless c req)
            task
          ≡ some (p, d))
        × (contains c.proxy_connections p ≡ true)
        × (contains c.proxy_connections q ≡ true)
        × (d.sent
            ≡ (c.sent ++ (q, stateless_txn req) ∷ [])
              ++ (
                p,
                txn task.transaction q
                    (get_missing_states_for_transaction
                      (some task.required_versions)
                      p
                      c.states_to_proxy).0,
              )
                ∷ [])
  pre_separation_lem c req task mode ready same =
      let there : contains c.proxy_connections (picked c req) ≡ true =
        picked-connected c req ready in
      let (p, d, msgs, run, conn, sent, delivers) =
        forward_task_lem make_request (requested c req) task primary_pre_separation mode
          (requested-IsReady c req ready) in
      (
        p,
        picked c req,
        d,
        ap (λ s. forward_task make_request s task) (process_stateless-requested c req there) ∙ run,
        conn,
        there,
        sent
            ∙ ap (λ m. (requested c req).sent ++ m)
                (delivers
                  ∙ ap
                      (λ q.
                        (
                          p,
                          txn task.transaction q
                              (get_missing_states_for_transaction (some task.required_versions) p
                                c.states_to_proxy).0,
                        )
                        ∷ [])
                      (looked_up c req (digest task.transaction) same)),
      )

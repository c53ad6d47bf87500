-- ===== src/Proxy/Results.antt =====
-- The result of a verification on its way to the execution that waits for it, and what becomes of an
-- execution whose transaction is not to be executed.
use remora.Prelude.{
  sym, Option-cases, Map, inr, inl, Bool-cases, ℕ, ◌≡◌, ◌≢◌, refl, ap, ◌∙◌, List, [], ◌∷◌, ◌++◌,
  Option, none, some, Bool, true, false, contains, nat_eq, arith, ◌==◌, ==_ne, ==_refl, All, get,
  get-insert, insert,
}
use remora.Config.{proxy_separation, is_proxy_separation, is_primary_separation}
use remora.Api.{
  stateful_reply, reply, StatelessVerificationRequest, ProxyToProxyMessage, stateful_request,
  stateless_request, request, TransactionWithTimestamp, RequiredStates, combined_txn, digest,
  request_digest,
}
use remora.Execution.{Executor}
use remora.Oneshot.{set_remote_dependency, set_local_dependency, get_dependency, take_signal}
use remora.Oneshot.Rendezvous.{Call, on, run, slot, remote_then_signal, local_then_dependency}
use remora.Proxy.{Proxy, verification, execution, send_msg_to_proxy, spawn}
use remora.Proxy.Primary.{
  process_stateless_transaction, stateless_handle, request_states, schedule_stateful_transaction,
  process_stateful_transaction, handle_primary_message,
}
use remora.SequenceNumber.{SequenceNumbers}
use remora.Proxy.Accepts.{request_states-returns}
use remora.Proxy.Migration.{stale_state-panics}
use remora.Proxy.Peers.{handle_proxy_message, handle_stateless_reply}
use remora.Proxy.Tasks.{answer_states, Dependencies, finish_execution, ready_to_execute, skipped}

module _ ⦃E : Executor⦄ where
  -- What comes after the wait is in the state in which only the stateless controller went on.
  abbrev pub later : List Call → Proxy → Proxy
  later calls c = record c { stateless_controller = run calls c.stateless_controller }

  signalled :
      (signals : Map ℕ Bool) (n : ℕ) (result : Bool) → get (insert signals n result) n ≡ some result
  signalled signals n result = ground (arith, get-insert signals n n result, ==_refl n)

  handle_stateless_reply-signals :
      (d n : ℕ) (result : Bool) (c : Proxy)
      → (take_signal d c.stateless_controller).0 ≡ some n
      → get (handle_stateless_reply d result c).signals n ≡ some result
  unfolding handle_stateless_reply
  handle_stateless_reply-signals d n result c taken =
      ground (arith, taken, signalled c.signals n result)

  -- With stateless transactions separated, the result of a transaction at another, connected, proxy
  -- reaches the task that waits for it: whatever calls for other transactions come in between, the
  -- handler of the reply puts the result into the channel whose receiver the task was given.
  pub remote_result_lem :
      (q : ℕ) (t : TransactionWithTimestamp) (c : Proxy) (calls : List Call) (result : Bool)
      → is_proxy_separation c.mode ≡ true
      → q ≢ c.id
      → contains c.tx_inter_proxy_replies q ≡ true
      → All (λ call. on call ≢ digest t) calls
      → (rx : ℕ) × (d : Proxy) × (stateless_handle q t c ≡ some (some rx, d))
        × (get (handle_stateless_reply (digest t) result (later calls d)).signals rx ≡ some result)
  unfolding stateless_handle handle_stateless_reply
  remote_result_lem q t c calls result mode other conn others =
      let (sender, gone) = remote_then_signal (digest t) c.stateless_controller calls others in
      let waiting : Proxy = record c {
        stateless_controller = (set_remote_dependency (digest t) c.stateless_controller).1;
        sent = c.sent ++ (q, request (stateless_request c.id (digest t))) ∷ [];
      } in
      (
        (set_remote_dependency (digest t) c.stateless_controller).0,
        waiting,
        rw (mode, ==_ne q c.id other, conn) refl,
        handle_stateless_reply-signals (digest t) _ result (later calls waiting) sender,
      )

  spawned-send_msg_to_proxy :
      (p : ℕ) (m : ProxyToProxyMessage E.Object) (c : Proxy)
      → (send_msg_to_proxy p m c).spawned ≡ c.spawned
  unfolding send_msg_to_proxy
  spawned-send_msg_to_proxy p m c = ground arith

  request_states-spawned :
      (required : RequiredStates) (c d : Proxy)
      → request_states required c ≡ some d
      → d.spawned ≡ c.spawned
  unfolding request_states send_msg_to_proxy
  request_states-spawned [] c d run = ground (arith, run)
  request_states-spawned ((state, none) ∷ required) c d run =
      request_states-spawned required c d run
  request_states-spawned ((state, some p) ∷ required) c d run = elim (Bool-cases (p == c.id)) [
    | inl e ↦ absurd (cc (e, run))
    | inr e ↦
        let sent : Proxy = send_msg_to_proxy p (request (stateful_request c.id (state ∷ []))) c in
        let asked : request_states required sent ≡ some d = cc (e, run) in
        request_states-spawned required sent d asked ∙ spawned-send_msg_to_proxy p _ c
  ]

  stateless_handle-here :
      (t : TransactionWithTimestamp) (c : Proxy) (rx : Option ℕ)
      → is_proxy_separation c.mode ≡ true
      → (get_dependency (digest t) c.stateless_controller).0 ≡ rx
      → stateless_handle c.id t c
        ≡ some (
          rx,
          record c { stateless_controller = (get_dependency (digest t) c.stateless_controller).1 },
        )
  unfolding stateless_handle
  stateless_handle-here t c rx mode e = rw (mode, ==_refl c.id, e) refl

  verification-first :
      (req : StatelessVerificationRequest) (c : Proxy) (d : ℕ)
      → request_digest req ≡ d
      → slot c.stateless_controller d ≡ none
      → (get_dependency d (process_stateless_transaction req c).stateless_controller).0
        ≡ some (set_local_dependency (request_digest req) c.stateless_controller).0
  unfolding process_stateless_transaction run
  verification-first req c d same fresh =
      rw same (local_then_dependency d c.stateless_controller [] tt fresh).0

  process_stateful-spawned :
      (t : TransactionWithTimestamp) (p : ℕ) (missing : RequiredStates) (c d : Proxy)
      (rx : Option ℕ)
      → stateless_handle p t c ≡ some (rx, d)
      → All (λ e. e.1 ≢ some d.id) missing
      → (f : Proxy) × (process_stateful_transaction t p missing c ≡ some f)
        × (f.spawned ≡ d.spawned ++ execution t rx missing ∷ [])
  unfolding process_stateful_transaction schedule_stateful_transaction
  process_stateful-spawned t p missing c d rx run own =
      elim (Option-cases (request_states missing d)) [
        | inl e ↦ absurd (request_states-returns missing d d.id refl own e)
        | inr (f, e) ↦ (
          spawn (execution t rx missing) f,
          cc (run, e),
          ap (λ s. s ++ execution t rx missing ∷ []) (request_states-spawned missing d f e),
        )
      ]

  handle_primary-separates :
      (t : TransactionWithTimestamp) (p : ℕ) (missing : RequiredStates) (c : Proxy)
      → c.mode ≡ proxy_separation
      → handle_primary_message (combined_txn t p missing) c
        ≡ process_stateful_transaction t p missing
            (process_stateless_transaction (E.make_verification_request t) c)
  unfolding handle_primary_message is_primary_separation is_proxy_separation
  handle_primary-separates t p missing c mode =
      let primary : is_primary_separation c.mode ≡ false = rw mode refl in
      let proxy : is_proxy_separation c.mode ≡ true = rw mode refl in rw (primary, proxy) refl

  -- When the proxy separates the stateless part, a combined transaction that names this proxy, that it has
  -- not met, whose missing states are with others, and whose verification request keeps the digest, is
  -- verified and executed by two tasks, of which the second has the receiver of the first one's sender.
  pub combined_txn_lem :
      (t : TransactionWithTimestamp) (c : Proxy) (missing : RequiredStates)
      → c.mode ≡ proxy_separation
      → request_digest (E.make_verification_request t) ≡ digest t
      → slot c.stateless_controller (digest t) ≡ none
      → All (λ e. e.1 ≢ some c.id) missing
      → (n : ℕ) × (d : Proxy) × (handle_primary_message (combined_txn t c.id missing) c ≡ some d)
        × (d.spawned
            ≡ (c.spawned ++ verification n (E.make_verification_request t) ∷ [])
              ++ execution t (some n) missing ∷ [])
  unfolding process_stateless_transaction is_proxy_separation
  combined_txn_lem t c missing mode same fresh own =
      let req : StatelessVerificationRequest = E.make_verification_request t in
      let c1 : Proxy = process_stateless_transaction req c in
      let handed =
        stateless_handle-here t c1 _ (rw mode refl)
          (verification-first req c (digest t) same fresh) in
      let (d, run, spawned) = process_stateful-spawned t c.id missing c1 _ _ handed own in
      (_, d, handle_primary-separates t c.id missing c mode ∙ run, spawned)

  -- An execution whose transaction is not verified, or does not pass the check of its versions, is
  -- reported without effects, leaves the store alone, and notifies its followers all the same.
  pub skipped_lem :
      (t : TransactionWithTimestamp) (verified : Bool) (dependencies : Dependencies) (c : Proxy)
      → ready_to_execute t verified c ≡ false
      → ((finish_execution t verified dependencies c).store ≡ c.store)
        × ((finish_execution t verified dependencies c).notified
            ≡ c.notified ++ dependencies.current_handles)
        × ((finish_execution t verified dependencies c).tx_results ≡ c.tx_results ++ skipped t ∷ [])
  unfolding finish_execution ready_to_execute
  skipped_lem t verified dependencies c h = ground (arith, h)

  -- If a proxy skips a transaction and has not an object at the version that the transaction was to
  -- produce, then its answer to a connected proxy that asks for this version has no object, and on
  -- that answer the asking proxy panics.
  pub skipped_then_asked :
      ⦃S : SequenceNumbers⦄
      → (t : TransactionWithTimestamp) (verified : Bool) (dependencies : Dependencies)
      → (owner asker : Proxy) (oid v : ℕ) → ready_to_execute t verified owner ≡ false
      → ((o : E.Object) → E.read_object owner.store oid ≡ some (some o) → E.version o ≢ v)
      → contains owner.tx_inter_proxy_replies asker.id ≡ true
      → ((answer_states asker.id
            ((oid, v) ∷ [])
            (finish_execution t verified dependencies owner)).sent
          ≡ (finish_execution t verified dependencies owner).sent
            ++ (asker.id, reply (stateful_reply [])) ∷ [])
        × (handle_proxy_message (reply (stateful_reply [])) asker ≡ none)
  unfolding finish_execution
  skipped_then_asked t verified dependencies owner asker oid v skip stale conn =
      let (same, _, _) = skipped_lem t verified dependencies owner skip in
      stale_state-panics (finish_execution t verified dependencies owner) asker oid v
        (λ o found. stale o (ap (λ s. E.read_object s oid) (sym same) ∙ found)) conn

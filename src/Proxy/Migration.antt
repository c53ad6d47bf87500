-- ===== src/Proxy/Migration.antt =====
-- A state that moves between proxies: the request, the answer, and the task that it wakes.
use remora.Prelude.{
  inr, Option-cases, inl, ◌⊎◌, ◌∙◌, ℕ, ◌≡◌, ◌≢◌, refl, List, [], ◌∷◌, ◌++◌, none, some, true, false,
  contains, nat_eq, arith, ==_iff, ap,
}
use remora.SequenceNumber.{SequenceNumbers, next}
use remora.Api.{NewStates, reply, stateful_reply}
use remora.Api.SharedObjects.{sorted_insert}
use remora.Execution.{Executor}
use remora.Versioned.{
  VersionedDependencyController, get_prior_dependency_and_update, calculate_next_version,
  max_version,
}
use remora.Versioned.Entry.{IsWellFormed, handle}
use remora.Versioned.Register.{HandlesAt}
use remora.Versioned.Next.{get_prior_lem}
use remora.Proxy.{spawn, Proxy, migration, send_msg_to_proxy}
use remora.Proxy.Peers.{prior_versions, handle_stateful_reply, handle_proxy_message}
use remora.Proxy.Tasks.{matching, read_states, answer_states}

module _ ⦃E : Executor⦄ ⦃S : SequenceNumbers⦄ where
  prior_versions-one :
      (oid u : ℕ) (o : E.Object)
      → E.version o ≡ next u
      → prior_versions ((oid, o) ∷ []) ≡ some ((oid, u) ∷ [])
  unfolding prior_versions
  prior_versions-one oid u o e =
      let before : S.one_before (E.version o) ≡ some u = ap S.one_before e ∙ S.one_before-next u in
      ground (arith, before)

  next_of-one : (oid u : ℕ) → calculate_next_version ((oid, u) ∷ []) ≡ some (next u)
  unfolding calculate_next_version max_version
  next_of-one oid u = refl

  -- One handle, which is at the key that it was made for.
  one_handle :
      (d : VersionedDependencyController) (k : ℕ × ℕ) (ns : List ℕ) (n : ℕ)
      → HandlesAt d (k ∷ []) ns
      → handle d k ≡ some n
      → ns ≡ n ∷ []
  one_handle d k [] n h e = absurd h
  one_handle d k (m ∷ []) n h e = ground (arith, h.0, e)
  one_handle d k (m ∷ l ∷ ns) n h e = absurd h.1

  -- A reply whose registration returns spawns the migration.
  handle_stateful_reply-spawns :
      (d : Proxy) (objects : NewStates E.Object) (vs : List (ℕ × ℕ)) (handles : List ℕ × List ℕ)
      (controller : VersionedDependencyController)
      → prior_versions objects ≡ some vs
      → get_prior_dependency_and_update 0 vs true false d.stateful_controller
        ≡ some (handles, controller)
      → handle_stateful_reply objects d
        ≡ some (spawn (migration objects handles.1) (record d { stateful_controller = controller }))
  unfolding handle_stateful_reply
  handle_stateful_reply-spawns d objects vs handles controller p r = cc (p, r)

  -- A task of the asking proxy waits for the object at the version that the reply has.
  handle_stateful_reply-one :
      (d : Proxy) (oid u n : ℕ) (o : E.Object)
      → IsWellFormed d.stateful_controller
      → handle d.stateful_controller (oid, next u) ≡ some n
      → E.version o ≡ next u
      → (d' : Proxy) × (handle_stateful_reply ((oid, o) ∷ []) d ≡ some d')
        × (d'.spawned ≡ d.spawned ++ migration ((oid, o) ∷ []) (n ∷ []) ∷ [])
  handle_stateful_reply-one d oid u n o w waits v =
      let (handles, controller, run, reg) =
        get_prior_lem 0 true false d.stateful_controller w ((oid, u) ∷ []) (next u)
          (next_of-one oid u) in
      let one : handles.1 ≡ n ∷ [] =
        one_handle controller (oid, next u) handles.1 n reg.nexts (reg.extends.keeps _ n waits) in
      (
        spawn (migration ((oid, o) ∷ []) handles.1) (record d { stateful_controller = controller }),
        handle_stateful_reply-spawns d ((oid, o) ∷ []) ((oid, u) ∷ []) handles controller
            (prior_versions-one oid u o v) run,
        ap (λ ns. d.spawned ++ migration ((oid, o) ∷ []) ns ∷ []) one,
      )

  -- What a read can return.
  read-cases :
      (store : E.Store) (oid : ℕ)
      → (E.read_object store oid ≡ none)
        ⊎ ((E.read_object store oid ≡ some none)
            ⊎ ((o : E.Object) × (E.read_object store oid ≡ some (some o))))
  read-cases store oid = elim (Option-cases (E.read_object store oid)) [
    | inl e ↦ inl e
    | inr (r, e) ↦ elim (Option-cases r) [
      | inl f ↦ inr (inl (e ∙ ap (λ x. some x) f))
      | inr (o, f) ↦ inr (inr (o, e ∙ ap (λ x. some x) f))
    ]
  ]

  -- The answer of a proxy that has the object at the requested version.
  read_states-one :
      (store : E.Store) (oid v : ℕ) (o : E.Object)
      → E.read_object store oid ≡ some (some o)
      → E.version o ≡ v
      → read_states store ((oid, v) ∷ []) [] ≡ (oid, o) ∷ []
  unfolding read_states matching sorted_insert
  read_states-one store oid v o found e = ground (arith, found, e, ==_iff (E.version o) v)

  read_states-stale :
      (store : E.Store) (oid v : ℕ)
      → ((o : E.Object) → E.read_object store oid ≡ some (some o) → E.version o ≢ v)
      → read_states store ((oid, v) ∷ []) [] ≡ []
  unfolding read_states matching
  read_states-stale store oid v stale = elim (read-cases store oid) [
    | inl none_there ↦ ground (arith, none_there)
    | inr (inl nothing) ↦ ground (arith, nothing)
    | inr (inr (o, found)) ↦ ground (arith, found, stale o found, ==_iff (E.version o) v)
  ]

  answer_states-sent :
      (owner : Proxy) (asker : ℕ) (requested : List (ℕ × ℕ)) (objects : NewStates E.Object)
      → contains owner.tx_inter_proxy_replies asker ≡ true
      → read_states owner.store requested [] ≡ objects
      → (answer_states asker requested owner).sent
        ≡ owner.sent ++ (asker, reply (stateful_reply objects)) ∷ []
  unfolding answer_states send_msg_to_proxy
  answer_states-sent owner asker requested objects conn e = rw (e, conn) refl

  -- A task of the asking proxy, whose controller is well formed, waits for an object at a version
  -- that is the next of some other. If a proxy that is connected to it has the object at that
  -- version, then its answer is the object, and on the answer the asking proxy spawns the task that
  -- stores it and notifies the handle for which the other task waits.
  pub migrate_lem :
      (owner asker : Proxy) (oid u n : ℕ) (o : E.Object)
      → IsWellFormed asker.stateful_controller
      → handle asker.stateful_controller (oid, next u) ≡ some n
      → E.read_object owner.store oid ≡ some (some o)
      → E.version o ≡ next u
      → contains owner.tx_inter_proxy_replies asker.id ≡ true
      → (asker' : Proxy) × ((answer_states asker.id ((oid, next u) ∷ []) owner).sent
          ≡ owner.sent ++ (asker.id, reply (stateful_reply ((oid, o) ∷ []))) ∷ [])
        × (handle_proxy_message (reply (stateful_reply ((oid, o) ∷ []))) asker ≡ some asker')
        × (asker'.spawned ≡ asker.spawned ++ migration ((oid, o) ∷ []) (n ∷ []) ∷ [])
  unfolding handle_proxy_message
  migrate_lem owner asker oid u n o w waits found v conn =
      let (d, run, spawned) = handle_stateful_reply-one asker oid u n o w waits v in
      (
        d,
        answer_states-sent owner asker.id ((oid, next u) ∷ []) ((oid, o) ∷ []) conn
            (read_states-one owner.store oid (next u) o found v),
        run,
        spawned,
      )

  -- If a proxy that is connected to the asking one has not the requested object at the requested
  -- version, then its answer has no object, and on that answer the asking proxy panics.
  pub stale_state-panics :
      (owner asker : Proxy) (oid v : ℕ)
      → ((o : E.Object) → E.read_object owner.store oid ≡ some (some o) → E.version o ≢ v)
      → contains owner.tx_inter_proxy_replies asker.id ≡ true
      → ((answer_states asker.id ((oid, v) ∷ []) owner).sent
          ≡ owner.sent ++ (asker.id, reply (stateful_reply [])) ∷ [])
        × (handle_proxy_message (reply (stateful_reply [])) asker ≡ none)
  unfolding handle_proxy_message handle_stateful_reply prior_versions
      get_prior_dependency_and_update calculate_next_version max_version
  stale_state-panics owner asker oid v stale conn = (
    answer_states-sent owner asker.id ((oid, v) ∷ []) [] conn
        (read_states-stale owner.store oid v stale),
    refl,
  )

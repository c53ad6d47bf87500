-- ===== src/LoadBalancer.antt =====
-- src/primary/load_balancer.rs, the loop of `run`: committed transactions are split by whether they
-- have shared objects. (The rest of the file starts the tasks that the other modules model.)
pub mod Split
use remora.Prelude.{List, [], ◌∷◌, ◌++◌, Bool, true, false, if◌then◌else◌}
use remora.Api.{TransactionWithTimestamp}

-- What the channels to the two forwarders were given.
pub record LoadBalancer : Type 0 where
  pub owned : List (List TransactionWithTimestamp)
  pub shared : List (List TransactionWithTimestamp)

abbrev pub is_empty {ℓ} : {A : Type ℓ} → List A → Bool
is_empty [] = true
is_empty (x ∷ xs) = false

-- `shared_object_ids.is_empty()`
abbrev pub is_owned : TransactionWithTimestamp → Bool
is_owned t = is_empty t.shared_objects

-- The `for` loop, which pushes to one vector or the other.
unfoldable pub separate :
    List TransactionWithTimestamp → List TransactionWithTimestamp × List TransactionWithTimestamp
separate [] = ([], [])
separate (t ∷ ts) =
    let (owned_txns, shared_txns) = separate ts in
    if is_owned t then (t ∷ owned_txns, shared_txns) else (owned_txns, t ∷ shared_txns)

-- Empty vectors are not sent.
abbrev send_some :
    List (List TransactionWithTimestamp)
    → List TransactionWithTimestamp
    → List (List TransactionWithTimestamp)
send_some sent [] = sent
send_some sent (t ∷ ts) = sent ++ (t ∷ ts) ∷ []

-- One round of the loop.
unfoldable pub on_committed : LoadBalancer → List TransactionWithTimestamp → LoadBalancer
unfolding separate
on_committed s transactions =
    let (owned_txns, shared_txns) = separate transactions in
    record { owned = send_some s.owned owned_txns; shared = send_some s.shared shared_txns }

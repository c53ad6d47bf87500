-- ===== src/OwnedForwarder.antt =====
-- src/primary/owned_obj_txn_forwarder.rs: transactions without shared objects go round the proxies.
-- The futures of a batch run in any order; the messages of each are in the order of its `send`s, and
-- are listed here by transaction. `none` is a panic.
pub mod RoundRobin
use remora.Prelude.{
  ℕ, ◌+◌, ◌%◌, List, [], ◌∷◌, ◌++◌, Option, none, some, if◌then◌else◌, ◌==◌, nat_eq, length,
  contains, Bool, true, false,
}
use remora.Config.{
  LoadBalancingPolicy, round_robin, zeus, dedicated, combined, two_tier, locality_load,
}
use remora.Api.{
  TransactionWithTimestamp, StatelessVerificationRequest, PrimaryToProxyMessage, txn, stateless_txn,
  combined_txn,
}

pub record OwnedObjTxnForwarder : Type 0 where
  pub proxy_connections : List ℕ
  pub policy : LoadBalancingPolicy
  pub index : ℕ

abbrev pub Messages : Type 0
Messages = List (ℕ × PrimaryToProxyMessage)

abbrev pub cons_some : Option Messages → Option (List Messages) → Option (List Messages)
cons_some none rest = none
cons_some (some m) none = none
cons_some (some m) (some rest) = some (m ∷ rest)

module _ (make_verification_request : TransactionWithTimestamp → StatelessVerificationRequest) where
  -- The messages of one future.
  unfoldable pub messages_for :
      List ℕ → LoadBalancingPolicy → ℕ → TransactionWithTimestamp → Option Messages
  messages_for connections round_robin idx t =
      if contains connections idx
      then some ((idx, stateless_txn (make_verification_request t)) ∷ (idx, txn t idx []) ∷ [])
      else some []
  messages_for connections zeus idx t =
      if contains connections idx
      then some ((idx, stateless_txn (make_verification_request t)) ∷ (idx, txn t idx []) ∷ [])
      else some []
  messages_for connections combined idx t =
      if contains connections idx then some ((idx, combined_txn t idx []) ∷ []) else some []
  messages_for connections dedicated idx t =
      if contains connections 0
      then (if contains connections 1
          then some ((0, stateless_txn (make_verification_request t)) ∷ (1, txn t 0 []) ∷ [])
          else none)
      else none
  messages_for connections two_tier idx t = none
  messages_for connections locality_load idx t = none

  -- The loop over the enumerated transactions, from number `i` on.
  unfoldable pub messages_from :
      OwnedObjTxnForwarder → ℕ → ℕ → List TransactionWithTimestamp → Option (List Messages)
  unfolding messages_for
  messages_from f start i [] = some []
  messages_from f start i (t ∷ ts) =
      cons_some
        (messages_for f.proxy_connections f.policy ((start + i) % length f.proxy_connections) t)
        (messages_from f start (i + 1) ts)

  unfoldable pub forward_owned_txns_in_parallel :
      OwnedObjTxnForwarder
      → List TransactionWithTimestamp
      → Option (List Messages) × OwnedObjTxnForwarder
  unfolding messages_from
  forward_owned_txns_in_parallel f transactions =
      let proxy_count = length f.proxy_connections in
      if proxy_count == 0 then (some [], f) else (
        messages_from f f.index 0 transactions,
        record f { index = (f.index + length transactions) % proxy_count },
      )

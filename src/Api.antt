-- ===== src/Api.antt =====
-- src/executor/api.rs: transactions, and the messages between the primary and the proxies.
-- Object ids, digests and proxy ids are numbers; a duration is its number of microseconds; the
-- timestamp, an f64 that is only carried along, is its bit pattern.
pub mod SharedObjects
use remora.Prelude.{ℕ, ◌≡◌, refl, Bool, Option, none, some, List, [], ◌∷◌, map}
use SharedObjects.{collect}

-- What the trait `ExecutableTransaction` tells of a transaction, less its Sui input kinds.
pub record ExecutableTransaction : Type 0 where
  pub digest : ℕ
  pub shared_object_ids : List ℕ

pub data StatelessCryptoScheme : Type 0 where
  ed25519_dalek bls12381_min_sig secp256k1_ecdsa p256_ecdsa secp256k1_schnorr :
      StatelessCryptoScheme

pub data StatelessVerificationRequest : Type 0 where
  synthetic : (digest duration : ℕ) → StatelessVerificationRequest
  crypto :
      (digest cost_hint : ℕ) (scheme : StatelessCryptoScheme) (public_key signature : List ℕ)
      → StatelessVerificationRequest

unfoldable pub request_digest : StatelessVerificationRequest → ℕ
request_digest (synthetic digest duration) = digest
request_digest (crypto digest cost_hint scheme public_key signature) = digest

unfoldable pub cost_hint : StatelessVerificationRequest → ℕ
cost_hint (synthetic digest duration) = duration
cost_hint (crypto digest hint scheme public_key signature) = hint

-- `shared_objects` is the BTreeMap of object ids, in the order of its iteration.
pub record TransactionWithTimestamp : Type 0 where
  pub transaction : ExecutableTransaction
  pub timestamp : ℕ
  pub shared_objects : List (ℕ × Option ℕ)
  pub verification_duration : ℕ
  pub expected_stateful_duration : ℕ

unfoldable pub new_transaction :
    ExecutableTransaction → ℕ → List ℕ → ℕ → ℕ → TransactionWithTimestamp
new_transaction transaction timestamp shared_object_ids verification stateful = record {
  transaction = transaction;
  timestamp = timestamp;
  shared_objects = collect (map (λ id. (id, none)) shared_object_ids);
  verification_duration = verification;
  expected_stateful_duration = stateful;
}

abbrev pub digest : TransactionWithTimestamp → ℕ
digest t = t.transaction.digest

-- A version of an object that a transaction needs, with the proxy that has it if it is another.
abbrev pub RequiredStates : Type 0
RequiredStates = List ((ℕ × ℕ) × Option ℕ)

pub data PrimaryToProxyMessage : Type 0 where
  txn : TransactionWithTimestamp → ℕ → RequiredStates → PrimaryToProxyMessage
  stateless_txn : StatelessVerificationRequest → PrimaryToProxyMessage
  combined_txn : TransactionWithTimestamp → ℕ → RequiredStates → PrimaryToProxyMessage

pub data InterProxyRequest : Type 0 where
  stateful_request : ℕ → List (ℕ × ℕ) → InterProxyRequest
  stateless_request : ℕ → ℕ → InterProxyRequest

-- An object is a value of the crate sui_types, of which only its version is looked at.
abbrev pub NewStates : Type 0 → Type 0
NewStates Object = List (ℕ × Object)

pub data InterProxyReply (Object : Type 0) : Type 0 where
  stateful_reply : NewStates Object → InterProxyReply Object
  stateless_reply : ℕ → Bool → InterProxyReply Object

pub data ProxyToProxyMessage (Object : Type 0) : Type 0 where
  request : InterProxyRequest → ProxyToProxyMessage Object
  reply : InterProxyReply Object → ProxyToProxyMessage Object

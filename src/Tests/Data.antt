-- ===== src/Tests/Data.antt =====
-- Transactions that the tests share.
use remora.Prelude.{ℕ, List, [], ◌∷◌, none, map}
use remora.Api.{digest, synthetic, StatelessVerificationRequest, TransactionWithTimestamp}

-- A transaction over shared objects, listed in the order of their ids.
abbrev pub over : ℕ → List ℕ → TransactionWithTimestamp
over digest ids = record {
  transaction = record { digest = digest; shared_object_ids = ids };
  timestamp = 0;
  shared_objects = map (λ id. (id, none)) ids;
  verification_duration = 200;
  expected_stateful_duration = 200;
}

-- Two transactions on object 7, and one between them that does not touch it.
abbrev pub mint : TransactionWithTimestamp
mint = over 1 (7 ∷ 9 ∷ [])

abbrev pub other : TransactionWithTimestamp
other = over 2 (9 ∷ [])

abbrev pub trade : TransactionWithTimestamp
trade = over 3 (7 ∷ 9 ∷ [])

-- A request that takes as long as the transaction says.
abbrev pub request_for : TransactionWithTimestamp → StatelessVerificationRequest
request_for t = synthetic (digest t) t.verification_duration

-- ===== src/Execution.antt =====
-- src/executor/api.rs, the traits `StateStore` and `Executor`: what the proxy calls of an executor and
-- its store. An execution returns the store that it leaves.
pub mod Store
use remora.Prelude.{ℕ, List, Bool, Option}
use remora.Api.{TransactionWithTimestamp, StatelessVerificationRequest, NewStates}

pub record ExecutionResults (Object Effects : Type 0) : Type 0 where
  pub transaction : TransactionWithTimestamp
  pub updates : Option Effects
  pub new_state : Option (NewStates Object)

-- `read_object` is `none` on an error of the store; `has_shared_input` is the test of the input kinds
-- of a transaction for a shared object, which are Sui's.
pub record Executor : Type 1 where
  pub Object : Type 0
  pub Effects : Type 0
  pub Store : Type 0
  pub ExecutionContext : Type 0
  pub version : Object → ℕ
  pub read_object : Store → ℕ → Option (Option Object)
  pub commit_new_objects : Store → NewStates Object → Store
  pub execute :
      ExecutionContext → Store → TransactionWithTimestamp → ExecutionResults Object Effects × Store
  pub pre_execute_check : ExecutionContext → Store → TransactionWithTimestamp → Bool
  pub assign_shared_object_versions_with_required_versions :
      ExecutionContext → TransactionWithTimestamp → List (ℕ × ℕ) → ExecutionContext
  pub make_verification_request : TransactionWithTimestamp → StatelessVerificationRequest
  pub verify_transaction : ExecutionContext → StatelessVerificationRequest → Bool
  pub has_shared_input : TransactionWithTimestamp → Bool

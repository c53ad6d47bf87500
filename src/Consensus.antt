-- ===== src/Consensus.antt =====
-- src/primary/mock_consensus.rs: transactions are gathered into batches, which a delay later become
-- commits. The loop's `select!` takes any branch that is ready, so its runs are a relation.
-- The delay models of the file return the batch that they are given.
pub mod Invariant
pub mod Order
use remora.Prelude.{
  ℕ, ◌+◌, ◌-◌, ◌≡◌, ◌<◌, List, [], ◌∷◌, ◌++◌, Bool, true, false, if◌then◌else◌, leb, length,
}
use remora.Config.{
  SeparationMode, no_separation, proxy_separation, primary_pre_separation, primary_post_separation,
}
use remora.Api.{TransactionWithTimestamp, StatelessVerificationRequest}

-- Both sizes are `NonZeroUsize`.
pub record MockConsensusParameters : Type 0 where
  pub batch_size : ℕ
  pub max_inflight_batches : ℕ
  pub batch_size_pos : 0 < batch_size
  pub max_inflight_batches_pos : 0 < max_inflight_batches

abbrev pub ConsensusCommit : Type 0
ConsensusCommit = List TransactionWithTimestamp

-- `waiter` holds the batches under way; the last three lists are what the channels were given:
-- the primary executor's, the stateless one and the pre-consensus one.
pub record MockConsensus : Type 0 where
  pub current_batch : ConsensusCommit
  pub current_inflight_batches : ℕ
  pub waiter : List ConsensusCommit
  pub commits : List ConsensusCommit
  pub stateless_txns : List StatelessVerificationRequest
  pub pre_consensus : List ConsensusCommit
  pub stopped : Bool

unfoldable pub new_consensus : MockConsensus
new_consensus = record {
  current_batch = [];
  current_inflight_batches = 0;
  waiter = [];
  commits = [];
  stateless_txns = [];
  pre_consensus = [];
  stopped = false;
}

-- The batch is drained, goes under way and to the pre-consensus scheduler.
unfoldable pub seal : MockConsensus → MockConsensus
seal s = record s {
  current_inflight_batches = s.current_inflight_batches + 1;
  current_batch = [];
  waiter = s.waiter ++ s.current_batch ∷ [];
  pre_consensus = s.pre_consensus ++ s.current_batch ∷ [];
}

-- separation_mode == SeparationMode::PrimaryPreSeparation
unfoldable pub is_pre : SeparationMode → Bool
is_pre no_separation = false
is_pre proxy_separation = false
is_pre primary_pre_separation = true
is_pre primary_post_separation = false

-- The timer's branch. `closed` says whether the primary executor dropped its channel.
unfoldable pub timer_of : ConsensusCommit → Bool → MockConsensus → MockConsensus
timer_of [] closed s = if closed then record s { stopped = true } else s
timer_of (t ∷ ts) closed s = seal s

unfoldable pub on_timer : Bool → MockConsensus → MockConsensus
on_timer closed s = timer_of s.current_batch closed s

-- The branch of a batch `commit` that the consensus is done with; `rest` is what stays under way,
-- and `closed` is as above.
unfoldable pub on_commit :
    Bool → ConsensusCommit → List ConsensusCommit → MockConsensus → MockConsensus
on_commit closed commit rest s =
    let s' : MockConsensus = record s {
      current_inflight_batches = s.current_inflight_batches - 1;
      waiter = rest;
    } in
    if closed
    then record s' { stopped = true }
    else record s' { commits = s.commits ++ commit ∷ [] }

module _ (parameters : MockConsensusParameters) (separation_mode : SeparationMode)
    (make_verification_request : TransactionWithTimestamp → StatelessVerificationRequest) where
  -- In the pre-consensus mode the stateless part leaves at once.
  unfoldable pub forward_stateless : TransactionWithTimestamp → MockConsensus → MockConsensus
  forward_stateless t s =
      if is_pre separation_mode
      then record s { stateless_txns = s.stateless_txns ++ make_verification_request t ∷ [] }
      else s

  unfoldable pub push_transaction : TransactionWithTimestamp → MockConsensus → MockConsensus
  push_transaction t s =
      let s' : MockConsensus = record s { current_batch = s.current_batch ++ t ∷ [] } in
      if leb parameters.batch_size (length s'.current_batch) then seal s' else s'

  -- The branch of a received transaction.
  unfoldable pub on_transaction : TransactionWithTimestamp → MockConsensus → MockConsensus
  on_transaction t s = push_transaction t (forward_stateless t s)

  -- The states that the loop can reach when it has received the given transactions.
  pub data Reach : List TransactionWithTimestamp → MockConsensus → Type 0 where
    start : Reach [] new_consensus
    receive :
        {ts : List TransactionWithTimestamp} {s : MockConsensus} (t : TransactionWithTimestamp)
        → Reach ts s
        → s.stopped ≡ false
        → s.current_inflight_batches < parameters.max_inflight_batches
        → Reach (ts ++ t ∷ []) (on_transaction t s)
    timer :
        {ts : List TransactionWithTimestamp} {s : MockConsensus} (closed : Bool)
        → Reach ts s
        → s.stopped ≡ false
        → Reach ts (on_timer closed s)
    committed :
        {ts : List TransactionWithTimestamp} {s : MockConsensus} (closed : Bool)
        (before after : List ConsensusCommit) (commit : ConsensusCommit)
        → Reach ts s
        → s.stopped ≡ false
        → s.waiter ≡ before ++ commit ∷ after
        → Reach ts (on_commit closed commit (before ++ after) s)

-- ===== src/Tests/Consensus.antt =====
-- A run of the mock consensus: a full batch, a batch that the timer seals, and a commit.
use mathlib.Core.List.{Perm}
use remora.Prelude.{concat, ◌≡◌, ◌++◌, refl, [], ◌∷◌, arith, false}
use remora.Api.{TransactionWithTimestamp}
use remora.Config.{primary_pre_separation}
use remora.Consensus.{
  MockConsensusParameters, MockConsensus, new_consensus, on_transaction, on_timer, on_commit, Reach,
  start, receive, timer, committed,
}
use remora.Consensus.Invariant.{Inv, Reach-Inv}
use remora.Consensus.Order.{scheduled, Reach-scheduled, Reach-conserves}
use remora.Tests.Data.{mint, other, trade, request_for}

abbrev by_two : MockConsensusParameters
by_two = record {
  batch_size = 2;
  max_inflight_batches = 2;
  batch_size_pos = omega arith;
  max_inflight_batches_pos = omega arith;
}

abbrev receives : MockConsensus → TransactionWithTimestamp → MockConsensus
receives s t = on_transaction by_two primary_pre_separation request_for t s

abbrev three_in : MockConsensus
three_in = on_timer false (receives (receives (receives new_consensus mint) other) trade)

three_in-Reach :
    Reach by_two primary_pre_separation request_for (mint ∷ other ∷ trade ∷ []) three_in
unfolding on_transaction on_timer new_consensus remora.Consensus.push_transaction
    remora.Consensus.forward_stateless remora.Consensus.is_pre remora.Consensus.seal
three_in-Reach =
    timer false
      (receive trade (receive other (receive mint start refl (omega arith)) refl (omega arith)) refl
        (omega arith))
      refl

three_in-runs : three_in.stopped ≡ false
unfolding on_transaction on_timer new_consensus remora.Consensus.timer_of
    remora.Consensus.push_transaction remora.Consensus.forward_stateless remora.Consensus.is_pre
    remora.Consensus.seal
three_in-runs = refl

Reach-Inv_example : Inv by_two three_in
Reach-Inv_example = Reach-Inv by_two primary_pre_separation request_for three_in-Reach

Reach-scheduled_example : scheduled three_in ≡ mint ∷ other ∷ trade ∷ []
Reach-scheduled_example = Reach-scheduled by_two primary_pre_separation request_for three_in-Reach

Reach-conserves_example :
    Perm
      (concat (three_in.commits ++ three_in.waiter) ++ three_in.current_batch)
      (mint ∷ other ∷ trade ∷ [])
Reach-conserves_example =
    Reach-conserves by_two primary_pre_separation request_for three_in-Reach three_in-runs

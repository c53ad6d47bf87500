-- ===== src/Consensus/Invariant.antt =====
-- Batch sizes and the number of batches under way.
use remora.Prelude.{
  ap, ◌+◌, ◌≡◌, ◌≢◌, ◌<◌, ◌≤◌, refl, List, [], ◌∷◌, ◌++◌, Bool, true, false, leb, length,
  length-append, All, All-append, arith, Bool-cases, inl, inr,
}
use remora.Config.{SeparationMode}
use remora.Api.{TransactionWithTimestamp, StatelessVerificationRequest}
use remora.Consensus.{
  MockConsensusParameters, MockConsensus, ConsensusCommit, new_consensus, seal, on_timer, on_commit,
  forward_stateless, push_transaction, on_transaction, Reach, start, receive, timer, committed,
  timer_of,
}

module _ (parameters : MockConsensusParameters) where
  -- A batch that left has at least one transaction, and no more than the batch size.
  abbrev pub Sized : ConsensusCommit → Type 0
  Sized b = (0 < length b) × (length b ≤ parameters.batch_size)

  pub record Inv (s : MockConsensus) : Type 0 where
    pub counted : s.current_inflight_batches ≡ length s.waiter
    pub open_batch : length s.current_batch < parameters.batch_size
    pub limited : s.current_inflight_batches ≤ parameters.max_inflight_batches
    pub waiting :
        s.current_batch ≢ [] → s.current_inflight_batches < parameters.max_inflight_batches
    pub sized : All Sized s.pre_consensus

  new_consensus-Inv : Inv new_consensus
  unfolding new_consensus
  new_consensus-Inv = record {
    counted = refl;
    open_batch = parameters.batch_size_pos;
    limited = omega arith;
    waiting = λ ne. absurd (ne refl);
    sized = tt;
  }

  -- Sealing a batch of an allowed size while there is room.
  seal-Inv :
      (s : MockConsensus)
      → s.current_inflight_batches ≡ length s.waiter
      → s.current_inflight_batches < parameters.max_inflight_batches
      → Sized s.current_batch
      → All Sized s.pre_consensus
      → Inv (seal s)
  unfolding seal
  seal-Inv s counted room sized earlier = record {
    counted = omega (arith, length-append s.waiter (s.current_batch ∷ []));
    open_batch = parameters.batch_size_pos;
    limited = omega arith;
    waiting = λ ne. absurd (ne refl);
    sized = All-append Sized s.pre_consensus (s.current_batch ∷ []) earlier (sized, tt);
  }

  timer_of-Inv :
      (b : ConsensusCommit) (closed : Bool) (s : MockConsensus)
      → s.current_batch ≡ b
      → Inv s
      → Inv (timer_of b closed s)
  unfolding timer_of
  timer_of-Inv [] true s e h = record {
    counted = h.counted;
    open_batch = h.open_batch;
    limited = h.limited;
    waiting = h.waiting;
    sized = h.sized;
  }
  timer_of-Inv [] false s e h = h
  timer_of-Inv (t ∷ ts) closed s e h =
      seal-Inv s h.counted (h.waiting (λ nil. cc (e, nil)))
        (omega (arith, ap length e), omega (arith, h.open_batch)) h.sized

  on_commit-Inv :
      (closed : Bool) (before after : List ConsensusCommit) (commit : ConsensusCommit)
      (s : MockConsensus)
      → s.waiter ≡ before ++ commit ∷ after
      → Inv s
      → Inv (on_commit closed commit (before ++ after) s)
  unfolding on_commit
  on_commit-Inv closed before after commit s e h =
      let fewer : s.current_inflight_batches ≡ length (before ++ after) + 1 = omega (
        arith,
        h.counted,
        ap length e,
        length-append before (commit ∷ after),
        length-append before after,
      ) in
      elim (Bool-cases closed) [
        | inl c ↦ rw c (record {
          counted = omega arith;
          open_batch = h.open_batch;
          limited = omega (arith, h.limited);
          waiting = λ ne. omega (arith, h.waiting ne);
          sized = h.sized;
        })
        | inr c ↦ rw c (record {
          counted = omega arith;
          open_batch = h.open_batch;
          limited = omega (arith, h.limited);
          waiting = λ ne. omega (arith, h.waiting ne);
          sized = h.sized;
        })
      ]

  module _ (mode : SeparationMode)
      (make_request : TransactionWithTimestamp → StatelessVerificationRequest) where
    forward_stateless-Inv :
        (t : TransactionWithTimestamp) (s : MockConsensus)
        → Inv s
        → Inv (forward_stateless parameters mode make_request t s)
    unfolding forward_stateless
    forward_stateless-Inv t s h = ground arith

    push_transaction-Inv :
        (t : TransactionWithTimestamp) (s : MockConsensus)
        → s.current_inflight_batches < parameters.max_inflight_batches
        → Inv s
        → Inv (push_transaction parameters mode make_request t s)
    unfolding push_transaction
    push_transaction-Inv t s room h =
        let batch : ConsensusCommit = s.current_batch ++ t ∷ [] in
        let len : length batch ≡ length s.current_batch + 1 =
          omega (arith, length-append s.current_batch (t ∷ [])) in
        elim (Bool-cases (leb parameters.batch_size (length batch))) [
          | inl full ↦ rw full (
              seal-Inv (record s { current_batch = batch }) h.counted room
                (omega (arith, len), omega (arith, len, h.open_batch)) h.sized)
          | inr partial ↦ rw partial (record {
            counted = h.counted;
            open_batch = ground (arith, partial);
            limited = h.limited;
            waiting = λ ne. room;
            sized = h.sized;
          })
        ]

    inflight-forward_stateless :
        (t : TransactionWithTimestamp) (s : MockConsensus)
        → (forward_stateless parameters mode make_request t s).current_inflight_batches
          ≡ s.current_inflight_batches
    unfolding forward_stateless
    inflight-forward_stateless t s = ground arith

    on_transaction-Inv :
        (t : TransactionWithTimestamp) (s : MockConsensus)
        → s.current_inflight_batches < parameters.max_inflight_batches
        → Inv s
        → Inv (on_transaction parameters mode make_request t s)
    unfolding on_transaction
    on_transaction-Inv t s room h =
        push_transaction-Inv t (forward_stateless parameters mode make_request t s)
          (omega (arith, inflight-forward_stateless t s)) (forward_stateless-Inv t s h)

    -- Whatever branches the loop takes: the counter is the number of batches under way and never
    -- passes its limit, although the timer seals without a look at it; the open batch stays below
    -- the batch size; and each batch that left has between one and that many transactions.
    pub Reach-Inv :
        {ts : List TransactionWithTimestamp} {s : MockConsensus}
        → Reach parameters mode make_request ts s
        → Inv s
    unfolding on_timer
    Reach-Inv start = new_consensus-Inv
    Reach-Inv (receive {s = s} t r running room) = on_transaction-Inv t s room (Reach-Inv r)
    Reach-Inv (timer {s = s} closed r running) =
        timer_of-Inv s.current_batch closed s refl (Reach-Inv r)
    Reach-Inv (committed {s = s} closed before after commit r running e) =
        on_commit-Inv closed before after commit s e (Reach-Inv r)

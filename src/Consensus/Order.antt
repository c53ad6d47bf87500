-- ===== src/Consensus/Order.antt =====
-- The transactions of the loop of `run`, from the channel to the scheduler and to the commits.
use mathlib.Core.List.{Permᴰ, Perm, append-nil, append_assoc, perm_middle, perm_append_comm}
use mathlib.Core.List.Perm
use mathlib.Core.Logic.{∥∥₁_elim}
use remora.Prelude.{
  concat, ◌≡◌, refl, sym, ap, ◌∙◌, subst, List, [], ◌∷◌, ◌++◌, Bool, true, false, leb, length,
  arith, Bool-cases, inl, inr,
}
use remora.Config.{SeparationMode}
use remora.Api.{TransactionWithTimestamp, StatelessVerificationRequest}
use remora.Consensus.{
  MockConsensusParameters, MockConsensus, ConsensusCommit, new_consensus, seal, timer_of, on_timer,
  on_commit, forward_stateless, push_transaction, on_transaction, Reach, start, receive, timer,
  committed, is_pre,
}

concat-append : (xs bs : List ConsensusCommit) → concat (xs ++ bs) ≡ concat xs ++ concat bs
concat-append [] bs = refl
concat-append (a ∷ xs) bs =
    ap (λ r. a ++ r) (concat-append xs bs) ∙ sym (append_assoc a (concat xs) (concat bs))

-- What the scheduler was sent, and what is still gathered.
abbrev pub scheduled : MockConsensus → List TransactionWithTimestamp
scheduled s = concat s.pre_consensus ++ s.current_batch

concat-one :
    (bs : List ConsensusCommit) (b : ConsensusCommit) → concat (bs ++ b ∷ []) ≡ concat bs ++ b
concat-one bs b = concat-append bs (b ∷ []) ∙ ap (λ r. concat bs ++ r) (append-nil b)

scheduled-seal : (s : MockConsensus) → scheduled (seal s) ≡ scheduled s
unfolding seal
scheduled-seal s =
    append-nil (concat (s.pre_consensus ++ s.current_batch ∷ []))
    ∙ concat-one s.pre_consensus s.current_batch

scheduled-timer_of :
    (b : ConsensusCommit) (closed : Bool) (s : MockConsensus)
    → scheduled (timer_of b closed s) ≡ scheduled s
unfolding timer_of
scheduled-timer_of [] true s = refl
scheduled-timer_of [] false s = refl
scheduled-timer_of (t ∷ ts) closed s = scheduled-seal s

module _ (parameters : MockConsensusParameters) (mode : SeparationMode)
    (make_request : TransactionWithTimestamp → StatelessVerificationRequest) where
  scheduled-push :
      (t : TransactionWithTimestamp) (s : MockConsensus)
      → scheduled (push_transaction parameters mode make_request t s) ≡ scheduled s ++ t ∷ []
  unfolding push_transaction
  scheduled-push t s =
      let s' : MockConsensus = record s { current_batch = s.current_batch ++ t ∷ [] } in
      let pushed : scheduled s' ≡ scheduled s ++ t ∷ [] =
        sym (append_assoc (concat s.pre_consensus) s.current_batch (t ∷ [])) in
      elim (Bool-cases (leb parameters.batch_size (length s'.current_batch))) [
        | inl full ↦ rw full (scheduled-seal s' ∙ pushed)
        | inr partial ↦ rw partial pushed
      ]

  scheduled-on_transaction :
      (t : TransactionWithTimestamp) (s : MockConsensus)
      → scheduled (on_transaction parameters mode make_request t s) ≡ scheduled s ++ t ∷ []
  unfolding on_transaction
  scheduled-on_transaction t s =
      scheduled-push t (forward_stateless parameters mode make_request t s)
      ∙ ap (λ r. r ++ t ∷ []) (unfold forward_stateless in ground arith)

  scheduled-on_commit :
      (closed : Bool) (commit : ConsensusCommit) (rest : List ConsensusCommit) (s : MockConsensus)
      → scheduled (on_commit closed commit rest s) ≡ scheduled s
  unfolding on_commit
  scheduled-on_commit true commit rest s = refl
  scheduled-on_commit false commit rest s = refl

  -- Whatever branches the loop takes, the batches that the pre-consensus scheduler was sent, with
  -- the open batch behind them, are the received transactions in their order.
  pub Reach-scheduled :
      {ts : List TransactionWithTimestamp} {s : MockConsensus}
      → Reach parameters mode make_request ts s
      → scheduled s ≡ ts
  unfolding on_timer
  Reach-scheduled start = unfold new_consensus in refl
  Reach-scheduled (receive {s = s} t r running room) =
      scheduled-on_transaction t s ∙ ap (λ l. l ++ t ∷ []) (Reach-scheduled r)
  Reach-scheduled (timer {s = s} closed r running) =
      scheduled-timer_of s.current_batch closed s ∙ Reach-scheduled r
  Reach-scheduled (committed {s = s} closed before after commit r running e) =
      scheduled-on_commit closed commit (before ++ after) s ∙ Reach-scheduled r

-- Every batch that was sealed is under way or committed.
abbrev pub Accounted : MockConsensus → Type 0
Accounted s = Perm (s.commits ++ s.waiter) s.pre_consensus

Accounted-seal : (s : MockConsensus) → Accounted s → Accounted (seal s)
unfolding seal
Accounted-seal s h =
    rw (← append_assoc s.commits s.waiter (s.current_batch ∷ [])) (Perm.append_right _ h)

Accounted-timer_of :
    (b : ConsensusCommit) (closed : Bool) (s : MockConsensus)
    → Accounted s
    → Accounted (timer_of b closed s)
unfolding timer_of
Accounted-timer_of [] true s h = h
Accounted-timer_of [] false s h = h
Accounted-timer_of (t ∷ ts) closed s h = Accounted-seal s h

Accounted-commit :
    (commit : ConsensusCommit) (before after : List ConsensusCommit) (s : MockConsensus)
    → s.waiter ≡ before ++ commit ∷ after
    → Accounted s
    → Accounted (on_commit false commit (before ++ after) s)
unfolding on_commit
Accounted-commit commit before after s e h =
    rw (append_assoc s.commits (commit ∷ []) (before ++ after)) (
      Perm.trans (Perm.append_left s.commits (Perm.symm (perm_middle before after)))
        (subst (λ w. Perm (s.commits ++ w) s.pre_consensus) e h))

concat-Permᴰ : {xs ys : List ConsensusCommit} → Permᴰ xs ys → Perm (concat xs) (concat ys)
concat-Permᴰ Permᴰ.nil = Perm.nil
concat-Permᴰ (Permᴰ.cons {a = a} e p) = rw (← e) (Perm.append_left a (concat-Permᴰ p))
concat-Permᴰ (Permᴰ.swap {a = a} {b = b} {l = l} e f) =
    rw (← e, ← f, ← append_assoc a b (concat l), ← append_assoc b a (concat l))
      (Perm.append_right (concat l) (perm_append_comm a b))
concat-Permᴰ (Permᴰ.trans p q) = Perm.trans (concat-Permᴰ p) (concat-Permᴰ q)

concat-perm : {xs ys : List ConsensusCommit} → Perm xs ys → Perm (concat xs) (concat ys)
concat-perm p = ∥∥₁_elim p squash₁ concat-Permᴰ

module _ (parameters : MockConsensusParameters) (mode : SeparationMode)
    (make_request : TransactionWithTimestamp → StatelessVerificationRequest) where
  Accounted-forward_stateless :
      (t : TransactionWithTimestamp) (s : MockConsensus)
      → Accounted s
      → Accounted (forward_stateless parameters mode make_request t s)
  unfolding forward_stateless
  Accounted-forward_stateless t s h = elim (Bool-cases (is_pre mode)) [
    | inl pre ↦ rw pre h
    | inr other ↦ rw other h
  ]

  Accounted-on_transaction :
      (t : TransactionWithTimestamp) (s : MockConsensus)
      → Accounted s
      → Accounted (on_transaction parameters mode make_request t s)
  unfolding on_transaction push_transaction
  Accounted-on_transaction t s h =
      let s1 : MockConsensus = forward_stateless parameters mode make_request t s in
      let s2 : MockConsensus = record s1 { current_batch = s1.current_batch ++ t ∷ [] } in
      let h2 : Accounted s2 = Accounted-forward_stateless t s h in
      elim (Bool-cases (leb parameters.batch_size (length s2.current_batch))) [
        | inl full ↦ rw full (Accounted-seal s2 h2)
        | inr partial ↦ rw partial h2
      ]

  Reach-Accounted :
      {ts : List TransactionWithTimestamp} {s : MockConsensus}
      → Reach parameters mode make_request ts s
      → s.stopped ≡ false
      → Accounted s
  unfolding on_timer on_commit
  Reach-Accounted start run = unfold new_consensus in Perm.nil
  Reach-Accounted (receive {s = s} t r running room) run =
      Accounted-on_transaction t s (Reach-Accounted r running)
  Reach-Accounted (timer {s = s} closed r running) run =
      Accounted-timer_of s.current_batch closed s (Reach-Accounted r running)
  Reach-Accounted (committed {s = s} true before after commit r running e) run = cc
  Reach-Accounted (committed {s = s} false before after commit r running e) run =
      Accounted-commit commit before after s e (Reach-Accounted r running)

  -- As long as the loop runs, the committed batches, those under way and the open one together hold
  -- exactly the received transactions, each as often as it was received.
  pub Reach-conserves :
      {ts : List TransactionWithTimestamp} {s : MockConsensus}
      → Reach parameters mode make_request ts s
      → s.stopped ≡ false
      → Perm (concat (s.commits ++ s.waiter) ++ s.current_batch) ts
  Reach-conserves {s = s} r run =
      subst (λ l. Perm (concat (s.commits ++ s.waiter) ++ s.current_batch) l)
        (Reach-scheduled parameters mode make_request r)
        (Perm.append_right s.current_batch (concat-perm (Reach-Accounted r run)))

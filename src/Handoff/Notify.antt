-- ===== src/Handoff/Notify.antt =====
-- The registrations of a transaction and of the next one on an object, with calls in between.
use remora.Prelude.{
  sym, subst, ◌∙◌, ℕ, ◌≤◌, ◌<◌, ◌≡◌, true, false, List, Option, some, arith, Map, pair_eq, nat_eq,
  All,
}
use remora.SequenceNumber.{SequenceNumbers}
use remora.Api.{TransactionWithTimestamp}
use remora.Versions.{initial_version, current_version, assign_shared_object_versions}
use remora.Versions.Laws.{touches, AtLeastInitial}
use remora.Versions.Chain.{
  after-AtLeastInitial, after, after_all, new_version, after-version, current-lt-new,
  after_all-untouched, after_all-AtLeastInitial,
}
use remora.Versioned.{VersionedDependencyController, get_prior_dependency_and_update}
use remora.Versioned.Entry.{handle, IsWellFormed}
use remora.Versioned.Register.{HandlesAt, awaited, produced}
use remora.Versioned.Next.{get_prior_lem}
use remora.Versioned.Runs.{Call, run, run_lem, Named, Spares}
use remora.Handoff.Keys.{required-new_version, given, given-handle, signals_at, awaits_at}

module _ ⦃S : SequenceNumbers⦄ where
  -- What the primary's forwarder and a proxy make of a transaction's required versions.
  abbrev pub registers_for :
      ℕ
      → List (ℕ × ℕ)
      → VersionedDependencyController
      → Option ((List ℕ × List ℕ) × VersionedDependencyController)
  registers_for task required = get_prior_dependency_and_update task required false false

  -- Transaction `u` follows `t` on the object `id`: only transactions that do not touch it have
  -- their versions assigned in between.
  pub record Follows (m : Map ℕ ℕ) (t u : TransactionWithTimestamp)
      (between : List TransactionWithTimestamp) (id : ℕ) : Type 0 where
    pub valid : AtLeastInitial m
    pub first : touches t id ≡ true
    pub last : touches u id ≡ true
    pub untouched : All (λ x. touches x id ≡ false) between

  -- What the transaction requires, and what its follower does.
  abbrev pub first_required : Map ℕ ℕ → TransactionWithTimestamp → List (ℕ × ℕ)
  first_required m t = (assign_shared_object_versions m t).required

  abbrev pub last_required :
      Map ℕ ℕ → (t u : TransactionWithTimestamp) → List TransactionWithTimestamp → List (ℕ × ℕ)
  last_required m t u between =
      (assign_shared_object_versions (after_all (after m t) between) u).required

  -- Both registrations return, with the calls of others between them, and for the key of the
  -- hand-over the handle to signal is the handle to await.
  abbrev pub SignalThenAwait :
      Map ℕ ℕ
      → (t u : TransactionWithTimestamp) → List TransactionWithTimestamp
      → ℕ
      → VersionedDependencyController
      → (task task' : ℕ) → List Call
      → Type 0
  SignalThenAwait m t u between id c task task' calls =
      (hs hs' : List ℕ × List ℕ) × (d e f : VersionedDependencyController) × (n : ℕ)
      × (registers_for task (first_required m t) c ≡ some (hs, d))
      × (run calls d ≡ some e)
      × (registers_for task' (last_required m t u between) e ≡ some (hs', f))
      × (given (produced (new_version m t) false (first_required m t)) hs.1 (id, new_version m t)
          ≡ some n)
      × (given (awaited initial_version false (last_required m t u between)) hs'.0
            (id, new_version m t)
          ≡ some n)

  abbrev pub AwaitThenSignal :
      Map ℕ ℕ
      → (t u : TransactionWithTimestamp) → List TransactionWithTimestamp
      → ℕ
      → VersionedDependencyController
      → (task task' : ℕ) → List Call
      → Type 0
  AwaitThenSignal m t u between id c task task' calls =
      (hs hs' : List ℕ × List ℕ) × (d e f : VersionedDependencyController) × (n : ℕ)
      × (registers_for task' (last_required m t u between) c ≡ some (hs', d))
      × (run calls d ≡ some e)
      × (registers_for task (first_required m t) e ≡ some (hs, f))
      × (given (produced (new_version m t) false (first_required m t)) hs.1 (id, new_version m t)
          ≡ some n)
      × (given (awaited initial_version false (last_required m t u between)) hs'.0
            (id, new_version m t)
          ≡ some n)

  module _ (m : Map ℕ ℕ) (t u : TransactionWithTimestamp) (between : List TransactionWithTimestamp)
      (id : ℕ) (follows : Follows m t u between id) where
    -- The key of the hand-over.
    abbrev shared_key : ℕ × ℕ
    shared_key = (id, new_version m t)

    abbrev firsts : List (ℕ × ℕ)
    firsts = first_required m t

    abbrev lasts : List (ℕ × ℕ)
    lasts = last_required m t u between

    inherited : current_version (after_all (after m t) between) id ≡ new_version m t
    inherited = ground (
      arith,
      after-version m t id,
      follows.first,
      after_all-untouched (after m t) between id follows.untouched,
    )

    still_valid : AtLeastInitial (after_all (after m t) between)
    still_valid =
        after_all-AtLeastInitial (after m t) between (after-AtLeastInitial m t follows.valid)

    above : initial_version < new_version m t
    above =
        let low : initial_version ≤ current_version m id = follows.valid id in
        omega (arith, current-lt-new m t id follows.first)

    -- Either registration, alone: it returns, and its handle for the key is the key's in the map.
    record Registers (task : ℕ) (required keys : List (ℕ × ℕ)) (side : List ℕ × List ℕ → List ℕ)
        (c : VersionedDependencyController) : Type 0 where
      handles : List ℕ × List ℕ
      after_it : VersionedDependencyController
      notify : ℕ
      runs : registers_for task required c ≡ some (handles, after_it)
      well_formed : IsWellFormed after_it
      keeps : (n : ℕ) → handle c shared_key ≡ some n → handle after_it shared_key ≡ some n
      gives : given keys (side handles) shared_key ≡ some notify
      holds : handle after_it shared_key ≡ some notify

    module _ (c : VersionedDependencyController) (w : IsWellFormed c) (task : ℕ) where
      first-Registers : Registers task firsts (produced (new_version m t) false firsts) (λ h. h.1) c
      first-Registers =
          let (hs, d, runs, reg) =
            get_prior_lem task false false c w firsts (new_version m t)
              (required-new_version m t id follows.valid follows.first) in
          let (n, gives, holds) =
            given-handle d (produced (new_version m t) false firsts) hs.1 shared_key reg.nexts
              (signals_at m t id (new_version m t) follows.first) in
          record {
            handles = hs;
            after_it = d;
            notify = n;
            runs = runs;
            well_formed = reg.well_formed;
            keeps = reg.extends.keeps shared_key;
            gives = gives;
            holds = holds;
          }

      last-Registers : Registers task lasts (awaited initial_version false lasts) (λ h. h.0) c
      last-Registers =
          let m' : Map ℕ ℕ = after_all (after m t) between in
          let (hs, d, runs, reg) =
            get_prior_lem task false false c w lasts (new_version m' u)
              (required-new_version m' u id still_valid follows.last) in
          let priors : HandlesAt d (awaited initial_version false lasts) hs.0 =
            subst (λ i. HandlesAt d (awaited i false lasts) hs.0) w.initial reg.priors in
          let (n, gives, holds) =
            given-handle d (awaited initial_version false lasts) hs.0 shared_key priors
              (awaits_at m' u initial_version id (new_version m t) follows.last inherited above) in
          record {
            handles = hs;
            after_it = d;
            notify = n;
            runs = runs;
            well_formed = reg.well_formed;
            keeps = reg.extends.keeps shared_key;
            gives = gives;
            holds = holds;
          }

    module _ (c : VersionedDependencyController) (w : IsWellFormed c) (task task' : ℕ)
        (calls : List Call) (named : All Named calls)
        (spares : All (Spares (id, new_version m t)) calls) where
      -- Let `u` follow `t` on the object `id` and the controller be well formed. The task of `t`
      -- registers, any tasks make any calls that name a version and do not remove the key that `t`
      -- hands over, and the task of `u` registers. Then every call returns, and the handle that `t`
      -- is given to signal for `id` is the handle that `u` is given to await for it.
      pub signal_then_await : SignalThenAwait m t u between id c task task' calls
      signal_then_await =
          let r : Registers _ _ _ _ _ = first-Registers c w task in
          let (e, runs, we, spared) = run_lem calls r.after_it r.well_formed named in
          let q : Registers _ _ _ _ _ = last-Registers e we task' in
          let same : handle q.after_it shared_key ≡ some r.notify =
            q.keeps r.notify (spared shared_key r.notify spares r.holds) in
          (
            r.handles,
            q.handles,
            r.after_it,
            e,
            q.after_it,
            r.notify,
            r.runs,
            runs,
            q.runs,
            r.gives,
            q.gives ∙ sym q.holds ∙ same,
          )

      -- Let `u` follow `t` on the object `id` and the controller be well formed. The task of `u`
      -- registers first, any tasks make any calls that name a version and do not remove the key that
      -- `t` hands over, and the task of `t` registers. Then every call returns, and the handle that
      -- `t` is given to signal for `id` is the handle that `u` is given to await for it.
      pub await_then_signal : AwaitThenSignal m t u between id c task task' calls
      await_then_signal =
          let q : Registers _ _ _ _ _ = last-Registers c w task' in
          let (e, runs, we, spared) = run_lem calls q.after_it q.well_formed named in
          let r : Registers _ _ _ _ _ = first-Registers e we task in
          let same : handle r.after_it shared_key ≡ some q.notify =
            r.keeps q.notify (spared shared_key q.notify spares q.holds) in
          (
            r.handles,
            q.handles,
            q.after_it,
            e,
            r.after_it,
            q.notify,
            q.runs,
            runs,
            r.runs,
            r.gives ∙ sym r.holds ∙ same,
            q.gives,
          )

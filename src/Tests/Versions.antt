-- ===== src/Tests/Versions.antt =====
-- Version assignment, dependency control and the hand-over between transactions.
use remora.Prelude.{
  none, ◌⊎◌, true, ==_iff, insert, ℕ, ◌<◌, ◌≡◌, refl, false, List, [], ◌∷◌, some, arith, get,
  contains, nat_eq, pair_eq,
}
use remora.SequenceNumber.{plain_numbers}
use remora.Versions.{
  process_version_assignments, collect_versions, assign_shared_object_versions, current_version,
}
use remora.Versions.Laws.{AtLeastInitial}
use remora.Versions.Chain.{after, after_all, required_increases, new_version}
use remora.Versioned.{
  VersionedDependencyController, new_controller, get_prior_dependency_and_update,
  calculate_next_version,
}
use remora.Versioned.Entry.{IsWellFormed, new_controller-IsWellFormed, handle}
use remora.Versioned.Register.{Registered}
use remora.Versioned.Next.{get_prior_lem}
use remora.Versioned.Runs.{Call, registers, removes, run, removed, run-keeps}
use remora.Handoff.Keys.{required-next}
use remora.Handoff.Notify.{
  Follows, SignalThenAwait, AwaitThenSignal, signal_then_await, await_then_signal,
}
use remora.Versions.Batches.{SentFor, process-increases}
use remora.Api.{TransactionWithTimestamp}
use remora.Tests.Data.{mint, other, trade}

-- As in the repository's test: the second transaction awaits what the first one signals.
two_versions :
    get_prior_dependency_and_update 1 ((5, 2) ∷ []) false false new_controller
    ≡ some (
      ([], 0 ∷ []),
      record { obj_task_map = ((5, 3), some (1, 0)) ∷ []; initial_version = 2; next_notify = 1 },
    )
unfolding get_prior_dependency_and_update new_controller calculate_next_version
    remora.Versioned.collect_handles remora.Versioned.handle_if remora.Versioned.entry_helper get
    insert
two_versions = refl

both_objects : (assign_shared_object_versions [] mint).required ≡ (7, 2) ∷ (9, 2) ∷ []
unfolding assign_shared_object_versions get
both_objects = refl

third_in_line :
    (assign_shared_object_versions (after_all (after [] mint) (other ∷ [])) trade).required
    ≡ (7, 3) ∷ (9, 4) ∷ []
unfolding assign_shared_object_versions after_all get insert
third_in_line = refl

fresh-AtLeastInitial : AtLeastInitial []
unfolding current_version get
fresh-AtLeastInitial id = omega arith

mint_first : Follows [] mint trade (other ∷ []) 7
unfolding contains
mint_first = record {
  valid = fresh-AtLeastInitial;
  first = refl;
  last = refl;
  untouched = (refl, tt);
}

-- What other tasks do meanwhile: one registers and removes its own versions.
abbrev meanwhile : List Call
meanwhile = registers 5 ((9, 3) ∷ []) false false ∷ removes ((9, 3) ∷ []) ∷ []

meanwhile_spares : contains {K = ℕ × ℕ} ((9, 3) ∷ []) (7, 3) ≡ false
unfolding contains
meanwhile_spares = refl

mint_moves_to : new_version [] mint ≡ 3
unfolding collect_versions current_version get
mint_moves_to = refl

meanwhile_spares_mint : contains {K = ℕ × ℕ} ((9, 3) ∷ []) (7, new_version [] mint) ≡ false
meanwhile_spares_mint = rw mint_moves_to meanwhile_spares

required_increases_example :
    (v w : ℕ) × (get (assign_shared_object_versions [] mint).required 7 ≡ some v)
    × (get (assign_shared_object_versions (after_all (after [] mint) (other ∷ [])) trade).required 7
        ≡ some w)
    × (v < w)
unfolding contains
required_increases_example = required_increases [] mint trade (other ∷ []) 7 refl refl

signal_then_await_example :
    SignalThenAwait [] mint trade (other ∷ []) 7 new_controller 0 1 meanwhile
signal_then_await_example =
    signal_then_await [] mint trade (other ∷ []) 7 mint_first new_controller
      new_controller-IsWellFormed 0 1 meanwhile ((λ e. cc), (tt, tt))
      (tt, (meanwhile_spares_mint, tt))

await_then_signal_example :
    AwaitThenSignal [] mint trade (other ∷ []) 7 new_controller 0 1 meanwhile
await_then_signal_example =
    await_then_signal [] mint trade (other ∷ []) 7 mint_first new_controller
      new_controller-IsWellFormed 0 1 meanwhile ((λ e. cc), (tt, tt))
      (tt, (meanwhile_spares_mint, tt))

required-next_example :
    calculate_next_version (assign_shared_object_versions [] mint).required
    ≡ get (assign_shared_object_versions [] mint).versions 7
unfolding contains
required-next_example = required-next [] mint 7 fresh-AtLeastInitial refl

get_prior_lem_example :
    (handles : List ℕ × List ℕ) × (d : VersionedDependencyController)
    × (get_prior_dependency_and_update 1 ((5, 4) ∷ []) false false new_controller
        ≡ some (handles, d))
    × Registered 5 false false ((5, 4) ∷ []) new_controller d handles
unfolding calculate_next_version
get_prior_lem_example =
    get_prior_lem 1 false false new_controller new_controller-IsWellFormed ((5, 4) ∷ []) 5 refl

-- A controller with one entry.
abbrev one_entry : VersionedDependencyController
one_entry = record {
  obj_task_map = ((7, 3), some (0, 0)) ∷ [];
  initial_version = 2;
  next_notify = 1;
}

one_entry-IsWellFormed : IsWellFormed one_entry
unfolding handle get
one_entry-IsWellFormed = record {
  filled = λ k e h. ground arith;
  allocated = λ k n h. ground arith;
  distinct = λ j k n hj hk. ground (arith, ==_iff (7, 3) j, ==_iff (7, 3) k);
  initial = refl;
}

one_entry-handle : handle one_entry (7, 3) ≡ some 0
unfolding handle get
one_entry-handle = refl

run-keeps_example :
    (d : VersionedDependencyController) × (run meanwhile one_entry ≡ some d)
    × IsWellFormed d
    × ((k : ℕ × ℕ)
        → (contains (removed meanwhile) k ≡ true)
          ⊎ (handle one_entry k ≡ none)
          ⊎ (handle d k ≡ handle one_entry k))
run-keeps_example = run-keeps meanwhile one_entry one_entry-IsWellFormed ((λ e. cc), (tt, tt))

abbrev rounds : List (List TransactionWithTimestamp)
rounds = (mint ∷ other ∷ []) ∷ [] ∷ (trade ∷ []) ∷ []

process-increases_example :
    (v w : ℕ) × SentFor (process_version_assignments [] rounds).0 0 mint 7 v
    × SentFor (process_version_assignments [] rounds).0 2 trade 7 w
    × (v < w)
unfolding contains
process-increases_example =
    process-increases [] rounds 0 2 mint trade 7 (omega arith) refl refl refl refl

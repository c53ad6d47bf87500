-- ===== src/Versioned/Runs.antt =====
-- Interleavings of the tasks that share a controller: each call is atomic on the map's entries.
use remora.Prelude.{
  ◌++◌, sym, ◌∙◌, Option-cases, inr, inl, Bool-cases, ◌⊎◌, true, contains-append, ℕ, ◌≡◌, ◌≢◌, refl,
  List, [], ◌∷◌, Option, none, some, Bool, false, arith, All, get, get-remove, remove, contains,
  pair_eq, if◌then◌else◌,
}
use remora.SequenceNumber.{SequenceNumbers}
use remora.Versioned.{
  VersionedDependencyController, TaskEntry, remove_entries, remove_dependency,
  get_prior_dependency_and_update, calculate_next_version,
}
use remora.Versioned.Entry.{handle, IsWellFormed}
use remora.Versioned.Next.{get_prior_lem, calculate_next_version_lem}

-- remove_dependency forgets the keys that it is given, and no other.
remove_entries-get :
    (ks : List (ℕ × ℕ)) (m : List ((ℕ × ℕ) × TaskEntry)) (k : ℕ × ℕ)
    → get (remove_entries ks m) k ≡ (if contains ks k then none else get m k)
unfolding remove_entries contains
remove_entries-get [] m k = refl
remove_entries-get (j ∷ ks) m k =
    ground (arith, remove_entries-get ks (remove m j) k, get-remove m j k)

pub handle-remove_dependency :
    (ks : List (ℕ × ℕ)) (c : VersionedDependencyController) (k : ℕ × ℕ)
    → handle (remove_dependency ks c) k ≡ (if contains ks k then none else handle c k)
unfolding handle remove_dependency
handle-remove_dependency ks c k = ground (arith, remove_entries-get ks c.obj_task_map k)

pub remove_dependency-IsWellFormed :
    (ks : List (ℕ × ℕ)) (c : VersionedDependencyController)
    → IsWellFormed c
    → IsWellFormed (remove_dependency ks c)
unfolding remove_dependency
remove_dependency-IsWellFormed ks c w = record {
  filled = λ k e h. ground (arith, remove_entries-get ks c.obj_task_map k, w.filled k e);
  allocated = λ k n h. ground (arith, handle-remove_dependency ks c k, w.allocated k n);
  distinct = λ j k n hj hk.
      ground
        (arith, handle-remove_dependency ks c j, handle-remove_dependency ks c k, w.distinct j k n);
  initial = w.initial;
}

-- A call of some task.
pub data Call : Type 0 where
  registers : (task : ℕ) (ks : List (ℕ × ℕ)) (ignore_prior ignore_next : Bool) → Call
  removes : List (ℕ × ℕ) → Call

module _ ⦃S : SequenceNumbers⦄ where
  unfoldable pub step : Call → VersionedDependencyController → Option VersionedDependencyController
  step (registers task ks ip in') c = elim (get_prior_dependency_and_update task ks ip in' c) [
    | none ↦ none
    | some (handles, d) ↦ some d
  ]
  step (removes ks) c = some (remove_dependency ks c)

  unfoldable pub run :
      List Call → VersionedDependencyController → Option VersionedDependencyController
  run [] c = some c
  run (call ∷ calls) c = elim (step call c) [ none ↦ none | some d ↦ run calls d ]

-- The calls that the program makes: a registration names at least one version.
abbrev pub Named : Call → Type 0
Named (registers task ks ip in') = ks ≢ []
Named (removes ks) = Unit {0}

-- No call removes the key.
abbrev pub Spares : ℕ × ℕ → Call → Type 0
Spares k (registers task ks ip in') = Unit {0}
Spares k (removes ks) = contains ks k ≡ false

-- A call that returns leaves a well-formed state, in which the handles that it spares stand.
pub record Stepped (call : Call) (c d : VersionedDependencyController) : Type 0 where
  pub well_formed : IsWellFormed d
  pub spared : (k : ℕ × ℕ) (n : ℕ) → Spares k call → handle c k ≡ some n → handle d k ≡ some n

module _ ⦃S : SequenceNumbers⦄ where
  step-registers :
      (task : ℕ) (ks : List (ℕ × ℕ)) (ip in' : Bool) (c : VersionedDependencyController) (v : ℕ)
      → IsWellFormed c
      → calculate_next_version ks ≡ some v
      → (d : VersionedDependencyController) × (step (registers task ks ip in') c ≡ some d)
        × Stepped (registers task ks ip in') c d
  unfolding step
  step-registers task ks ip in' c v w e =
      let (handles, d, run, reg) = get_prior_lem task ip in' c w ks v e in
      (
        d,
        rw (run, step) refl,
        record { well_formed = reg.well_formed; spared = λ k n s h. reg.extends.keeps k n h },
      )

  step_lem :
      (call : Call) (c : VersionedDependencyController)
      → IsWellFormed c
      → Named call
      → (d : VersionedDependencyController) × (step call c ≡ some d) × Stepped call c d
  unfolding step
  step_lem (registers task [] ip in') c w named = absurd (named refl)
  step_lem (registers task (k ∷ ks) ip in') c w named =
      let (v, e, _) = calculate_next_version_lem k ks in step-registers task (k ∷ ks) ip in' c v w e
  step_lem (removes ks) c w named = (
    remove_dependency ks c,
    refl,
    record {
      well_formed = remove_dependency-IsWellFormed ks c w;
      spared = λ k n s h. ground (arith, handle-remove_dependency ks c k);
    },
  )

  pub run_lem :
      (calls : List Call) (c : VersionedDependencyController)
      → IsWellFormed c
      → All Named calls
      → (d : VersionedDependencyController) × (run calls c ≡ some d)
        × IsWellFormed d
        × ((k : ℕ × ℕ) (n : ℕ) → All (Spares k) calls → handle c k ≡ some n → handle d k ≡ some n)
  unfolding run
  run_lem [] c w named = (c, refl, w, λ k n s h. h)
  run_lem (call ∷ calls) c w named =
      let (d, e, stepped) = step_lem call c w named.0 in
      let (f, es, w', spared) = run_lem calls d stepped.well_formed named.1 in
      (f, rw (e, run) es, w', λ k n s h. spared k n s.1 (stepped.spared k n s.0 h))

-- The keys that the calls remove.
abbrev pub removed : List Call → List (ℕ × ℕ)
removed [] = []
removed (registers task ks ip in' ∷ calls) = removed calls
removed (removes ks ∷ calls) = ks ++ removed calls

removed-Spares :
    (calls : List Call) (k : ℕ × ℕ) → contains (removed calls) k ≡ false → All (Spares k) calls
unfolding contains
removed-Spares [] k h = tt
removed-Spares (registers task ks ip in' ∷ calls) k h = (tt, removed-Spares calls k h)
removed-Spares (removes ks ∷ calls) k h =
    let split = contains-append ks (removed calls) k in
    (ground (arith, split, h), removed-Spares calls k (ground (arith, split, h)))

module _ ⦃S : SequenceNumbers⦄ where
  -- From a well-formed controller, however the tasks' calls interleave, if each registration names a
  -- version then no call panics, the controller stays well formed, and each key keeps its handle, if it
  -- had one and no call removes it.
  pub run-keeps :
      (calls : List Call) (c : VersionedDependencyController)
      → IsWellFormed c
      → All Named calls
      → (d : VersionedDependencyController) × (run calls c ≡ some d)
        × IsWellFormed d
        × ((k : ℕ × ℕ)
            → (contains (removed calls) k ≡ true) ⊎ (handle c k ≡ none) ⊎ (handle d k ≡ handle c k))
  run-keeps calls c w named =
      let (d, e, w', keeps) = run_lem calls c w named in
      (
        d,
        e,
        w',
        λ k. elim (Bool-cases (contains (removed calls) k)) [
          | inl gone ↦ inl gone
          | inr spared ↦ inr (elim (Option-cases (handle c k)) [
            | inl free ↦ inl free
            | inr (n, h) ↦ inr (keeps k n (removed-Spares calls k spared) h ∙ sym h)
          ])
        ],
      )

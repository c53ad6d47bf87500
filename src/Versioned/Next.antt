-- ===== src/Versioned/Next.antt =====
-- `calculate_next_version`, and when `get_prior_dependency_and_update` panics.
use remora.Prelude.{
  ℕ, ◌≤◌, ◌<◌, ◌≡◌, ◌≢◌, ◌↔◌, refl, List, [], ◌∷◌, none, some, Bool, arith, All, All-map, ltb,
  pair_eq, nat_eq, if◌then◌else◌,
}
use remora.SequenceNumber.{SequenceNumbers, next}
use remora.Versioned.{
  VersionedDependencyController, max_version, calculate_next_version,
  get_prior_dependency_and_update,
}
use remora.Versioned.Entry.{IsWellFormed}
use remora.Versioned.Register.{Registered, collect_handles_lem}

-- The largest version is there for every list but the empty one, and bounds all versions.
pub max_version_lem :
    (k : ℕ × ℕ) (ks : List (ℕ × ℕ))
    → (m : ℕ) × (max_version (k ∷ ks) ≡ some m) × All (λ j. j.1 ≤ m) (k ∷ ks)
unfolding max_version
max_version_lem k [] = (k.1, refl, (omega arith, tt))
max_version_lem k (j ∷ ks) =
    let (m, e, bound) = max_version_lem j ks in
    (
      if ltb m k.1 then k.1 else m,
      ground arith,
      (ground arith, All-map {P = λ i. i.1 ≤ m} (λ i h. ground arith) (j ∷ ks) bound),
    )

module _ ⦃S : SequenceNumbers⦄ where
  pub calculate_next_version_lem :
      (k : ℕ × ℕ) (ks : List (ℕ × ℕ))
      → (v : ℕ) × (calculate_next_version (k ∷ ks) ≡ some v) × All (λ j. j.1 < v) (k ∷ ks)
  unfolding calculate_next_version
  calculate_next_version_lem k ks =
      let (m, e, bound) = max_version_lem k ks in
      (
        next m,
        ground arith,
        All-map {P = λ j. j.1 ≤ m} (λ j h. omega (arith, S.next_lem m)) (k ∷ ks) bound,
      )

  module _ (task : ℕ) (ip in' : Bool) (c : VersionedDependencyController) (w : IsWellFormed c) where
    -- In a well-formed controller, a registration of versions whose next version is `v` returns,
    -- with the handles of the versions that it awaits and produces; the controller stays well formed
    -- and keeps the handles that it had.
    pub get_prior_lem :
        (ks : List (ℕ × ℕ)) (v : ℕ)
        → calculate_next_version ks ≡ some v
        → (handles : List ℕ × List ℕ) × (d : VersionedDependencyController)
          × (get_prior_dependency_and_update task ks ip in' c ≡ some (handles, d))
          × Registered v ip in' ks c d handles
    unfolding get_prior_dependency_and_update
    get_prior_lem ks v e =
        let (handles, d, run, reg) = collect_handles_lem task v ip in' ks c w in
        (handles, d, rw (e, get_prior_dependency_and_update) run, reg)

    get_prior-nonempty :
        (k : ℕ × ℕ) (ks : List (ℕ × ℕ))
        → get_prior_dependency_and_update task (k ∷ ks) ip in' c ≢ none
    get_prior-nonempty k ks e =
        let (v, next_v, _) = calculate_next_version_lem k ks in
        let (handles, d, run, _) = get_prior_lem (k ∷ ks) v next_v in cc (run, e)

    -- In a well-formed controller, a registration panics exactly on the empty list, whose maximum
    -- it expects.
    pub get_prior-panics :
        (ks : List (ℕ × ℕ)) → (get_prior_dependency_and_update task ks ip in' c ≡ none) ↔ (ks ≡ [])
    unfolding get_prior_dependency_and_update calculate_next_version max_version
    get_prior-panics [] = (λ e. refl, λ e. refl)
    get_prior-panics (k ∷ ks) = (λ e. absurd (get_prior-nonempty k ks e), λ e. cc)

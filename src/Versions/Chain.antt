-- ===== src/Versions/Chain.antt =====
-- The versions along a run of `VersionAssignmentTask`.
use remora.Prelude.{
  nat_eq, ℕ, ◌≤◌, ◌<◌, ◌≡◌, refl, true, false, List, [], ◌∷◌, none, some, if◌then◌else◌, arith, Map,
  get, contains, All,
}
use remora.SequenceNumber.{SequenceNumbers, next}
use remora.Api.{TransactionWithTimestamp}
use remora.Versions.{
  initial_version, shared_object_ids, current_version, collect_versions, assign_ids,
  assign_shared_object_versions,
}
use remora.Versions.Laws.{
  touches, AtLeastInitial, collect_versions-get, collect_versions-max, update_versions-get,
}

module _ ⦃S : SequenceNumbers⦄ where
  -- The versions after one transaction, and after several.
  abbrev pub after : Map ℕ ℕ → TransactionWithTimestamp → Map ℕ ℕ
  after m t = (assign_shared_object_versions m t).versions

  unfoldable pub after_all : Map ℕ ℕ → List TransactionWithTimestamp → Map ℕ ℕ
  after_all m [] = m
  after_all m (t ∷ ts) = after_all (after m t) ts

  -- The version that a transaction moves its objects to.
  abbrev pub new_version : Map ℕ ℕ → TransactionWithTimestamp → ℕ
  new_version m t = next (collect_versions m initial_version (shared_object_ids t)).1

  assign_ids-required :
      (m : Map ℕ ℕ) (t : TransactionWithTimestamp) (ids : List ℕ) (id : ℕ)
      → get (assign_ids m t ids).required id
        ≡ (if contains ids id then some (current_version m id) else none)
  unfolding assign_ids get contains
  assign_ids-required m t [] id = refl
  assign_ids-required m t (i ∷ ids) id = collect_versions-get m initial_version (i ∷ ids) id

  -- A transaction requires each of its objects at the current version, and no other object.
  pub required-get :
      (m : Map ℕ ℕ) (t : TransactionWithTimestamp) (id : ℕ)
      → get (assign_shared_object_versions m t).required id
        ≡ (if touches t id then some (current_version m id) else none)
  unfolding assign_shared_object_versions
  required-get m t id = assign_ids-required m t (shared_object_ids t) id

  assign_ids-get :
      (m : Map ℕ ℕ) (t : TransactionWithTimestamp) (ids : List ℕ) (id : ℕ)
      → get (assign_ids m t ids).versions id ≡ (
          if contains ids id
          then some (next (collect_versions m initial_version ids).1)
          else get m id)
  unfolding assign_ids contains
  assign_ids-get m t [] id = refl
  assign_ids-get m t (i ∷ ids) id =
      update_versions-get m (next (collect_versions m initial_version (i ∷ ids)).1) (i ∷ ids) id

  -- The objects of a transaction are written its new version, and no other object is.
  pub after-get :
      (m : Map ℕ ℕ) (t : TransactionWithTimestamp) (id : ℕ)
      → get (after m t) id ≡ (if touches t id then some (new_version m t) else get m id)
  unfolding assign_shared_object_versions
  after-get m t id = assign_ids-get m t (shared_object_ids t) id

  pub after-version :
      (m : Map ℕ ℕ) (t : TransactionWithTimestamp) (id : ℕ)
      → current_version (after m t) id
        ≡ (if touches t id then new_version m t else current_version m id)
  unfolding current_version
  after-version m t id = ground (arith, after-get m t id)

  pub current-lt-new :
      (m : Map ℕ ℕ) (t : TransactionWithTimestamp) (id : ℕ)
      → touches t id ≡ true
      → current_version m id < new_version m t
  current-lt-new m t id h = omega (
    arith,
    collect_versions-max m initial_version (shared_object_ids t) id h,
    S.next_lem (collect_versions m initial_version (shared_object_ids t)).1,
  )

  pub current-le-after :
      (m : Map ℕ ℕ) (t : TransactionWithTimestamp) (id : ℕ)
      → current_version m id ≤ current_version (after m t) id
  current-le-after m t id = ground (arith, after-version m t id, current-lt-new m t id)

  current-le-after_all :
      (m : Map ℕ ℕ) (ts : List TransactionWithTimestamp) (id : ℕ)
      → current_version m id ≤ current_version (after_all m ts) id
  unfolding after_all
  current-le-after_all m [] id = omega arith
  current-le-after_all m (t ∷ ts) id =
      omega (arith, current-le-after m t id, current-le-after_all (after m t) ts id)

  -- For two transactions of a run that share an object, with any others between them, the later
  -- one requires the object at a strictly larger version: no version is required twice.
  pub required_increases :
      (m : Map ℕ ℕ) (t u : TransactionWithTimestamp) (between : List TransactionWithTimestamp)
      (id : ℕ)
      → touches t id ≡ true
      → touches u id ≡ true
      → (v w : ℕ) × (get (assign_shared_object_versions m t).required id ≡ some v)
        × (get (assign_shared_object_versions (after_all (after m t) between) u).required id
            ≡ some w)
        × (v < w)
  required_increases m t u between id ht hu = (
    current_version m id,
    current_version (after_all (after m t) between) id,
    ground (arith, required-get m t id),
    ground (arith, required-get (after_all (after m t) between) u id),
    ground (
      arith,
      after-version m t id,
      current-lt-new m t id,
      current-le-after_all (after m t) between id,
    ),
  )

  pub after-AtLeastInitial :
      (m : Map ℕ ℕ) (t : TransactionWithTimestamp) → AtLeastInitial m → AtLeastInitial (after m t)
  after-AtLeastInitial m t h id = omega (arith, h id, current-le-after m t id)

  -- The versions never fall below the initial one.
  pub after_all-AtLeastInitial :
      (m : Map ℕ ℕ) (ts : List TransactionWithTimestamp)
      → AtLeastInitial m
      → AtLeastInitial (after_all m ts)
  unfolding after_all
  after_all-AtLeastInitial m [] h = h
  after_all-AtLeastInitial m (t ∷ ts) h =
      after_all-AtLeastInitial (after m t) ts (after-AtLeastInitial m t h)

  -- Transactions that do not touch an object leave its version alone.
  pub after_all-untouched :
      (m : Map ℕ ℕ) (ts : List TransactionWithTimestamp) (id : ℕ)
      → All (λ t. touches t id ≡ false) ts
      → current_version (after_all m ts) id ≡ current_version m id
  unfolding after_all
  after_all-untouched m [] id h = refl
  after_all-untouched m (t ∷ ts) id h =
      ground (arith, after-version m t id, after_all-untouched (after m t) ts id h.1)

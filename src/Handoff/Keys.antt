-- ===== src/Handoff/Keys.antt =====
-- The keys of a transaction's registration, in terms of its required versions.
use remora.Prelude.{
  inl, inr, subst, ◌==◌, Bool-cases, ℕ, ◌<◌, ◌≡◌, refl, true, false, List, [], ◌∷◌, Option, none,
  some, if◌then◌else◌, arith, ltb, Map, get, contains, nat_eq, pair_eq, ==_iff,
}
use remora.SequenceNumber.{SequenceNumbers, next}
use remora.Api.{TransactionWithTimestamp}
use remora.Versions.{
  initial_version, shared_object_ids, current_version, collect_versions, assign_ids,
  assign_shared_object_versions,
}
use remora.Versions.Laws.{touches, AtLeastInitial}
use remora.Versions.Chain.{after-get, required-get, new_version}
use remora.Versioned.{VersionedDependencyController, max_version, calculate_next_version}
use remora.Versioned.Entry.{handle}
use remora.Versioned.Register.{HandlesAt, awaited, produced}

-- The larger of a start value and the largest version of a list.
abbrev max_from : ℕ → Option ℕ → ℕ
max_from b none = b
max_from b (some m) = if ltb b m then m else b

collect_versions-max_version :
    (m : Map ℕ ℕ) (b : ℕ) (ids : List ℕ)
    → (collect_versions m b ids).1 ≡ max_from b (max_version (collect_versions m b ids).0)
unfolding collect_versions max_version
collect_versions-max_version m b [] = refl
collect_versions-max_version m b (i ∷ ids) = ground (
  arith,
  collect_versions-max_version m (if ltb b (current_version m i) then current_version m i else b)
      ids,
)

module _ ⦃S : SequenceNumbers⦄ where
  assign_ids-next :
      (m : Map ℕ ℕ) (t : TransactionWithTimestamp) (i : ℕ) (ids : List ℕ)
      → AtLeastInitial m
      → calculate_next_version (assign_ids m t (i ∷ ids)).required
        ≡ some (next (collect_versions m initial_version (i ∷ ids)).1)
  unfolding assign_ids calculate_next_version max_version collect_versions
  assign_ids-next m t i ids h = ground (
    arith,
    collect_versions-max_version m initial_version (i ∷ ids),
    collect_versions-max_version m (if ltb 2 (current_version m i) then current_version m i else 2)
        ids,
    h i,
  )

  -- The version that a transaction moves its objects to, as the controller computes it.
  pub required-new_version :
      (m : Map ℕ ℕ) (t : TransactionWithTimestamp) (id : ℕ)
      → AtLeastInitial m
      → touches t id ≡ true
      → calculate_next_version (assign_shared_object_versions m t).required ≡ some (new_version m t)
  unfolding assign_shared_object_versions contains
  required-new_version m t id h touched = go (shared_object_ids t) touched
    where
      go :
          (ids : List ℕ)
          → contains ids id ≡ true
          → calculate_next_version (assign_ids m t ids).required
            ≡ some (next (collect_versions m initial_version ids).1)
      go [] e = cc
      go (i ∷ ids) e = assign_ids-next m t i ids h

  -- In a map of versions that are at least the initial one, the version that the assignment writes for an
  -- object of a transaction is the next version that the controller computes from the versions that
  -- the transaction is sent on with.
  pub required-next :
      (m : Map ℕ ℕ) (t : TransactionWithTimestamp) (id : ℕ)
      → AtLeastInitial m
      → touches t id ≡ true
      → calculate_next_version (assign_shared_object_versions m t).required
        ≡ get (assign_shared_object_versions m t).versions id
  required-next m t id h touched =
      ground (arith, required-new_version m t id h touched, after-get m t id)

awaited-contains :
    (ks : List (ℕ × ℕ)) (b id v : ℕ)
    → get ks id ≡ some v
    → b < v
    → contains (awaited b false ks) (id, v) ≡ true
unfolding get contains
awaited-contains [] b id v e h = cc
awaited-contains ((j, u) ∷ ks) b id v e h = ground (arith, ==_iff j id, awaited-contains ks b id v)

produced-contains :
    (ks : List (ℕ × ℕ)) (next_v id v : ℕ)
    → get ks id ≡ some v
    → contains (produced next_v false ks) (id, next_v) ≡ true
unfolding get contains
produced-contains [] next_v id v e = cc
produced-contains ((j, u) ∷ ks) next_v id v e =
    ground (arith, ==_iff j id, produced-contains ks next_v id v)

-- The handle that a registration gave for a key, if it gave one.
abbrev pub given : List (ℕ × ℕ) → List ℕ → ℕ × ℕ → Option ℕ
given [] ns k = none
given (j ∷ ks) [] k = none
given (j ∷ ks) (n ∷ ns) k = if j == k then some n else given ks ns k

pub given-handle :
    (c : VersionedDependencyController) (ks : List (ℕ × ℕ)) (ns : List ℕ) (k : ℕ × ℕ)
    → HandlesAt c ks ns
    → contains ks k ≡ true
    → (n : ℕ) × (given ks ns k ≡ some n) × (handle c k ≡ some n)
unfolding contains
given-handle c [] [] k h e = cc
given-handle c [] (n ∷ ns) k h e = absurd h
given-handle c (j ∷ ks) [] k h e = absurd h
given-handle c (j ∷ ks) (n ∷ ns) k h e = elim (Bool-cases (j == k)) [
  | inl same ↦ (n, rw same refl, subst (λ i. handle c i ≡ some n) ((==_iff j k).0 same) h.0)
  | inr other ↦
      let (n', found, at) = given-handle c ks ns k h.1 (ground arith) in (n', rw other found, at)
]

module _ ⦃S : SequenceNumbers⦄ where
  -- The key under which a transaction signals an object, and the one under which it awaits it.
  pub signals_at :
      (m : Map ℕ ℕ) (t : TransactionWithTimestamp) (id next_v : ℕ)
      → touches t id ≡ true
      → contains (produced next_v false (assign_shared_object_versions m t).required) (id, next_v)
        ≡ true
  signals_at m t id next_v h =
      produced-contains (assign_shared_object_versions m t).required next_v id
        (current_version m id) (ground (arith, required-get m t id))

  pub awaits_at :
      (m : Map ℕ ℕ) (t : TransactionWithTimestamp) (b id v : ℕ)
      → touches t id ≡ true
      → current_version m id ≡ v
      → b < v
      → contains (awaited b false (assign_shared_object_versions m t).required) (id, v) ≡ true
  awaits_at m t b id v h e above =
      awaited-contains (assign_shared_object_versions m t).required b id v
        (ground (arith, required-get m t id)) above

-- ===== src/Forwarder/MissingStates/Owners.antt =====
-- Where the versions of the objects are, before and after a transaction is routed.
use remora.Prelude.{
  Option-cases, ◌⊎◌, inr, subst, ◌∙◌, inl, ap, ap₂, Bool-cases, ℕ, ◌≤◌, ◌<◌, ◌≡◌, ◌≢◌, refl, List,
  [], ◌∷◌, Option, none, some, if◌then◌else◌, ltb, ◌==◌, nat_eq, pair_eq, ==_iff, arith, Map, get,
  insert, remove, get-insert, get-remove, contains, All, All-map, true, false, map,
}
use remora.SequenceNumber.{SequenceNumbers, next}
use remora.Api.{RequiredStates}
use remora.Versioned.Register.{produced}
use remora.Forwarder.MissingStates.{
  max_required, other_owner, move_states, get_missing_states_for_transaction,
}

max_required-base : (b : ℕ) (required : List (ℕ × ℕ)) → b ≤ max_required b required
unfolding max_required
max_required-base b [] = omega arith
max_required-base b ((id, v) ∷ required) =
    ground (arith, max_required-base (if ltb b v then v else b) required)

max_required-bound :
    (b : ℕ) (required : List (ℕ × ℕ)) → All (λ k. k.1 ≤ max_required b required) required
unfolding max_required
max_required-bound b [] = tt
max_required-bound b ((id, v) ∷ required) =
    let b' : ℕ = if ltb b v then v else b in
    (ground (arith, max_required-base b' required), max_required-bound b' required)

below_of_contains :
    (ks : List (ℕ × ℕ)) (k : ℕ × ℕ) (b : ℕ) → All (λ j. j.1 < b) ks → contains ks k ≡ true → k.1 < b
unfolding contains
below_of_contains [] k b h c = cc
below_of_contains (j ∷ ks) k b h c = elim (Bool-cases (j == k)) [
  | inl same ↦ subst (λ i. i.1 < b) ((==_iff j k).0 same) h.0
  | inr other ↦ below_of_contains ks k b h.1 (ground (arith, other))
]

module _ (next_v proxy : ℕ) where
  -- The proxy is never asked for a version of its own.
  move_states-not_self :
      (states : Map (ℕ × ℕ) ℕ) (required : List (ℕ × ℕ))
      → All (λ e. e.1 ≢ some proxy) (move_states next_v proxy states required).0
  unfolding move_states
  move_states-not_self states [] = tt
  move_states-not_self states ((id, v) ∷ required) = (
    λ e. ground arith,
    move_states-not_self (remove (insert states (id, next_v) proxy) (id, v)) required,
  )

  -- The proxy has the versions that the transaction produces, and nobody those that it consumes.
  move_states-get :
      (states : Map (ℕ × ℕ) ℕ) (required : List (ℕ × ℕ)) (k : ℕ × ℕ)
      → All (λ j. j.1 < next_v) required
      → get (move_states next_v proxy states required).1 k ≡ (
          if contains (produced next_v false required) k
          then some proxy
          else if contains required k
          then none
          else get states k)
  unfolding move_states contains
  move_states-get states [] k h = refl
  move_states-get states ((id, v) ∷ required) k h =
      let inserted : Map (ℕ × ℕ) ℕ = insert states (id, next_v) proxy in
      ground (
        arith,
        move_states-get (remove inserted (id, v)) required k h.1,
        below_of_contains required k next_v h.1,
        get-remove inserted (id, v) k,
        get-insert states (id, next_v) k proxy,
        ==_iff {A = ℕ × ℕ} (id, next_v) k,
        ==_iff {A = ℕ × ℕ} (id, v) k,
      )

-- No version is required twice.
abbrev pub Distinct : List (ℕ × ℕ) → Type 0
Distinct [] = Unit {0}
Distinct (k ∷ ks) = All (λ j. k ≢ j) ks × Distinct ks

-- The owners of the versions as they were when the transaction came.
abbrev asks : Map (ℕ × ℕ) ℕ → ℕ → List (ℕ × ℕ) → RequiredStates
asks states proxy required = map (λ k. (k, other_owner (get states k) proxy)) required

-- From whom a version is to be fetched, given where it was: from its proxy, if that is another one.
abbrev pub Asked : Map (ℕ × ℕ) ℕ → ℕ → (ℕ × ℕ) × Option ℕ → Type 0
Asked states proxy (k, none) = (get states k ≡ none) ⊎ (get states k ≡ some proxy)
Asked states proxy (k, some owner) = (get states k ≡ some owner) × (owner ≢ proxy)

asks-keys :
    (states : Map (ℕ × ℕ) ℕ) (proxy : ℕ) (required : List (ℕ × ℕ))
    → map (λ e. e.0) (asks states proxy required) ≡ required
asks-keys states proxy [] = refl
asks-keys states proxy (k ∷ ks) = ap (λ l. k ∷ l) (asks-keys states proxy ks)

asks-one :
    (states : Map (ℕ × ℕ) ℕ) (proxy : ℕ) (k : ℕ × ℕ)
    → Asked states proxy (k, other_owner (get states k) proxy)
asks-one states proxy k = elim (Option-cases (get states k)) [
  | inl nobody ↦ rw (nobody, other_owner) (inl nobody)
  | inr (owner, e) ↦ elim (Bool-cases (owner == proxy)) [
    | inl own ↦ rw (e, other_owner, own) (inr (e ∙ ap some ((==_iff owner proxy).0 own)))
    | inr other ↦ rw (e, other_owner, other) (e, λ same. cc (other, (==_iff owner proxy).1 same))
  ]
]

asks-Asked :
    (states : Map (ℕ × ℕ) ℕ) (proxy : ℕ) (required : List (ℕ × ℕ))
    → All (Asked states proxy) (asks states proxy required)
asks-Asked states proxy [] = tt
asks-Asked states proxy (k ∷ ks) = (asks-one states proxy k, asks-Asked states proxy ks)

module _ (next_v proxy : ℕ) where
  -- An update for one version leaves the others' owners alone.
  asks-remove :
      (states : Map (ℕ × ℕ) ℕ) (id v : ℕ) (ks : List (ℕ × ℕ))
      → All (λ j. (id, v) ≢ j) ks
      → All (λ j. j.1 < next_v) ks
      → asks (remove (insert states (id, next_v) proxy) (id, v)) proxy ks ≡ asks states proxy ks
  asks-remove states id v [] d h = refl
  asks-remove states id v (k ∷ ks) d h =
      let inserted : Map (ℕ × ℕ) ℕ = insert states (id, next_v) proxy in
      let same : get (remove inserted (id, v)) k ≡ get states k = ground (
        arith,
        d.0,
        h.0,
        get-remove inserted (id, v) k,
        get-insert states (id, next_v) k proxy,
        ==_iff {A = ℕ × ℕ} (id, next_v) k,
        ==_iff {A = ℕ × ℕ} (id, v) k,
      ) in
      ap₂ {C = RequiredStates} (λ o r. (k, other_owner o proxy) ∷ r) same
        (asks-remove states id v ks d.1 h.1)

  move_states-asks :
      (states : Map (ℕ × ℕ) ℕ) (required : List (ℕ × ℕ))
      → Distinct required
      → All (λ j. j.1 < next_v) required
      → (move_states next_v proxy states required).0 ≡ asks states proxy required
  unfolding move_states
  move_states-asks states [] d h = refl
  move_states-asks states ((id, v) ∷ required) d h =
      ap {B = RequiredStates} (λ r. ((id, v), other_owner (get states (id, v)) proxy) ∷ r)
        (move_states-asks (remove (insert states (id, next_v) proxy) (id, v)) required d.1 h.1
          ∙ asks-remove states id v required d.0 h.1)

module _ ⦃S : SequenceNumbers⦄ where
  -- The version that the transaction's objects move to.
  abbrev pub next_of : List (ℕ × ℕ) → ℕ
  next_of required = next (max_required 2 required)

  below_next : (required : List (ℕ × ℕ)) → All (λ j. j.1 < next_of required) required
  below_next required =
      All-map {P = λ j. j.1 ≤ max_required 2 required}
        (λ j h. omega (arith, S.next_lem (max_required 2 required))) required
        (max_required-bound 2 required)

  -- A proxy is never told to fetch a version from itself, which it would refuse by a panic.
  pub missing_states-not_self :
      (required : Option (List (ℕ × ℕ))) (proxy : ℕ) (states : Map (ℕ × ℕ) ℕ)
      → All (λ e. e.1 ≢ some proxy) (get_missing_states_for_transaction required proxy states).0
  unfolding get_missing_states_for_transaction
  missing_states-not_self none proxy states = tt
  missing_states-not_self (some required) proxy states =
      move_states-not_self (next_of required) proxy states required

  -- If no version is required twice, then the list has each required version in its order: with the proxy
  -- that had it when the transaction came, if one other than the chosen proxy had it, and without a
  -- proxy if nobody or the chosen proxy itself had it.
  pub missing_states-asks :
      (required : List (ℕ × ℕ)) (proxy : ℕ) (states : Map (ℕ × ℕ) ℕ)
      → Distinct required
      → (map (λ e. e.0) (get_missing_states_for_transaction (some required) proxy states).0
          ≡ required)
        × All
            (Asked states proxy)
            (get_missing_states_for_transaction (some required) proxy states).0
  unfolding get_missing_states_for_transaction
  missing_states-asks required proxy states d =
      let same =
        move_states-asks (next_of required) proxy states required d (below_next required) in
      rw same (asks-keys states proxy required, asks-Asked states proxy required)

  -- Afterwards the proxy has the versions that the transaction produces, no proxy has those that it
  -- consumes, and the owners of all others are as before.
  pub missing_states-owners :
      (required : List (ℕ × ℕ)) (proxy : ℕ) (states : Map (ℕ × ℕ) ℕ) (k : ℕ × ℕ)
      → get (get_missing_states_for_transaction (some required) proxy states).1 k ≡ (
          if contains (produced (next_of required) false required) k
          then some proxy
          else if contains required k
          then none
          else get states k)
  unfolding get_missing_states_for_transaction
  missing_states-owners required proxy states k =
      move_states-get (next_of required) proxy states required k (below_next required)

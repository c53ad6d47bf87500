-- ===== src/Forwarder/MissingStates.antt =====
-- `get_missing_states_for_transaction`: which proxy has each version that a transaction requires, and
-- the versions that its own proxy has from then on.
pub mod Owners
use remora.Prelude.{
  ℕ, List, [], ◌∷◌, Option, none, some, if◌then◌else◌, ltb, ◌==◌, nat_eq, pair_eq, Map, get, insert,
  remove,
}
use remora.SequenceNumber.{SequenceNumbers, next}
use remora.Api.{RequiredStates}

-- The loop that computes `max_version`.
unfoldable pub max_required : ℕ → List (ℕ × ℕ) → ℕ
max_required max_version [] = max_version
max_required max_version ((object_id, seq_num) ∷ required) =
    max_required (if ltb max_version seq_num then seq_num else max_version) required

-- previous_owner_value: the owner, unless it is the proxy itself.
abbrev pub other_owner : Option ℕ → ℕ → Option ℕ
other_owner none proxy_index = none
other_owner (some owner) proxy_index = if owner == proxy_index then none else some owner

-- The loop over `required_versions`.
unfoldable pub move_states : ℕ → ℕ → Map (ℕ × ℕ) ℕ → List (ℕ × ℕ) → RequiredStates × Map (ℕ × ℕ) ℕ
move_states next_version proxy_index states [] = ([], states)
move_states next_version proxy_index states ((object_id, seq_num) ∷ required) =
    let previous = other_owner (get states (object_id, seq_num)) proxy_index in
    let inserted = insert states (object_id, next_version) proxy_index in
    let (later, states') =
      move_states next_version proxy_index (remove inserted (object_id, seq_num)) required in
    (((object_id, seq_num), previous) ∷ later, states')

module _ ⦃S : SequenceNumbers⦄ where
  unfoldable pub get_missing_states_for_transaction :
      Option (List (ℕ × ℕ)) → ℕ → Map (ℕ × ℕ) ℕ → RequiredStates × Map (ℕ × ℕ) ℕ
  unfolding move_states max_required
  get_missing_states_for_transaction none proxy_index states_to_proxy = ([], states_to_proxy)
  get_missing_states_for_transaction (some required) proxy_index states_to_proxy =
      move_states (next (max_required 2 required)) proxy_index states_to_proxy required

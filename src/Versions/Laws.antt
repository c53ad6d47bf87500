-- ===== src/Versions/Laws.antt =====
-- What one call of `assign_shared_object_versions` does to each object.
use remora.Prelude.{
  insert, Bool, ℕ, ◌≤◌, ◌≡◌, refl, true, List, [], ◌∷◌, none, some, if◌then◌else◌, arith, Map, get,
  get-insert, nat_eq, contains, ltb, ==_iff,
}
use remora.Api.{TransactionWithTimestamp}
use remora.Versions.{
  initial_version, shared_object_ids, current_version, collect_versions, update_versions,
}

abbrev pub touches : TransactionWithTimestamp → ℕ → Bool
touches t id = contains (shared_object_ids t) id

-- The versions start at 2.
abbrev pub AtLeastInitial : Map ℕ ℕ → Type 0
AtLeastInitial m = (id : ℕ) → initial_version ≤ current_version m id

pub collect_versions-get :
    (m : Map ℕ ℕ) (b : ℕ) (ids : List ℕ) (id : ℕ)
    → get (collect_versions m b ids).0 id
      ≡ (if contains ids id then some (current_version m id) else none)
unfolding collect_versions get contains
collect_versions-get m b [] id = refl
collect_versions-get m b (i ∷ ids) id = ground (
  arith,
  ==_iff i id,
  collect_versions-get m (if ltb b (current_version m i) then current_version m i else b) ids id,
)

pub collect_versions-base : (m : Map ℕ ℕ) (b : ℕ) (ids : List ℕ) → b ≤ (collect_versions m b ids).1
unfolding collect_versions
collect_versions-base m b [] = omega arith
collect_versions-base m b (i ∷ ids) = ground (
  arith,
  collect_versions-base m (if ltb b (current_version m i) then current_version m i else b) ids,
)

pub collect_versions-max :
    (m : Map ℕ ℕ) (b : ℕ) (ids : List ℕ) (id : ℕ)
    → contains ids id ≡ true
    → current_version m id ≤ (collect_versions m b ids).1
unfolding collect_versions contains
collect_versions-max m b [] id h = ground arith
collect_versions-max m b (i ∷ ids) id h =
    let b' : ℕ = if ltb b (current_version m i) then current_version m i else b in
    ground (arith, ==_iff i id, collect_versions-max m b' ids id, collect_versions-base m b' ids)

pub update_versions-get :
    (m : Map ℕ ℕ) (v : ℕ) (ids : List ℕ) (id : ℕ)
    → get (update_versions m v ids) id ≡ (if contains ids id then some v else get m id)
unfolding update_versions contains
update_versions-get m v [] id = refl
update_versions-get m v (i ∷ ids) id =
    ground (arith, update_versions-get (insert m i v) v ids id, get-insert m i id v)

-- ===== src/Tpcc/Execute/Inputs.antt =====
-- The inputs of a transaction whose check passes.
use remora.Prelude.{
  ℕ, ◌≤◌, ◌<◌, ◌≡◌, none, some, get, nat_eq, arith, All, List, [], ◌∷◌, Option, true, ==_iff,
  if◌then◌else◌, ltb, inl, inr, Option-cases,
}
use remora.Tpcc.Library.{TpccLibrary}
use remora.Execution.Store.{max_shared_version}
use remora.Tpcc.Execute.{Objects, has_expected_version, pre_execute_check}

-- Each input has its version assigned.
abbrev pub HasVersions : List (ℕ × Option ℕ) → List ℕ → Type 0
HasVersions shared_objects inputs =
    All (λ id. (v : ℕ) × (get shared_objects id ≡ some (some v))) inputs

-- The largest version is at least the start value and every version.
pub max_shared_version-le :
    (b : ℕ) (objects : List (ℕ × Option ℕ)) → b ≤ max_shared_version b objects
unfolding max_shared_version
max_shared_version-le b [] = omega arith
max_shared_version-le b ((id, none) ∷ objects) = max_shared_version-le b objects
max_shared_version-le b ((id, some v) ∷ objects) =
    ground (arith, max_shared_version-le (if ltb b v then v else b) objects)

le-max_shared_version :
    (b : ℕ) (objects : List (ℕ × Option ℕ)) (id v : ℕ)
    → get objects id ≡ some (some v)
    → v ≤ max_shared_version b objects
unfolding max_shared_version get
le-max_shared_version b [] id v h = absurd (ground arith)
le-max_shared_version b ((j, none) ∷ objects) id v h =
    ground (arith, le-max_shared_version b objects id v)
le-max_shared_version b ((j, some w) ∷ objects) id v h = ground (
  arith,
  le-max_shared_version (if ltb b w then w else b) objects id v,
  max_shared_version-le (if ltb b w then w else b) objects,
)

module _ ⦃L : TpccLibrary⦄ where
  -- The store has the input, a Move object that is shared, below a version.
  pub record IsInput (store : Objects) (v id : ℕ) : Type 0 where
    pub object : L.Object
    pub stored : get store id ≡ some object
    pub below : L.version object < v
    pub move_obj : L.MoveObject
    pub is_move : L.try_as_move object ≡ some move_obj
    pub shared : L.is_shared object ≡ true

  -- Every object of the store is a shared Move object, as all that the encoding makes are.
  abbrev pub HasMoveObjects : Objects → Type 0
  HasMoveObjects store =
      (id : ℕ) (o : L.Object)
      → get store id ≡ some o
      → ((m : L.MoveObject) × (L.try_as_move o ≡ some m)) × (L.is_shared o ≡ true)

  pub check-IsInput :
      (store : Objects) (shared_objects : List (ℕ × Option ℕ)) (inputs : List ℕ) (v : ℕ)
      → HasMoveObjects store
      → max_shared_version 2 shared_objects < v
      → HasVersions shared_objects inputs
      → pre_execute_check store inputs shared_objects ≡ true
      → All (IsInput store v) inputs
  unfolding pre_execute_check has_expected_version
  check-IsInput store shared_objects [] v moves below versions check = tt
  check-IsInput store shared_objects (id ∷ inputs) v moves below ((w, e), versions) check =
      elim (Option-cases (get store id)) [
        | inl missing ↦ absurd (ground arith)
        | inr (o, stored) ↦
            let (move, shared) = moves id o stored in
            let same : L.version o ≡ w = ground (arith, ==_iff (L.version o) w) in
            (
              record {
                object = o;
                stored = stored;
                below = omega (arith, same, le-max_shared_version 2 shared_objects id w e);
                move_obj = move.0;
                is_move = move.1;
                shared = shared;
              },
              check-IsInput store shared_objects inputs v moves below versions (ground arith),
            )
      ]

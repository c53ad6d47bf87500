-- ===== src/Fake.antt =====
-- src/executor/fake.rs: fake transactions, the store, the check and the execution. A panic is `none`.
-- Spinning takes time and changes nothing, and is left out.
pub mod Outcome
use remora.Prelude.{
  ◌>>=◌, ℕ, List, [], ◌∷◌, Option, none, some, Bool, true, false, Map, get, insert, nat_eq, ◌==◌,
  if◌then◌else◌, ◌≡◌,
}
use remora.SequenceNumber.{SequenceNumbers, next}
use remora.Execution.Store.{max_shared_version, modified_at_versions, commit_new_objects}

-- What the source calls of Sui's objects and input kinds.
pub record FakeLibrary : Type 1 where
  pub Object : Type 0
  pub MoveObject : Type 0
  pub Owner : Type 0
  pub InputObjectKind : Type 0
  pub id : Object → ℕ
  pub version : Object → ℕ
  pub is_shared : Object → Bool
  pub get_owner : Object → Option Owner
  pub new_gas_coin : ℕ → ℕ → ℕ → MoveObject
  pub new_move : MoveObject → Owner → Object
  pub shared_owner : ℕ → Owner
  pub object_id : InputObjectKind → ℕ
  pub as_shared_move_object : InputObjectKind → Option ℕ
  pub shared_move_object : ℕ → ℕ → InputObjectKind
  pub owned_move_object : Object → InputObjectKind

pub record FakeLibraryLaws (L : FakeLibrary) : Type 0 where
  pub id-new_move :
      (v id balance : ℕ) (w : L.Owner) → L.id (L.new_move (L.new_gas_coin v id balance) w) ≡ id
  pub version-new_move :
      (v id balance : ℕ) (w : L.Owner) → L.version (L.new_move (L.new_gas_coin v id balance) w) ≡ v
  pub is_shared-shared_owner :
      (m : L.MoveObject) (v : ℕ) → L.is_shared (L.new_move m (L.shared_owner v)) ≡ true
  pub is_shared-get_owner :
      (o : L.Object) (m : L.MoveObject) (w : L.Owner)
      → L.get_owner o ≡ some w
      → L.is_shared (L.new_move m w) ≡ L.is_shared o

module _ ⦃L : FakeLibrary⦄ where
  pub record FakeTransaction : Type 0 where
    pub digest : ℕ
    pub inputs : List L.InputObjectKind
    pub shared_objects : List (ℕ × ℕ)

  pub record FakeTransactionEffects : Type 0 where
    pub transaction_digest : ℕ
    pub modified : List (ℕ × ℕ)

  abbrev pub FakeObjectStore : Type 0
  FakeObjectStore = Map ℕ L.Object

  unfoldable pub write_object : FakeObjectStore → L.Object → FakeObjectStore
  write_object store object = insert store (L.id object) object

  unfoldable pub input_kind : L.Object → L.InputObjectKind
  input_kind object =
      if L.is_shared object
      then L.shared_move_object (L.id object) (L.version object)
      else L.owned_move_object object

  unfoldable pub input_kinds : FakeObjectStore → List ℕ → Option (List L.InputObjectKind)
  unfolding input_kind
  input_kinds store [] = some []
  input_kinds store (id ∷ ids) = do
    object ← get store id
    kinds ← input_kinds store ids
    some (input_kind object ∷ kinds)

  -- The digest is drawn at random by the source.
  unfoldable pub from_store : FakeObjectStore → ℕ → List ℕ → Option FakeTransaction
  unfolding input_kinds
  from_store store digest ids = do
    kinds ← input_kinds store ids
    some (record { digest = digest; inputs = kinds; shared_objects = [] })

  unfoldable pub shared_object_ids : List L.InputObjectKind → List ℕ
  shared_object_ids [] = []
  shared_object_ids (kind ∷ kinds) = elim (L.as_shared_move_object kind) [
    | some id ↦ id ∷ shared_object_ids kinds
    | none ↦ shared_object_ids kinds
  ]

  unfoldable pub update_object_with_version : L.Object → ℕ → Option L.Object
  update_object_with_version input version = do
    owner ← (if L.is_shared input then some (L.shared_owner version) else L.get_owner input)
    some (L.new_move (L.new_gas_coin version (L.id input) 10) owner)

  -- The loop over the inputs.
  unfoldable pub output_objects :
      FakeObjectStore → ℕ → Map ℕ L.Object → List L.InputObjectKind → Option (Map ℕ L.Object)
  unfolding update_object_with_version
  output_objects store next_version new_state [] = some new_state
  output_objects store next_version new_state (reference ∷ inputs) = do
    let id = L.object_id reference
    input_object ← get store id
    output_object ← update_object_with_version input_object next_version
    output_objects store next_version (insert new_state id output_object) inputs

  -- What an execution returns, with the store that it leaves.
  pub record Executed : Type 0 where
    pub updates : FakeTransactionEffects
    pub new_state : Map ℕ L.Object
    pub store : FakeObjectStore

  unfoldable pub execute :
      ⦃S : SequenceNumbers⦄
      → FakeObjectStore
      → FakeTransaction
      → List (ℕ × Option ℕ)
      → Option Executed
  unfolding max_shared_version modified_at_versions output_objects commit_new_objects
  execute store transaction shared_objects = do
    let next_version = next (max_shared_version 2 shared_objects)
    new_state ← output_objects store next_version [] transaction.inputs
    some (record {
      updates = record {
        transaction_digest = transaction.digest;
        modified = modified_at_versions shared_objects;
      };
      new_state = new_state;
      store = commit_new_objects store new_state;
    })

  -- The check of one input; a shared one whose version is not assigned is a panic.
  unfoldable pub check_input :
      FakeObjectStore → List (ℕ × Option ℕ) → L.InputObjectKind → Option Bool
  check_input store shared_objects reference = elim (get store (L.object_id reference)) [
    | none ↦ some false
    | some object ↦ elim (L.as_shared_move_object reference) [
      | none ↦ some true
      | some _ ↦ elim (get shared_objects (L.object_id reference)) [
        | none ↦ some true
        | some none ↦ none
        | some (some version) ↦ some (L.version object == version)
      ]
    ]
  ]

  unfoldable pub pre_execute_check :
      FakeObjectStore → List (ℕ × Option ℕ) → List L.InputObjectKind → Option Bool
  unfolding check_input
  pre_execute_check store shared_objects [] = some true
  pre_execute_check store shared_objects (reference ∷ inputs) =
      elim (check_input store shared_objects reference) [
        | none ↦ none
        | some false ↦ some false
        | some true ↦ pre_execute_check store shared_objects inputs
      ]

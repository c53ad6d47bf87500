-- ===== src/Tests/Fake.antt =====
-- A fake transaction over two shared objects, in a store with a third one.
use remora.Prelude.{
  ℕ, ◌≡◌, refl, none, some, get, nat_eq, arith, List, [], ◌∷◌, Option, map, true, false, Bool, Map,
  insert, if◌then◌else◌,
}
use remora.SequenceNumber.{plain_numbers, next}
use remora.Execution.Store.{max_shared_version}
use remora.Fake.{
  FakeLibrary, FakeLibraryLaws, FakeTransaction, Executed, execute, pre_execute_check, check_input,
  from_store, input_kinds, input_kind, write_object, shared_object_ids,
}
use remora.Fake.Outcome.{Leaves, fake_execute_lem}

-- An object is its id, its version, and whether it is shared.
instance abbrev triples : FakeLibrary
triples = record {
  Object = ℕ × ℕ × Bool;
  MoveObject = ℕ × ℕ;
  Owner = Bool;
  InputObjectKind = ℕ × Bool;
  id = λ o. o.0;
  version = λ o. o.1;
  is_shared = λ o. o.2;
  get_owner = λ o. some o.2;
  new_gas_coin = λ v id balance. (id, v);
  new_move = λ m w. (m.0, m.1, w);
  shared_owner = λ v. true;
  object_id = λ k. k.0;
  as_shared_move_object = λ k. if k.1 then some k.0 else none;
  shared_move_object = λ id v. (id, true);
  owned_move_object = λ o. (o.0, false);
}

triples_laws : FakeLibraryLaws triples
triples_laws = record {
  id-new_move = λ v id balance w. refl;
  version-new_move = λ v id balance w. refl;
  is_shared-shared_owner = λ m v. refl;
  is_shared-get_owner = λ o m w e. ground (arith, e);
}

abbrev store : Map ℕ (ℕ × ℕ × Bool)
store = (7, (7, 3, true)) ∷ (8, (8, 1, false)) ∷ (9, (9, 4, true)) ∷ []

abbrev transfer : FakeTransaction
transfer = record { digest = 1; inputs = (7, true) ∷ (8, false) ∷ []; shared_objects = [] }

abbrev versions : List (ℕ × Option ℕ)
versions = (7, some 3) ∷ []

written_store : write_object (write_object [] (7, 3, true)) (7, 4, true) ≡ (7, (7, 4, true)) ∷ []
unfolding write_object insert
written_store = refl

transfer_inputs : from_store store 1 (7 ∷ 8 ∷ []) ≡ some transfer
unfolding from_store input_kinds input_kind get
transfer_inputs = refl

transfer_shared : shared_object_ids transfer.inputs ≡ 7 ∷ []
unfolding shared_object_ids
transfer_shared = refl

not_assigned_panics : pre_execute_check store ((7, none) ∷ []) transfer.inputs ≡ none
unfolding pre_execute_check check_input get
not_assigned_panics = refl

check_passes : pre_execute_check store versions transfer.inputs ≡ some true
unfolding pre_execute_check check_input get
check_passes = refl

fake_execute_lem_example :
    (r : Executed) × (execute store transfer versions ≡ some r)
    × ((id : ℕ)
        → Leaves store r.store
            (map triples.object_id transfer.inputs)
            (next (max_shared_version 2 versions))
            id)
fake_execute_lem_example =
    fake_execute_lem triples_laws store transfer versions (λ id o e f g. absurd (ground (arith, g)))
      check_passes

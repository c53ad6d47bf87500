-- ===== src/Fake/Outcome.antt =====
-- An execution of a fake transaction after its check.
use remora.Prelude.{
  ℕ, ◌≡◌, ◌≢◌, subst, sym, refl, none, some, get, insert, get-insert, contains, nat_eq, arith, List,
  [], ◌∷◌, Option, map, true, false, ◌==◌, ==_iff, inl, inr, ◌⊎◌, Option-cases, Bool-cases, Map,
  All, if◌then◌else◌, ◌∙◌,
}
use remora.SequenceNumber.{SequenceNumbers, next}
use remora.Execution.Store.{
  max_shared_version, modified_at_versions, commit_new_objects, Unique, insert-Unique, commit_lem,
}
use remora.Fake.{
  FakeLibrary, FakeLibraryLaws, FakeObjectStore, FakeTransaction, Executed,
  update_object_with_version, output_objects, execute, check_input, pre_execute_check,
}

module _ ⦃L : FakeLibrary⦄ where
  -- An object that is not shared has a single owner.
  abbrev pub HasOwners : FakeObjectStore → Type 0
  HasOwners store =
      (id : ℕ) (o : L.Object) → get store id ≡ some o → L.is_shared o ≡ false → L.get_owner o ≢ none

  -- The next version of an object of a store.
  unfoldable written : FakeObjectStore → ℕ → ℕ → Option L.Object
  unfolding update_object_with_version
  written store v id = elim (get store id) [ none ↦ none | some o ↦ update_object_with_version o v ]

  -- What an execution leaves of an object: an input is at the next version, shared as it was; another
  -- object is as before.
  abbrev pub Leaves : FakeObjectStore → FakeObjectStore → List ℕ → ℕ → ℕ → Type 0
  Leaves before after ids v id =
      ((contains ids id ≡ true)
        × (o p : L.Object) × (get before id ≡ some o)
        × (get after id ≡ some p)
        × (L.id p ≡ L.id o)
        × (L.version p ≡ v)
        × (L.is_shared p ≡ L.is_shared o))
      ⊎ ((contains ids id ≡ false) × (get after id ≡ get before id))

  -- An input that has a next version, with its id and shared as it was.
  record IsInput (store : FakeObjectStore) (v id : ℕ) : Type 0 where
    object : L.Object
    output : L.Object
    stored : get store id ≡ some object
    updated : update_object_with_version object v ≡ some output
    same_id : L.id output ≡ L.id object
    at_version : L.version output ≡ v
    shared : L.is_shared output ≡ L.is_shared object

  written-IsInput :
      (store : FakeObjectStore) (v id : ℕ) (i : IsInput store v id)
      → written store v id ≡ some i.output
  unfolding written
  written-IsInput store v id i = rw (written, i.stored) i.updated

  IsInput-at :
      (store : FakeObjectStore) (v id : ℕ) (inputs : List L.InputObjectKind)
      → All (λ k. IsInput store v (L.object_id k)) inputs
      → contains (map L.object_id inputs) id ≡ true
      → IsInput store v id
  unfolding contains
  IsInput-at store v id [] h m = absurd (ground arith)
  IsInput-at store v id (k ∷ inputs) h m = elim (Bool-cases (L.object_id k == id)) [
    | inl same ↦ subst (IsInput store v) ((==_iff (L.object_id k) id).0 same) h.0
    | inr differs ↦ IsInput-at store v id inputs h.1 (ground (arith, m, differs))
  ]

  output_objects-written :
      (store : FakeObjectStore) (v : ℕ) (new_state : Map ℕ L.Object)
      (inputs : List L.InputObjectKind)
      → All (λ k. IsInput store v (L.object_id k)) inputs
      → Unique new_state
      → (after : Map ℕ L.Object) × (output_objects store v new_state inputs ≡ some after)
        × Unique after
        × ((id : ℕ)
            → get after id ≡ (
                if contains (map L.object_id inputs) id
                then written store v id
                else get new_state id))
  unfolding output_objects contains
  output_objects-written store v new_state [] h u = (new_state, refl, u, λ id. refl)
  output_objects-written store v new_state (k ∷ inputs) h u =
      let i = h.0 in
      let (after, returns, u', at) =
        output_objects-written store v (insert new_state (L.object_id k) i.output) inputs h.1
          (insert-Unique new_state (L.object_id k) i.output u) in
      (
        after,
        rw (i.stored, i.updated) returns,
        u',
        λ id. elim (Bool-cases (L.object_id k == id)) [
          | inr differs ↦
              ground (arith, at id, get-insert new_state (L.object_id k) id i.output, differs)
          | inl same ↦
              let here : written store v id ≡ some i.output =
                subst (λ j. written store v j ≡ some i.output) ((==_iff (L.object_id k) id).0 same)
                  (written-IsInput store v (L.object_id k) i) in
              ground (arith, at id, get-insert new_state (L.object_id k) id i.output, same, here)
        ],
      )

  module _ (laws : FakeLibraryLaws L) where
    update-IsInput :
        (store : FakeObjectStore) (v id : ℕ) (o : L.Object)
        → HasOwners store
        → get store id ≡ some o
        → IsInput store v id
    unfolding update_object_with_version
    update-IsInput store v id o owners e =
        let coin = L.new_gas_coin v (L.id o) 10 in
        let input : (w : L.Owner)
            → update_object_with_version o v ≡ some (L.new_move coin w)
            → L.is_shared (L.new_move coin w) ≡ L.is_shared o
            → IsInput store v id =
          λ w updated shared. record {
            object = o;
            output = L.new_move coin w;
            stored = e;
            updated = updated;
            same_id = laws.id-new_move v (L.id o) 10 w;
            at_version = laws.version-new_move v (L.id o) 10 w;
            shared = shared;
          } in
        elim (Bool-cases (L.is_shared o)) [
          | inl shared ↦
              input (L.shared_owner v) (rw shared refl)
                (laws.is_shared-shared_owner coin v ∙ sym shared)
          | inr single ↦ elim (Option-cases (L.get_owner o)) [
            | inl missing ↦ absurd (owners id o e single missing)
            | inr (w, owner) ↦
                input w (rw (single, owner) refl) (laws.is_shared-get_owner o coin w owner)
          ]
        ]

    check-IsInput :
        (store : FakeObjectStore) (v : ℕ) (shared_objects : List (ℕ × Option ℕ))
        (inputs : List L.InputObjectKind)
        → HasOwners store
        → pre_execute_check store shared_objects inputs ≡ some true
        → All (λ k. IsInput store v (L.object_id k)) inputs
    unfolding pre_execute_check check_input
    check-IsInput store v shared_objects [] owners h = tt
    check-IsInput store v shared_objects (k ∷ inputs) owners h =
        let later : pre_execute_check store shared_objects inputs ≡ some true = ground (arith, h) in
        elim (Option-cases (get store (L.object_id k))) [
          | inl missing ↦ absurd (ground (arith, h, missing))
          | inr (o, e) ↦ (
            update-IsInput store v (L.object_id k) o owners e,
            check-IsInput store v shared_objects inputs owners later,
          )
        ]

    output-Leaves :
        (store after : FakeObjectStore) (inputs : List L.InputObjectKind) (v id : ℕ)
        → All (λ k. IsInput store v (L.object_id k)) inputs
        → Unique after
        → get after id ≡ (if contains (map L.object_id inputs) id then written store v id else none)
        → Leaves store (commit_new_objects store after) (map L.object_id inputs) v id
    output-Leaves store after inputs v id h unique at =
        let left = commit_lem store after id unique in
        elim (Bool-cases (contains (map L.object_id inputs) id)) [
          | inr outer ↦ inr (outer, ground (arith, left, at, outer))
          | inl inner ↦
              let i = IsInput-at store v id inputs h inner in
              inl (
                inner,
                i.object,
                i.output,
                i.stored,
                ground (arith, left, at, inner, written-IsInput store v id i),
                i.same_id,
                i.at_version,
                i.shared,
              )
        ]

    module _ ⦃S : SequenceNumbers⦄ where
      -- If the check of a fake transaction passes on a store in which each object that is not shared has an
      -- owner, then its execution does not panic. It leaves each input at the version after the largest of
      -- the shared objects', with its id and shared as it was, and all other objects as they were.
      pub fake_execute_lem :
          (store : FakeObjectStore) (transaction : FakeTransaction)
          (shared_objects : List (ℕ × Option ℕ))
          → HasOwners store
          → pre_execute_check store shared_objects transaction.inputs ≡ some true
          → (r : Executed) × (execute store transaction shared_objects ≡ some r)
            × ((id : ℕ)
                → Leaves store r.store
                    (map L.object_id transaction.inputs)
                    (next (max_shared_version 2 shared_objects))
                    id)
      unfolding execute get
      fake_execute_lem store transaction shared_objects owners check =
          let v = next (max_shared_version 2 shared_objects) in
          let inputs = check-IsInput store v shared_objects transaction.inputs owners check in
          let (after, returns, unique, at) =
            output_objects-written store v [] transaction.inputs inputs tt in
          (
            record {
              updates = record {
                transaction_digest = transaction.digest;
                modified = modified_at_versions shared_objects;
              };
              new_state = after;
              store = commit_new_objects store after;
            },
            rw returns refl,
            λ id. output-Leaves store after transaction.inputs v id inputs unique (at id),
          )

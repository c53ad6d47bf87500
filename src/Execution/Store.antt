-- ===== src/Execution/Store.antt =====
-- What the executors of src/executor/fake.rs and src/executor/tpcc/executor.rs share: a store that is a
-- map of objects by their ids, and the versions of the shared objects of a transaction.
use remora.Prelude.{
  ℕ, ◌≡◌, refl, subst, none, some, get, insert, get-insert, nat_eq, arith, List, [], ◌∷◌, Option,
  ◌==◌, ==_iff, inl, inr, Bool-cases, Map, if◌then◌else◌, ltb,
}

-- The versions of the shared objects that have one, and the largest of them and a start value.
unfoldable pub max_shared_version : ℕ → List (ℕ × Option ℕ) → ℕ
max_shared_version max_version [] = max_version
max_shared_version max_version ((id, none) ∷ objects) = max_shared_version max_version objects
max_shared_version max_version ((id, some v) ∷ objects) =
    max_shared_version (if ltb max_version v then v else max_version) objects

unfoldable pub modified_at_versions : List (ℕ × Option ℕ) → List (ℕ × ℕ)
modified_at_versions [] = []
modified_at_versions ((id, none) ∷ objects) = modified_at_versions objects
modified_at_versions ((id, some v) ∷ objects) = (id, v) ∷ modified_at_versions objects

module _ {ℓ} {A : Type ℓ} where
  unfoldable pub commit_new_objects : Map ℕ A → Map ℕ A → Map ℕ A
  commit_new_objects store [] = store
  commit_new_objects store ((id, object) ∷ new_state) =
      commit_new_objects (insert store id object) new_state

  -- Each key has one entry.
  abbrev pub Unique : Map ℕ A → Type ℓ
  Unique [] = Unit {ℓ}
  Unique ((k, o) ∷ m) = (get m k ≡ none) × Unique m

  pub insert-Unique : (m : Map ℕ A) (k : ℕ) (o : A) → Unique m → Unique (insert m k o)
  unfolding insert get
  insert-Unique [] k o u = (refl, tt)
  insert-Unique ((j, p) ∷ m) k o u = elim (Bool-cases (j == k)) [
    | inl same ↦ rw (same, insert) (subst (λ i. get m i ≡ none) ((==_iff j k).0 same) u.0, u.1)
    | inr differs ↦
        rw (differs, insert)
          (ground (arith, get-insert m k j o, u.0, ==_iff k j, ==_iff j k), insert-Unique m k o u.1)
  ]

  -- A commit writes every entry, and nothing else.
  pub commit_lem :
      (store new_state : Map ℕ A) (id : ℕ)
      → Unique new_state
      → get (commit_new_objects store new_state) id
        ≡ elim (get new_state id) [ none ↦ get store id | some o ↦ some o ]
  unfolding commit_new_objects get
  commit_lem store [] id u = refl
  commit_lem store ((k, o) ∷ new_state) id u = elim (Bool-cases (k == id)) [
    | inl same ↦
        let fresh : get new_state id ≡ none =
          subst (λ i. get new_state i ≡ none) ((==_iff k id).0 same) u.0 in
        ground (arith, commit_lem (insert store k o) new_state id u.1, get-insert store k id o)
    | inr differs ↦
        ground (arith, commit_lem (insert store k o) new_state id u.1, get-insert store k id o)
  ]

-- ===== src/Tpcc/Execute/Outcome.antt =====
-- An execution after its check: what it leaves of each object.
use remora.Prelude.{
  All-map, ℕ, ◌≡◌, refl, none, some, get, contains, nat_eq, arith, List, [], Option, true, false,
  inl, inr, ◌⊎◌, Option-cases, Bool-cases, All-get,
}
use remora.SequenceNumber.{SequenceNumbers, next}
use remora.Tpcc.Library.{TpccLibrary, TpccLibraryLaws}
use remora.Tpcc.Execute.{
  TpccExecutableTransaction, Objects, Executed, execute, execute_tpcc_logic, pre_execute_check,
}
use remora.Tpcc.Execute.Logic.{HasRows, execute_tpcc_logic-Writes}
use remora.Tpcc.Execute.Inputs.{HasVersions, HasMoveObjects, check-IsInput}
use remora.Tpcc.Execute.Output.{IsOutput, output_objects-returns}
use remora.Execution.Store.{
  max_shared_version, commit_new_objects, modified_at_versions, commit_lem,
}

module _ ⦃L : TpccLibrary⦄ (laws : TpccLibraryLaws L) where
  module _ ⦃S : SequenceNumbers⦄ where
    -- What an execution leaves of an object: an input is at the next version, as the logic wrote it, if
    -- it did; another object is as before.
    abbrev pub Leaves : Objects → Objects → Objects → List ℕ → ℕ → ℕ → Type 0
    Leaves before updated after inputs v id =
        ((contains inputs id ≡ true)
          × (o : L.Object) × (get after id ≡ some o)
          × (L.version o ≡ v)
          × ((get updated id ≡ none) ⊎ (get updated id ≡ some o)))
        ⊎ ((contains inputs id ≡ false) × (get after id ≡ get before id))

    output-Leaves :
        (store updated after : Objects) (inputs : List ℕ) (v id : ℕ)
        → IsOutput laws v updated inputs [] after
        → Leaves store updated (commit_new_objects store after) inputs v id
    unfolding get
    output-Leaves store updated after inputs v id out =
        let left = commit_lem store after id out.unique in
        elim (Bool-cases (contains inputs id)) [
          | inr outer ↦ inr (outer, ground (arith, left, out.outside id outer))
          | inl inner ↦ elim (Option-cases (get after id)) [
            | inl missing ↦ absurd (out.inside id inner missing)
            | inr (o, e) ↦ inl (
              inner,
              o,
              ground (arith, left, e),
              All-get (λ e. L.version e.1 ≡ v) after id o out.versions e,
              elim (Option-cases (get updated id)) [
                | inl read ↦ inl read
                | inr (p, w) ↦ inr (ground (arith, out.written id p w inner, e, w))
              ],
            )
          ]
        ]

    -- If the check of a transaction passes on a store of shared Move objects with the rows that it reads,
    -- those that it writes back having names of at most 1000 bytes, and its inputs having their versions
    -- assigned, then its execution does not panic. It leaves each input
    -- at the version after the largest of the shared objects', as the logic wrote it, if it did, and all
    -- other objects as they were.
    pub execute_lem :
        (store : Objects) (transaction : TpccExecutableTransaction)
        (shared_objects : List (ℕ × Option ℕ))
        → HasRows store transaction.txn
        → HasMoveObjects store
        → HasVersions shared_objects transaction.inputs
        → pre_execute_check store transaction.inputs shared_objects ≡ true
        → (r : Executed) × (updated : Objects) × (cache : Objects) × (execute store transaction
              shared_objects
            ≡ some r)
          × (execute_tpcc_logic store transaction.txn
                (next (max_shared_version 2 shared_objects))
                []
              ≡ some (updated, cache))
          × ((id : ℕ)
              → Leaves store updated r.store transaction.inputs
                  (next (max_shared_version 2 shared_objects))
                  id)
    unfolding execute get
    execute_lem store transaction shared_objects rows moves versions check =
        let v = next (max_shared_version 2 shared_objects) in
        let inputs =
          check-IsInput store shared_objects transaction.inputs v moves
            (omega (arith, S.next_lem (max_shared_version 2 shared_objects))) versions check in
        let (updated, cache, executed, c, written) =
          execute_tpcc_logic-Writes laws store [] transaction.txn v
            (λ id o e. absurd (ground arith)) rows in
        let (after, output, out) =
          output_objects-returns laws store cache v updated [] transaction.inputs c
            (All-map (λ e w. w.0) updated written) tt tt inputs in
        (
          record {
            modified = modified_at_versions shared_objects;
            new_state = after;
            store = commit_new_objects store after;
          },
          updated,
          cache,
          rw (executed, output) refl,
          executed,
          λ id. output-Leaves store updated after transaction.inputs v id out,
        )

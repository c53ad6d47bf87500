-- ===== src/Tpcc/Execute/Output.antt =====
-- The outputs of an execution, and their commit.
use remora.Prelude.{
  ap, ◌≢◌, All-insert, ◌∙◌, ℕ, ◌≡◌, refl, none, some, get, insert, contains, get-insert, nat_eq,
  arith, All, List, [], ◌∷◌, true, false, ◌==◌, ==_iff, inl, inr, ◌⊎◌, Option-cases, All-get,
}
use remora.Tpcc.Library.{TpccLibrary, TpccLibraryLaws}
use remora.Tpcc.Execute.{Objects, update_object_with_version, output_objects}
use remora.Execution.Store.{Unique, insert-Unique}
use remora.Tpcc.Execute.Reads.{Coherent, get_object-returns}
use remora.Tpcc.Execute.Inputs.{IsInput}

module _ ⦃L : TpccLibrary⦄ (laws : TpccLibraryLaws L) where
  update_object_with_version-returns :
      (store : Objects) (v id : ℕ) (i : IsInput store v id)
      → (o : L.Object) × (update_object_with_version i.object v ≡ some o) × (L.version o ≡ v)
  unfolding update_object_with_version
  update_object_with_version-returns store v id i =
      let m = i.move_obj in
      (
        L.new_move (L.increment_version_to m v) (L.shared_owner v),
        rw (i.is_move, i.shared) refl,
        laws.version-new_move (L.increment_version_to m v) (L.shared_owner v)
            ∙ (laws.increment_version_lem m v
                (omega (arith, i.below, laws.move_version-try_as_move i.object m i.is_move))).0,
      )

  -- The outputs so far: at the version, with one for each input, which is what the logic wrote for it, if
  -- it wrote anything.
  pub record IsOutput (v : ℕ) (updated : Objects) (inputs : List ℕ) (before after : Objects)
      : Type 0 where
    pub versions : All (λ e. L.version e.1 ≡ v) after
    pub unique : Unique after
    pub inside : (id : ℕ) → contains inputs id ≡ true → get after id ≢ none
    pub outside : (id : ℕ) → contains inputs id ≡ false → get after id ≡ get before id
    pub kept : (id : ℕ) → get before id ≢ none → get after id ≢ none
    pub written :
        (id : ℕ) (o : L.Object)
        → get updated id ≡ some o
        → contains inputs id ≡ true
        → get after id ≡ some o
    pub stays :
        (id : ℕ) (o : L.Object)
        → get updated id ≡ some o
        → get before id ≡ some o
        → get after id ≡ some o

  IsOutput-step :
      (v : ℕ) (updated : Objects) (id : ℕ) (inputs : List ℕ) (o : L.Object) (before after : Objects)
      → (get updated id ≡ none) ⊎ (get updated id ≡ some o)
      → IsOutput v updated inputs (insert before id o) after
      → IsOutput v updated (id ∷ inputs) before after
  unfolding contains
  IsOutput-step v updated id inputs o before after agrees h =
      let same_at : (j : ℕ) → (id == j) ≡ true → get updated id ≡ get updated j =
        λ j same. ap (get updated) ((==_iff id j).0 same) in
      record {
        versions = h.versions;
        unique = h.unique;
        inside =
            λ j m e. ground (arith, h.inside j, h.kept j, get-insert before id j o, ==_iff id j);
        outside = λ j m. ground (arith, h.outside j, get-insert before id j o);
        kept = λ j k e. ground (arith, h.kept j, k, get-insert before id j o);
        written = λ j p e m.
            ground (arith, same_at j, agrees, h.written j p, h.stays j p, get-insert before id j o);
        stays = λ j p e k. ground (arith, same_at j, agrees, h.stays j p, get-insert before id j o);
      }

  pub output_objects-returns :
      (store cache : Objects) (v : ℕ) (updated new_state : Objects) (inputs : List ℕ)
      → Coherent store cache
      → All (λ e. L.version e.1 ≡ v) updated
      → All (λ e. L.version e.1 ≡ v) new_state
      → Unique new_state
      → All (IsInput store v) inputs
      → (after : Objects) × (output_objects store cache v updated new_state inputs ≡ some after)
        × IsOutput v updated inputs new_state after
  unfolding output_objects contains
  output_objects-returns store cache v updated new_state [] c hu hn u h = (
    new_state,
    refl,
    record {
      versions = hn;
      unique = u;
      inside = λ id m. absurd (ground arith);
      outside = λ id m. refl;
      kept = λ id k. k;
      written = λ id o e m. absurd (ground arith);
      stays = λ id o e k. k;
    },
  )
  output_objects-returns store cache v updated new_state (id ∷ inputs) c hu hn u h =
      elim (Option-cases (get updated id)) [
        | inr (o, written) ↦
            let (after, rest, out) =
              output_objects-returns store cache v updated (insert new_state id o) inputs c hu
                (All-insert (λ e. L.version e.1 ≡ v) new_state id o hn
                  (All-get (λ e. L.version e.1 ≡ v) updated id o hu written))
                (insert-Unique new_state id o u) h.1 in
            (
              after,
              ground (arith, rest),
              IsOutput-step v updated id inputs o new_state after (inr written) out,
            )
        | inl read ↦
            let (cache', found, c') = get_object-returns store cache id h.0.object c h.0.stored in
            let (o, made, at) = update_object_with_version-returns store v id h.0 in
            let (after, rest, out) =
              output_objects-returns store cache' v updated (insert new_state id o) inputs c' hu
                (All-insert (λ e. L.version e.1 ≡ v) new_state id o hn at)
                (insert-Unique new_state id o u) h.1 in
            (
              after,
              rw (read, output_objects, found, made) rest,
              IsOutput-step v updated id inputs o new_state after (inl read) out,
            )
      ]

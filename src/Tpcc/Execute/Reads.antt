-- ===== src/Tpcc/Execute/Reads.antt =====
-- Reads and writes of rows on a store that holds them.
use remora.Prelude.{
  Bool-cases, ◌==◌, ==_iff, subst, ℕ, ◌≤◌, ◌≡◌, refl, inl, inr, some, get, insert, get-insert,
  nat_eq, arith, Option-cases,
}
use remora.Tpcc.Library.{TpccLibrary, TpccLibraryLaws, TpccObjectKind, Row, name_length}
use remora.Tpcc.Data.{encode_tpcc_object, decode_tpcc_data, decode-encode}
use remora.Tpcc.Execute.{Objects, get_object, read_tpcc_data}

-- The names of a row are not so long that its object is over the limit.
abbrev pub IsShort : (k : TpccObjectKind) → Row k → Type 0
IsShort k row = name_length k row ≤ 1000

module _ ⦃L : TpccLibrary⦄ where
  -- The store has an object of a row with the property.
  pub record Holds {ℓ} (store : Objects) (id : ℕ) (k : TpccObjectKind) (P : Row k → Type ℓ)
      : Type ℓ where
    pub object : L.Object
    pub stored : get store id ≡ some object
    pub row : Row k
    pub decodes : decode_tpcc_data object k ≡ some row
    pub holds : P row

  -- The cache has objects of the store.
  abbrev pub Coherent : Objects → Objects → Type 0
  Coherent store cache = (id : ℕ) (o : L.Object) → get cache id ≡ some o → get store id ≡ some o

  pub get_object-returns :
      (store cache : Objects) (id : ℕ) (o : L.Object)
      → Coherent store cache
      → get store id ≡ some o
      → (cache' : Objects) × (get_object store cache id ≡ some (o, cache')) × Coherent store cache'
  unfolding get_object
  get_object-returns store cache id o c e = elim (Option-cases (get cache id)) [
    | inl missing ↦ (
      insert cache id o,
      ground arith,
      λ j p g. elim (Bool-cases (id == j)) [
        | inl same ↦
            let equal : o ≡ p = ground (arith, get-insert cache id j o) in
            subst (λ x. get store j ≡ some x) equal
              (subst (λ i. get store i ≡ some o) ((==_iff id j).0 same) e)
        | inr differs ↦ c j p (ground (arith, get-insert cache id j o))
      ],
    )
    | inr (p, cached) ↦ (cache, ground (arith, c id p cached), c)
  ]

  pub read-returns {ℓ} :
      (store cache : Objects) (id : ℕ) (k : TpccObjectKind) (P : Row k → Type ℓ)
      → Coherent store cache
      → Holds store id k P
      → (row : Row k) × (cache' : Objects) × (read_tpcc_data store cache id k ≡ some (row, cache'))
        × Coherent store cache'
        × P row
  unfolding read_tpcc_data
  read-returns store cache id k P c h =
      let (cache', found, c') = get_object-returns store cache id h.object c h.stored in
      (h.row, cache', rw (found, h.decodes) refl, c', h.holds)

  -- A short row is written at the version.
  pub encode-returns :
      TpccLibraryLaws L
      → (id v : ℕ) (k : TpccObjectKind) (row : Row k) → IsShort k row
      → (o : L.Object) × (encode_tpcc_object id v k row ≡ some o)
        × (L.version o ≡ v)
        × (decode_tpcc_data o k ≡ some row)
  encode-returns laws id v k row short =
      let (o, made, at, _, decodes) =
        decode-encode laws id v k row
          (omega (arith, short, laws.length-to_bytes k (record { id = id; data_row = row }))) in
      (o, made, at, decodes)

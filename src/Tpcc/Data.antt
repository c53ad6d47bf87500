-- ===== src/Tpcc/Data.antt =====
-- src/executor/tpcc/data.rs: the encoding of rows as objects, and the ids of objects.
use remora.Prelude.{
  ◌∙◌, ℕ, zero, suc, ◌/◌, ◌%◌, ◌^◌, List, [], ◌∷◌, ◌++◌, Option, none, some, map, ◌≡◌, ◌≤◌, length,
  refl, ap, concat,
}
use remora.Tpcc.Library.{
  TpccObjectKind, Row, TpccObject, Key, warehouse_key, district_key, customer_key, stock_key,
  item_key, max_tpcc_object_size, TpccLibrary, TpccLibraryLaws,
}

abbrev pub districts_per_warehouse : ℕ
districts_per_warehouse = 10

abbrev pub customers_per_district : ℕ
customers_per_district = 3000

abbrev pub num_items : ℕ
num_items = 100000

abbrev pub stock_per_warehouse : ℕ
stock_per_warehouse = 100000

-- hash.to_le_bytes(), `count` bytes of it
abbrev to_le_bytes : ℕ → ℕ → List ℕ
to_le_bytes zero hash = []
to_le_bytes (suc count) hash = hash % 2 ^ 8 ∷ to_le_bytes count (hash / 2 ^ 8)

-- ((hash >> (i % 8)) & 0xFF) as u8, for `count` bytes from the i-th
abbrev pattern_bytes : ℕ → ℕ → ℕ → List ℕ
pattern_bytes zero i hash = []
pattern_bytes (suc count) i hash = hash / 2 ^ (i % 8) % 2 ^ 8 ∷ pattern_bytes count (suc i) hash

-- `1..=n`, from `start` on.
abbrev pub from_to : ℕ → ℕ → List ℕ
from_to start zero = []
from_to start (suc count) = start ∷ from_to (suc start) count

module _ ⦃L : TpccLibrary⦄ where
  unfoldable pub make_object_id : Key → ℕ
  make_object_id key =
      let hash = L.hash key in L.id_of_bytes (to_le_bytes 8 hash ++ pattern_bytes 24 0 hash)

  abbrev pub object_id_for_warehouse : ℕ → ℕ
  object_id_for_warehouse w_id = make_object_id (warehouse_key w_id)

  abbrev pub object_id_for_district : ℕ → ℕ → ℕ
  object_id_for_district w_id d_id = make_object_id (district_key w_id d_id)

  abbrev pub object_id_for_customer : ℕ → ℕ → ℕ → ℕ
  object_id_for_customer w_id d_id c_id = make_object_id (customer_key w_id d_id c_id)

  abbrev pub object_id_for_stock : ℕ → ℕ → ℕ
  object_id_for_stock w_id i_id = make_object_id (stock_key w_id i_id)

  abbrev pub object_id_for_item : ℕ → ℕ
  object_id_for_item i_id = make_object_id (item_key i_id)

  unfoldable pub all_warehouse_ids : ℕ → List ℕ
  all_warehouse_ids num_warehouses = map object_id_for_warehouse (from_to 1 num_warehouses)

  unfoldable pub all_district_ids : ℕ → List ℕ
  all_district_ids num_warehouses = concat (
      map (λ w. map (object_id_for_district w) (from_to 1 districts_per_warehouse))
        (from_to 1 num_warehouses))

  unfoldable pub all_customer_ids : ℕ → List ℕ
  all_customer_ids num_warehouses = concat (
      map
        (λ w. concat (
          map (λ d. map (object_id_for_customer w d) (from_to 1 customers_per_district))
            (from_to 1 districts_per_warehouse)))
        (from_to 1 num_warehouses))

  unfoldable pub all_stock_ids : ℕ → List ℕ
  all_stock_ids num_warehouses = concat (
      map (λ w. map (object_id_for_stock w) (from_to 1 stock_per_warehouse))
        (from_to 1 num_warehouses))

  unfoldable pub all_item_ids : List ℕ
  all_item_ids = map object_id_for_item (from_to 1 num_items)

  -- `none` is the panic on a row over the limit.
  unfoldable pub encode_tpcc_object : ℕ → ℕ → (k : TpccObjectKind) → Row k → Option L.Object
  encode_tpcc_object id version kind row =
      elim (L.new_from_execution_with_limit kind version
        (L.to_bytes kind (record { id = id; data_row = row })) max_tpcc_object_size) [
          | none ↦ none
          | some move_obj ↦ some (L.new_move move_obj (L.shared_owner version))
        ]

  -- `none` is the panic on an object that is no Move object, or whose contents are not of the kind.
  unfoldable pub decode_tpcc_object : L.Object → (k : TpccObjectKind) → Option (TpccObject (Row k))
  decode_tpcc_object object kind = elim (L.try_as_move object) [
    | none ↦ none
    | some move_obj ↦ L.from_bytes kind (L.contents move_obj)
  ]

  unfoldable pub decode_tpcc_data : L.Object → (k : TpccObjectKind) → Option (Row k)
  unfolding decode_tpcc_object
  decode_tpcc_data object kind = elim (decode_tpcc_object object kind) [
    | none ↦ none
    | some decoded ↦ some decoded.data_row
  ]

module _ ⦃L : TpccLibrary⦄ (laws : TpccLibraryLaws L) where
  -- A row whose bytes are within the limit is encoded, as an object at the given version, and decoded to
  -- itself.
  pub decode-encode :
      (id v : ℕ) (k : TpccObjectKind) (row : Row k)
      → length (L.to_bytes k (record { id = id; data_row = row })) ≤ max_tpcc_object_size
      → (o : L.Object) × (encode_tpcc_object id v k row ≡ some o)
        × (L.version o ≡ v)
        × (decode_tpcc_object o k ≡ some (record { id = id; data_row = row }))
        × (decode_tpcc_data o k ≡ some row)
  unfolding encode_tpcc_object decode_tpcc_object decode_tpcc_data
  decode-encode id v k row h =
      let whole : TpccObject (Row k) = record { id = id; data_row = row } in
      let (m, made, bytes, at) =
        laws.new_from_execution_lem k v (L.to_bytes k whole) max_tpcc_object_size h in
      let read = ap (L.from_bytes k) bytes ∙ laws.from_bytes-to_bytes k whole in
      let move = laws.try_as_move-new_move m (L.shared_owner v) in
      (
        L.new_move m (L.shared_owner v),
        rw (made, encode_tpcc_object) refl,
        laws.version-new_move m (L.shared_owner v) ∙ at,
        rw (move, decode_tpcc_object) read,
        rw (move, decode_tpcc_data, decode_tpcc_object, read) refl,
      )

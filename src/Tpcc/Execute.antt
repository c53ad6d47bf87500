-- ===== src/Tpcc/Execute.antt =====
-- src/executor/tpcc/executor.rs: the store, and the execution of a transaction. A panic is `none`. The
-- total of an order, which the source computes and drops, is left out.
pub mod Reads
pub mod Orders
pub mod Logic
pub mod Inputs
pub mod Output
pub mod Outcome
pub mod Payments
pub mod Books
use remora.Prelude.{
  ◌>>=◌, ℕ, List, [], ◌∷◌, Option, none, some, Bool, true, false, Map, get, insert, contains,
  nat_eq, if◌then◌else◌, ltb, ◌==◌,
}
use remora.SequenceNumber.{SequenceNumbers, next}
use remora.Tpcc.Library.{
  TpccLibrary, TpccObjectKind, Row, Stock, Warehouse, District, Customer, warehouse_kind,
  district_kind, customer_kind, stock_kind, item_kind,
}
use remora.Tpcc.Data.{
  encode_tpcc_object, decode_tpcc_data, object_id_for_warehouse, object_id_for_district,
  object_id_for_customer, object_id_for_stock, object_id_for_item,
}
use remora.Tpcc.Transactions.{OrderItem, TpccTransaction, new_order, payment, access_set}
use remora.Execution.Store.{max_shared_version, modified_at_versions, commit_new_objects}
use remora.Tpcc.Rows.{take_stock, take_order_id, pay_warehouse, pay_district, pay_customer}

-- The inputs are the ids of shared objects.
pub record TpccExecutableTransaction : Type 0 where
  pub digest : ℕ
  pub txn : TpccTransaction
  pub inputs : List ℕ

module _ ⦃L : TpccLibrary⦄ where
  abbrev pub Objects : Type 0
  Objects = Map ℕ L.Object

  unfoldable pub new_executable : ℕ → TpccTransaction → TpccExecutableTransaction
  unfolding access_set
  new_executable digest txn = record { digest = digest; txn = txn; inputs = access_set txn }

  -- `read_object` never fails, and a missing object is a panic. The cache is returned.
  unfoldable pub get_object : Objects → Objects → ℕ → Option (L.Object × Objects)
  get_object store cache id = elim (get cache id) [
    | some object ↦ some (object, cache)
    | none ↦ elim (get store id) [
      | none ↦ none
      | some object ↦ some (object, insert cache id object)
    ]
  ]

  unfoldable pub read_tpcc_data :
      Objects → Objects → ℕ → (k : TpccObjectKind) → Option (Row k × Objects)
  unfolding get_object decode_tpcc_data
  read_tpcc_data store cache id kind = do
    (object, cache') ← get_object store cache id
    row ← decode_tpcc_data object kind
    some (row, cache')

  -- stock_updates.entry(stock_id).or_insert_with(...)
  unfoldable pub stock_entry : Objects → Objects → Map ℕ Stock → ℕ → Option (Stock × Objects)
  unfolding read_tpcc_data
  stock_entry store cache stock_updates stock_id = elim (get stock_updates stock_id) [
    | some stock ↦ some (stock, cache)
    | none ↦ read_tpcc_data store cache stock_id stock_kind
  ]

  -- The loop over the items of an order.
  unfoldable pub order_items :
      Objects → ℕ → Objects → Map ℕ Stock → List OrderItem → Option (Map ℕ Stock × Objects)
  order_items store w_id cache stock_updates [] = some (stock_updates, cache)
  order_items store w_id cache stock_updates (order_item ∷ items) = do
    (item, cache1) ← read_tpcc_data store cache (object_id_for_item order_item.i_id) item_kind
    let stock_id = object_id_for_stock order_item.supply_w_id order_item.i_id
    (stock, cache2) ← stock_entry store cache1 stock_updates stock_id
    order_items store w_id cache2 (insert stock_updates stock_id (take_stock w_id order_item stock))
        items

  unfoldable pub encode_stocks : ℕ → Map ℕ Stock → Objects → Option Objects
  encode_stocks next_version [] updated_objects = some updated_objects
  encode_stocks next_version ((stock_id, stock) ∷ stocks) updated_objects = do
    object ← encode_tpcc_object stock_id next_version stock_kind stock
    encode_stocks next_version stocks (insert updated_objects stock_id object)

  unfoldable pub execute_new_order :
      Objects → Objects → ℕ → ℕ → ℕ → ℕ → List OrderItem → Option (Objects × Objects)
  execute_new_order store cache next_version w_id d_id c_id items = do
    (warehouse, cache1) ← read_tpcc_data store cache (object_id_for_warehouse w_id) warehouse_kind
    let district_id = object_id_for_district w_id d_id
    (district, cache2) ← read_tpcc_data store cache1 district_id district_kind
    (customer, cache3) ←
        read_tpcc_data store cache2 (object_id_for_customer w_id d_id c_id) customer_kind
    (stock_updates, cache4) ← order_items store w_id cache3 [] items
    object ← encode_tpcc_object district_id next_version district_kind (take_order_id district)
    updated_objects ← encode_stocks next_version stock_updates ((district_id, object) ∷ [])
    some (updated_objects, cache4)

  unfoldable pub execute_payment :
      Objects → Objects → ℕ → ℕ → ℕ → ℕ → ℕ → ℕ → ℕ → Option (Objects × Objects)
  execute_payment store cache next_version w_id d_id c_w_id c_d_id c_id h_amount = do
    let warehouse_id = object_id_for_warehouse w_id
    let district_id = object_id_for_district w_id d_id
    let customer_id = object_id_for_customer c_w_id c_d_id c_id
    (warehouse, cache1) ← read_tpcc_data store cache warehouse_id warehouse_kind
    (district, cache2) ← read_tpcc_data store cache1 district_id district_kind
    (customer, cache3) ← read_tpcc_data store cache2 customer_id customer_kind
    w ←
        encode_tpcc_object warehouse_id next_version warehouse_kind
          (pay_warehouse h_amount warehouse)
    d ← encode_tpcc_object district_id next_version district_kind (pay_district h_amount district)
    c ← encode_tpcc_object customer_id next_version customer_kind (pay_customer h_amount customer)
    some (insert (insert ((warehouse_id, w) ∷ []) district_id d) customer_id c, cache3)

  unfoldable pub execute_tpcc_logic :
      Objects → TpccTransaction → ℕ → Objects → Option (Objects × Objects)
  unfolding execute_new_order execute_payment
  execute_tpcc_logic store (new_order w_id d_id c_id items) next_version cache =
      execute_new_order store cache next_version w_id d_id c_id items
  execute_tpcc_logic store (payment w_id d_id c_w_id c_d_id c_id h_amount) next_version cache =
      execute_payment store cache next_version w_id d_id c_w_id c_d_id c_id h_amount

  unfoldable pub update_object_with_version : L.Object → ℕ → Option L.Object
  update_object_with_version input version = do
    move_obj ← L.try_as_move input
    owner ← (if L.is_shared input then some (L.shared_owner version) else L.get_owner input)
    some (L.new_move (L.increment_version_to move_obj version) owner)

  -- The loop over the inputs: each gets an object of the new version, written or only read.
  unfoldable pub output_objects :
      Objects → Objects → ℕ → Objects → Objects → List ℕ → Option Objects
  output_objects store cache next_version updated_objects new_state [] = some new_state
  output_objects store cache next_version updated_objects new_state (id ∷ inputs) =
      elim (get updated_objects id) [
        | some updated ↦
            output_objects store cache next_version updated_objects (insert new_state id updated)
              inputs
        | none ↦ do
          (input_object, cache') ← get_object store cache id
          output ← update_object_with_version input_object next_version
          output_objects store cache' next_version updated_objects (insert new_state id output)
              inputs
      ]

  -- What an execution returns, with the store that it leaves.
  pub record Executed : Type 0 where
    pub modified : List (ℕ × ℕ)
    pub new_state : Objects
    pub store : Objects

  unfoldable pub execute :
      ⦃S : SequenceNumbers⦄
      → Objects
      → TpccExecutableTransaction
      → List (ℕ × Option ℕ)
      → Option Executed
  unfolding max_shared_version modified_at_versions execute_tpcc_logic output_objects
      commit_new_objects
  execute store transaction shared_objects = do
    let next_version = next (max_shared_version 2 shared_objects)
    (updated_objects, cache) ← execute_tpcc_logic store transaction.txn next_version []
    new_state ← output_objects store cache next_version updated_objects [] transaction.inputs
    some (record {
      modified = modified_at_versions shared_objects;
      new_state = new_state;
      store = commit_new_objects store new_state;
    })

  -- Whether the version of an object is the one that the transaction expects, if any.
  unfoldable pub has_expected_version : List (ℕ × Option ℕ) → ℕ → L.Object → Bool
  has_expected_version shared_objects id object = elim (get shared_objects id) [
    | none ↦ true
    | some none ↦ true
    | some (some expected_version) ↦ L.version object == expected_version
  ]

  unfoldable pub pre_execute_check : Objects → List ℕ → List (ℕ × Option ℕ) → Bool
  unfolding has_expected_version
  pre_execute_check store [] shared_objects = true
  pre_execute_check store (id ∷ inputs) shared_objects = elim (get store id) [
    | none ↦ false
    | some object ↦ elim (has_expected_version shared_objects id object) [
      | false ↦ false
      | true ↦ pre_execute_check store inputs shared_objects
    ]
  ]

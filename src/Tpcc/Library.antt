-- ===== src/Tpcc/Library.antt =====
-- src/executor/tpcc/data.rs, the records, and the crates that the encoding calls: Sui's objects, BCS
-- and the hasher of the standard library.
use remora.Prelude.{◌+◌, true, Bool, ℕ, List, Option, some, ◌≡◌, ◌≤◌, ◌<◌, length, ◌*◌}

pub record Warehouse : Type 0 where
  pub w_id : ℕ
  pub w_ytd : ℕ
  pub w_tax : ℕ
  pub w_name : List ℕ

pub record District : Type 0 where
  pub d_id : ℕ
  pub d_w_id : ℕ
  pub d_ytd : ℕ
  pub d_tax : ℕ
  pub d_next_o_id : ℕ
  pub d_name : List ℕ

pub record Customer : Type 0 where
  pub c_id : ℕ
  pub c_d_id : ℕ
  pub c_w_id : ℕ
  pub c_balance : ℕ
  pub c_ytd_payment : ℕ
  pub c_payment_cnt : ℕ
  pub c_discount : ℕ
  pub c_first : List ℕ
  pub c_last : List ℕ

pub record Stock : Type 0 where
  pub s_i_id : ℕ
  pub s_w_id : ℕ
  pub s_quantity : ℕ
  pub s_ytd : ℕ
  pub s_order_cnt : ℕ
  pub s_remote_cnt : ℕ

pub record Item : Type 0 where
  pub i_id : ℕ
  pub i_price : ℕ
  pub i_name : List ℕ
  pub i_data : List ℕ

pub data TpccObjectKind : Type 0 where
  warehouse_kind district_kind customer_kind stock_kind item_kind : TpccObjectKind

-- The type that each kind of object is decoded to.
abbrev pub Row : TpccObjectKind → Type 0
Row warehouse_kind = Warehouse
Row district_kind = District
Row customer_kind = Customer
Row stock_kind = Stock
Row item_kind = Item

-- The bytes of the names of a row.
abbrev pub name_length : (k : TpccObjectKind) → Row k → ℕ
name_length warehouse_kind w = length w.w_name
name_length district_kind d = length d.d_name
name_length customer_kind c = length c.c_first + length c.c_last
name_length stock_kind s = 0
name_length item_kind i = length i.i_name + length i.i_data

-- Numbers have a fixed width, and names a prefix with their length.
abbrev pub max_fixed_size : ℕ
max_fixed_size = 200

pub record TpccObject (T : Type 0) : Type 0 where
  pub id : ℕ
  pub data_row : T

-- The keys that `format!` makes of the numbers of a row.
pub data Key : Type 0 where
  warehouse_key : ℕ → Key
  district_key : ℕ → ℕ → Key
  customer_key : ℕ → ℕ → ℕ → Key
  stock_key : ℕ → ℕ → Key
  item_key : ℕ → Key

abbrev pub max_tpcc_object_size : ℕ
max_tpcc_object_size = 16 * 1024

pub record TpccLibrary : Type 1 where
  pub Object : Type 0
  pub MoveObject : Type 0
  pub Owner : Type 0
  pub hash : Key → ℕ
  pub id_of_bytes : List ℕ → ℕ
  pub to_bytes : (k : TpccObjectKind) → TpccObject (Row k) → List ℕ
  pub from_bytes : (k : TpccObjectKind) → List ℕ → Option (TpccObject (Row k))
  pub new_from_execution_with_limit : TpccObjectKind → ℕ → List ℕ → ℕ → Option MoveObject
  pub increment_version_to : MoveObject → ℕ → MoveObject
  pub contents : MoveObject → List ℕ
  pub move_version : MoveObject → ℕ
  pub shared_owner : ℕ → Owner
  pub is_shared : Object → Bool
  pub get_owner : Object → Option Owner
  pub try_as_move : Object → Option MoveObject
  pub new_move : MoveObject → Owner → Object
  pub version : Object → ℕ

pub record TpccLibraryLaws (L : TpccLibrary) : Type 0 where
  pub from_bytes-to_bytes :
      (k : TpccObjectKind) (o : TpccObject (Row k)) → L.from_bytes k (L.to_bytes k o) ≡ some o
  pub length-to_bytes :
      (k : TpccObjectKind) (o : TpccObject (Row k))
      → length (L.to_bytes k o) ≤ max_fixed_size + name_length k o.data_row
  pub new_from_execution_lem :
      (k : TpccObjectKind) (v : ℕ) (bytes : List ℕ) (limit : ℕ)
      → length bytes ≤ limit
      → (m : L.MoveObject) × (L.new_from_execution_with_limit k v bytes limit ≡ some m)
        × (L.contents m ≡ bytes)
        × (L.move_version m ≡ v)
  pub increment_version_lem :
      (m : L.MoveObject) (v : ℕ)
      → L.move_version m < v
      → (L.move_version (L.increment_version_to m v) ≡ v)
        × (L.contents (L.increment_version_to m v) ≡ L.contents m)
  pub try_as_move-new_move :
      (m : L.MoveObject) (o : L.Owner) → L.try_as_move (L.new_move m o) ≡ some m
  pub version-new_move :
      (m : L.MoveObject) (o : L.Owner) → L.version (L.new_move m o) ≡ L.move_version m
  pub move_version-try_as_move :
      (o : L.Object) (m : L.MoveObject) → L.try_as_move o ≡ some m → L.move_version m ≡ L.version o
  pub is_shared-new_move :
      (m : L.MoveObject) (v : ℕ) → L.is_shared (L.new_move m (L.shared_owner v)) ≡ true

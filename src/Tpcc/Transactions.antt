-- ===== src/Tpcc/Transactions.antt =====
-- src/executor/tpcc/transactions.rs: what a transaction reads and writes.
pub mod Access
use remora.Prelude.{
  ℕ, List, [], ◌∷◌, ◌++◌, map, contains, nat_eq, ◌||◌, ◌≡◌, refl, true, false, if◌then◌else◌, ◌==◌,
  ==_iff, arith, ◌+◌, ◌≤◌,
}
use remora.Tpcc.Library.{TpccLibrary}
use remora.Tpcc.Data.{
  object_id_for_warehouse, object_id_for_district, object_id_for_customer, object_id_for_stock,
}

pub record OrderItem : Type 0 where
  pub i_id : ℕ
  pub supply_w_id : ℕ
  pub quantity : ℕ

pub data TpccTransaction : Type 0 where
  new_order : (w_id d_id c_id : ℕ) (items : List OrderItem) → TpccTransaction
  payment : (w_id d_id c_w_id c_d_id c_id h_amount : ℕ) → TpccTransaction

module _ ⦃L : TpccLibrary⦄ where
  abbrev pub stock_ids : List OrderItem → List ℕ
  stock_ids items = map (λ item. object_id_for_stock item.supply_w_id item.i_id) items

  unfoldable pub read_set : TpccTransaction → List ℕ
  read_set (new_order w_id d_id c_id items) =
      object_id_for_warehouse w_id
      ∷ object_id_for_district w_id d_id
      ∷ object_id_for_customer w_id d_id c_id
      ∷ stock_ids items
  read_set (payment w_id d_id c_w_id c_d_id c_id h_amount) =
      object_id_for_warehouse w_id
      ∷ object_id_for_district w_id d_id
      ∷ object_id_for_customer c_w_id c_d_id c_id
      ∷ []

  unfoldable pub write_set : TpccTransaction → List ℕ
  write_set (new_order w_id d_id c_id items) = object_id_for_district w_id d_id ∷ stock_ids items
  write_set (payment w_id d_id c_w_id c_d_id c_id h_amount) =
      object_id_for_warehouse w_id
      ∷ object_id_for_district w_id d_id
      ∷ object_id_for_customer c_w_id c_d_id c_id
      ∷ []

-- ids.retain(|id| seen.insert(*id))
unfoldable pub retain_new : List ℕ → List ℕ → List ℕ
retain_new seen [] = []
retain_new seen (id ∷ ids) = elim (contains seen id) [
  | true ↦ retain_new seen ids
  | false ↦ id ∷ retain_new (id ∷ seen) ids
]

unfoldable pub access_set : ⦃L : TpccLibrary⦄ → TpccTransaction → List ℕ
unfolding read_set write_set retain_new
access_set txn = retain_new [] (read_set txn ++ write_set txn)

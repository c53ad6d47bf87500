-- ===== src/Tpcc/Execute/Logic.antt =====
-- What the logic of new orders and payments reads and writes.
use remora.Prelude.{
  All-always, Option, ℕ, ◌≡◌, refl, some, insert, contains, nat_eq, arith, All, All-map, List, [],
  ◌∷◌, All-insert, true, ==_iff,
}
use remora.Tpcc.Library.{TpccLibrary, TpccLibraryLaws, warehouse_kind, district_kind, customer_kind}
use remora.Tpcc.Data.{object_id_for_warehouse, object_id_for_district, object_id_for_customer}
use remora.Tpcc.Transactions.{OrderItem, TpccTransaction, new_order, payment, write_set, stock_ids}
use remora.Tpcc.Rows.{take_order_id, pay_warehouse, pay_district, pay_customer}
use remora.Tpcc.Execute.{Objects, execute_new_order, execute_payment, execute_tpcc_logic}
use remora.Tpcc.Execute.Reads.{IsShort, Holds, Coherent, read-returns, encode-returns}
use remora.Tpcc.Execute.Orders.{HasLine, order_items-returns, encode_stocks-returns, lines_in}

module _ ⦃L : TpccLibrary⦄ where
  -- The store has the rows that the transaction reads.
  abbrev pub HasRows : Objects → TpccTransaction → Type 0
  HasRows store (new_order w_id d_id c_id items) =
      Holds store (object_id_for_warehouse w_id) warehouse_kind (λ w. Unit {0})
      × Holds store (object_id_for_district w_id d_id) district_kind (IsShort district_kind)
      × Holds store (object_id_for_customer w_id d_id c_id) customer_kind (λ c. Unit {0})
      × All (HasLine store (λ s. Unit {0})) items
  HasRows store (payment w_id d_id c_w_id c_d_id c_id h_amount) =
      Holds store (object_id_for_warehouse w_id) warehouse_kind (IsShort warehouse_kind)
      × Holds store (object_id_for_district w_id d_id) district_kind (IsShort district_kind)
      × Holds store (object_id_for_customer c_w_id c_d_id c_id) customer_kind
          (IsShort customer_kind)

  -- What was written: objects of a version, at ids of a list.
  abbrev pub Written : ℕ → List ℕ → Objects → Type 0
  Written v ids updated = All (λ e. (L.version e.1 ≡ v) × (contains ids e.0 ≡ true)) updated

  -- What the logic of a transaction comes to.
  abbrev pub Writes : Objects → List ℕ → ℕ → Option (Objects × Objects) → Type 0
  Writes store ids v result =
      (updated : Objects) × (cache : Objects) × (result ≡ some (updated, cache))
      × Coherent store cache
      × Written v ids updated

module _ ⦃L : TpccLibrary⦄ (laws : TpccLibraryLaws L) where
  new_order-Writes :
      (store cache : Objects) (v w_id d_id c_id : ℕ) (items : List OrderItem)
      → Coherent store cache
      → HasRows store (new_order w_id d_id c_id items)
      → Writes store
          (write_set (new_order w_id d_id c_id items))
          v
          (execute_new_order store cache v w_id d_id c_id items)
  unfolding execute_new_order write_set take_order_id contains
  new_order-Writes store cache v w_id d_id c_id items c (hw, hd, hc, lines) =
      let district_id = object_id_for_district w_id d_id in
      let ids = district_id ∷ stock_ids items in
      let (w, cache1, rw_, c1, _) =
        read-returns store cache (object_id_for_warehouse w_id) warehouse_kind (λ w. Unit {0}) c
          hw in
      let (d, cache2, rd, c2, short) =
        read-returns store cache1 district_id district_kind (IsShort district_kind) c1 hd in
      let (cu, cache3, rc, c3, _) =
        read-returns store cache2 (object_id_for_customer w_id d_id c_id) customer_kind
          (λ c. Unit {0}) c2 hc in
      let (stocks, cache4, taken, c4, all, _, _) =
        order_items-returns store w_id (λ s. Unit {0}) ids cache3 [] items
          (All-always items (λ item s p. tt)) (lines_in ids items (λ id m. ground arith)) c3 tt
          lines in
      let (o, made, at, _) =
        encode-returns laws district_id v district_kind (take_order_id d) short in
      let (updated, encoded, written) =
        encode_stocks-returns laws v (λ id. contains ids id ≡ true) stocks ((district_id, o) ∷ [])
          (All-map (λ e q. q.1) stocks all)
          ((at, ground (arith, ==_iff district_id district_id)), tt) in
      (updated, cache4, rw (rw_, rd, rc, taken, made, encoded) refl, c4, written)

  payment-Writes :
      (store cache : Objects) (v w_id d_id c_w_id c_d_id c_id h_amount : ℕ)
      → Coherent store cache
      → HasRows store (payment w_id d_id c_w_id c_d_id c_id h_amount)
      → Writes store
          (write_set (payment w_id d_id c_w_id c_d_id c_id h_amount))
          v
          (execute_payment store cache v w_id d_id c_w_id c_d_id c_id h_amount)
  unfolding execute_payment write_set pay_warehouse pay_district pay_customer contains
  payment-Writes store cache v w_id d_id c_w_id c_d_id c_id h_amount c (hw, hd, hc) =
      let wi = object_id_for_warehouse w_id in
      let di = object_id_for_district w_id d_id in
      let ci = object_id_for_customer c_w_id c_d_id c_id in
      let ids = wi ∷ di ∷ ci ∷ [] in
      let (w, cache1, read_w, c1, short_w) =
        read-returns store cache wi warehouse_kind (IsShort warehouse_kind) c hw in
      let (d, cache2, read_d, c2, short_d) =
        read-returns store cache1 di district_kind (IsShort district_kind) c1 hd in
      let (cu, cache3, read_c, c3, short_c) =
        read-returns store cache2 ci customer_kind (IsShort customer_kind) c2 hc in
      let (wo, made_w, at_w, _) =
        encode-returns laws wi v warehouse_kind (pay_warehouse h_amount w) short_w in
      let (do_, made_d, at_d, _) =
        encode-returns laws di v district_kind (pay_district h_amount d) short_d in
      let (co, made_c, at_c, _) =
        encode-returns laws ci v customer_kind (pay_customer h_amount cu) short_c in
      let P : ℕ × L.Object → Type 0 = λ e. (L.version e.1 ≡ v) × (contains ids e.0 ≡ true) in
      (
        insert (insert ((wi, wo) ∷ []) di do_) ci co,
        cache3,
        rw (read_w, read_d, read_c, made_w, made_d, made_c) refl,
        c3,
        All-insert P (insert ((wi, wo) ∷ []) di do_) ci co
            (All-insert P ((wi, wo) ∷ []) di do_ ((at_w, ground (arith, ==_iff wi wi)), tt)
              (at_d, ground (arith, ==_iff di di)))
            (at_c, ground (arith, ==_iff ci ci)),
      )

  -- On a store with its rows, a transaction is executed without a panic, and writes objects of the new
  -- version at ids of its write set.
  pub execute_tpcc_logic-Writes :
      (store cache : Objects) (txn : TpccTransaction) (v : ℕ)
      → Coherent store cache
      → HasRows store txn
      → Writes store (write_set txn) v (execute_tpcc_logic store txn v cache)
  unfolding execute_tpcc_logic
  execute_tpcc_logic-Writes store cache (new_order w d c items) v coherent h =
      new_order-Writes store cache v w d c items coherent h
  execute_tpcc_logic-Writes store cache (payment w d cw cd c h_amount) v coherent h =
      payment-Writes store cache v w d cw cd c h_amount coherent h

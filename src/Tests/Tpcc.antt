-- ===== src/Tests/Tpcc.antt =====
-- A library that writes rows as lists of numbers, and transactions on a warehouse.
use remora.Prelude.{
  nat_eq, All, insert, ◌-◌, get, contains, Map, ◌^◌, ℕ, zero, suc, ◌+◌, ◌≤◌, ◌≡◌, refl, List, [],
  ◌∷◌, ◌++◌, Option, none, some, true, length, length-append, arith, if◌then◌else◌, leb,
}
use remora.Tpcc.Library.{
  TpccLibrary, TpccLibraryLaws, TpccObjectKind, TpccObject, Row, Key, warehouse_key, district_key,
  customer_key, stock_key, item_key, warehouse_kind, district_kind, customer_kind, stock_kind,
  item_kind, Warehouse, District, Customer, Stock, Item, name_length, max_fixed_size,
}
use remora.Tpcc.Data.{decode_tpcc_object, decode_tpcc_data, make_object_id}
use remora.Tpcc.Transactions.{
  OrderItem, new_order, access_set, read_set, write_set, retain_new, stock_ids,
}
use remora.Tpcc.Integers.{add32, sub32, ge_i32}
use remora.Tpcc.Rows.{take_stock}
use remora.Tpcc.Execute.{
  TpccExecutableTransaction, order_items, stock_entry, read_tpcc_data, get_object, Executed,
  execute, execute_payment, execute_tpcc_logic, pre_execute_check, has_expected_version,
}
use remora.Execution.Store.{max_shared_version}
use remora.Tpcc.Execute.Reads.{Holds}
use remora.Tpcc.Execute.Logic.{HasRows}
use remora.Tpcc.Execute.Inputs.{HasVersions}
use remora.Tpcc.Execute.Outcome.{Leaves, execute_lem}
use remora.Tpcc.Execute.Books.{HasBooks, IsPaid, execute_payment-IsPaid}
use remora.SequenceNumber.{plain_numbers, next}
use remora.Tpcc.Execute.Orders.{IsUpdated, HasLine, InStock, order_items-InStock}

-- A Move object is its version and its bytes.
abbrev Move : Type 0
Move = ℕ × List ℕ

abbrev hash : Key → ℕ
hash (warehouse_key w) = 10 + w
hash (district_key w d) = 20 + d
hash (customer_key w d c) = 30 + c
hash (stock_key w i) = 40 + i
hash (item_key i) = 60 + i

abbrev first_byte : List ℕ → ℕ
first_byte [] = 0
first_byte (b ∷ bs) = b

abbrev write : (k : TpccObjectKind) → TpccObject (Row k) → List ℕ
write warehouse_kind o = let r = o.data_row in o.id ∷ r.w_id ∷ r.w_ytd ∷ r.w_tax ∷ r.w_name
write district_kind o =
    let r = o.data_row in o.id ∷ r.d_id ∷ r.d_w_id ∷ r.d_ytd ∷ r.d_tax ∷ r.d_next_o_id ∷ r.d_name
write customer_kind o =
    let r = o.data_row in
    o.id
    ∷ r.c_id
    ∷ r.c_d_id
    ∷ r.c_w_id
    ∷ r.c_balance
    ∷ r.c_ytd_payment
    ∷ r.c_payment_cnt
    ∷ r.c_discount
    ∷ length r.c_first
    ∷ (r.c_first ++ r.c_last)
write stock_kind o =
    let r = o.data_row in
    o.id ∷ r.s_i_id ∷ r.s_w_id ∷ r.s_quantity ∷ r.s_ytd ∷ r.s_order_cnt ∷ r.s_remote_cnt ∷ []
write item_kind o =
    let r = o.data_row in o.id ∷ r.i_id ∷ r.i_price ∷ length r.i_name ∷ (r.i_name ++ r.i_data)

abbrev split : ℕ → List ℕ → List ℕ × List ℕ
split zero xs = ([], xs)
split (suc n) [] = ([], [])
split (suc n) (x ∷ xs) = let (a, b) = split n xs in (x ∷ a, b)

split-append : (a b : List ℕ) → split (length a) (a ++ b) ≡ (a, b)
split-append [] b = refl
split-append (x ∷ a) b = rw (split-append a b) refl

abbrev read : (k : TpccObjectKind) → List ℕ → Option (TpccObject (Row k))
read warehouse_kind (id ∷ w ∷ ytd ∷ tax ∷ name) =
    some
      (record { id = id; data_row = record { w_id = w; w_ytd = ytd; w_tax = tax; w_name = name } })
read district_kind (id ∷ d ∷ w ∷ ytd ∷ tax ∷ next_o_id ∷ name) = some (record {
  id = id;
  data_row = record {
    d_id = d;
    d_w_id = w;
    d_ytd = ytd;
    d_tax = tax;
    d_next_o_id = next_o_id;
    d_name = name;
  };
})
read customer_kind (id ∷ c ∷ d ∷ w ∷ balance ∷ ytd ∷ cnt ∷ discount ∷ n ∷ names) = some (record {
  id = id;
  data_row = record {
    c_id = c;
    c_d_id = d;
    c_w_id = w;
    c_balance = balance;
    c_ytd_payment = ytd;
    c_payment_cnt = cnt;
    c_discount = discount;
    c_first = (split n names).0;
    c_last = (split n names).1;
  };
})
read stock_kind (id ∷ i ∷ w ∷ quantity ∷ ytd ∷ orders ∷ remote ∷ []) = some (record {
  id = id;
  data_row = record {
    s_i_id = i;
    s_w_id = w;
    s_quantity = quantity;
    s_ytd = ytd;
    s_order_cnt = orders;
    s_remote_cnt = remote;
  };
})
read item_kind (id ∷ i ∷ price ∷ n ∷ names) = some (record {
  id = id;
  data_row = record {
    i_id = i;
    i_price = price;
    i_name = (split n names).0;
    i_data = (split n names).1;
  };
})
read k bytes = none

read-write : (k : TpccObjectKind) (o : TpccObject (Row k)) → read k (write k o) ≡ some o
read-write warehouse_kind o = refl
read-write district_kind o = refl
read-write customer_kind o = rw (split-append o.data_row.c_first o.data_row.c_last) refl
read-write stock_kind o = refl
read-write item_kind o = rw (split-append o.data_row.i_name o.data_row.i_data) refl

write_size :
    (k : TpccObjectKind) (o : TpccObject (Row k))
    → length (write k o) ≤ max_fixed_size + name_length k o.data_row
write_size warehouse_kind o = omega arith
write_size district_kind o = omega arith
write_size customer_kind o = omega (arith, length-append o.data_row.c_first o.data_row.c_last)
write_size stock_kind o = omega arith
write_size item_kind o = omega (arith, length-append o.data_row.i_name o.data_row.i_data)

abbrev limited : ℕ → List ℕ → ℕ → Option Move
limited v bytes limit = if leb (length bytes) limit then some (v, bytes) else none

instance abbrev lists : TpccLibrary
lists = record {
  Object = Move;
  MoveObject = Move;
  Owner = ℕ;
  hash = hash;
  id_of_bytes = first_byte;
  to_bytes = write;
  from_bytes = read;
  new_from_execution_with_limit = λ k. limited;
  increment_version_to = λ m v. (v, m.1);
  contents = λ m. m.1;
  move_version = λ m. m.0;
  shared_owner = λ v. v;
  is_shared = λ o. true;
  get_owner = λ o. none;
  try_as_move = λ o. some o;
  new_move = λ m owner. m;
  version = λ o. o.0;
}

limited_lem :
    (v : ℕ) (bytes : List ℕ) (limit : ℕ)
    → length bytes ≤ limit
    → limited v bytes limit ≡ some (v, bytes)
limited_lem v bytes limit h = ground arith

same_version : (o m : Move) → some o ≡ some m → m.0 ≡ o.0
same_version o m e = ground arith

lists_laws : TpccLibraryLaws lists
lists_laws = record {
  from_bytes-to_bytes = read-write;
  length-to_bytes = write_size;
  new_from_execution_lem =
      λ k v bytes limit h. ((v, bytes), limited_lem v bytes limit h, refl, refl);
  increment_version_lem = λ m v h. (refl, refl);
  try_as_move-new_move = λ m o. refl;
  version-new_move = λ m o. refl;
  move_version-try_as_move = λ o m e. same_version o m e;
  is_shared-new_move = λ m v. refl;
}

-- A warehouse with a district, a customer, an item and its stock, as objects of version 2.
abbrev shop : Warehouse
shop = record { w_id = 1; w_ytd = 100; w_tax = 5; w_name = [] }

abbrev quarter : District
quarter = record { d_id = 1; d_w_id = 1; d_ytd = 40; d_tax = 5; d_next_o_id = 3001; d_name = [] }

abbrev buyer : Customer
buyer = record {
  c_id = 1;
  c_d_id = 1;
  c_w_id = 1;
  c_balance = 2 ^ 64 - 10;
  c_ytd_payment = 10;
  c_payment_cnt = 1;
  c_discount = 0;
  c_first = 7 ∷ [];
  c_last = [];
}

abbrev pile : Stock
pile = record {
  s_i_id = 1;
  s_w_id = 1;
  s_quantity = 12;
  s_ytd = 0;
  s_order_cnt = 0;
  s_remote_cnt = 0;
}

abbrev ware : Item
ware = record { i_id = 1; i_price = 100; i_name = 8 ∷ []; i_data = [] }

abbrev store : Map ℕ Move
store =
    (11, (2, write warehouse_kind (record { id = 11; data_row = shop })))
    ∷ (21, (2, write district_kind (record { id = 21; data_row = quarter })))
    ∷ (31, (2, write customer_kind (record { id = 31; data_row = buyer })))
    ∷ (41, (2, write stock_kind (record { id = 41; data_row = pile })))
    ∷ (61, (2, write item_kind (record { id = 61; data_row = ware })))
    ∷ []

abbrev line : OrderItem
line = record { i_id = 1; supply_w_id = 1; quantity = 5 }

abbrev order : TpccExecutableTransaction
order = record {
  digest = 1;
  txn = new_order 1 1 1 (line ∷ line ∷ []);
  inputs = 11 ∷ 21 ∷ 31 ∷ 41 ∷ [];
}

abbrev expected : List (ℕ × Option ℕ)
expected = (11, some 2) ∷ (21, some 2) ∷ (31, some 2) ∷ (41, some 2) ∷ []

access : access_set order.txn ≡ order.inputs
unfolding access_set read_set write_set retain_new contains make_object_id
access = refl

line-HasLine : HasLine store InStock line
unfolding get make_object_id decode_tpcc_data decode_tpcc_object
line-HasLine = record {
  item_row = record {
    object = (2, write item_kind (record { id = 61; data_row = ware }));
    stored = refl;
    row = ware;
    decodes = refl;
    holds = tt;
  };
  stock_row = record {
    object = (2, write stock_kind (record { id = 41; data_row = pile }));
    stored = refl;
    row = pile;
    decodes = refl;
    holds = (omega arith, omega arith);
  };
}

-- Two lines of five pieces on one stock of twelve: the second does not leave ten, so it restocks.
two_lines :
    order_items store 1 [] [] (line ∷ line ∷ [])
    ≡ some (
      (41, record pile { s_quantity = 93; s_ytd = 10; s_order_cnt = 2 }) ∷ [],
      (61, (2, write item_kind (record { id = 61; data_row = ware })))
          ∷ (41, (2, write stock_kind (record { id = 41; data_row = pile })))
          ∷ [],
    )
unfolding order_items stock_entry read_tpcc_data get_object get insert make_object_id
    decode_tpcc_data decode_tpcc_object take_stock add32 sub32 ge_i32
two_lines = refl

order_items-InStock_example :
    (stocks : Map ℕ Stock) × (cache : Map ℕ Move) × (order_items store 1 [] [] (line ∷ line ∷ [])
      ≡ some (stocks, cache))
    × All (λ e. InStock e.1 × (contains (stock_ids (line ∷ line ∷ [])) e.0 ≡ true)) stocks
    × All (IsUpdated stocks) (line ∷ line ∷ [])
order_items-InStock_example =
    order_items-InStock store 1 (line ∷ line ∷ [])
      ((omega arith, omega arith), ((omega arith, omega arith), tt))
      (line-HasLine, (line-HasLine, tt))

shop_row : (P : Warehouse → Type 0) → P shop → Holds store 11 warehouse_kind P
unfolding get decode_tpcc_data decode_tpcc_object
shop_row P p = record {
  object = (2, write warehouse_kind (record { id = 11; data_row = shop }));
  stored = refl;
  row = shop;
  decodes = refl;
  holds = p;
}

quarter_row : (P : District → Type 0) → P quarter → Holds store 21 district_kind P
unfolding get decode_tpcc_data decode_tpcc_object
quarter_row P p = record {
  object = (2, write district_kind (record { id = 21; data_row = quarter }));
  stored = refl;
  row = quarter;
  decodes = refl;
  holds = p;
}

buyer_row : (P : Customer → Type 0) → P buyer → Holds store 31 customer_kind P
unfolding get decode_tpcc_data decode_tpcc_object
buyer_row P p = record {
  object = (2, write customer_kind (record { id = 31; data_row = buyer }));
  stored = refl;
  row = buyer;
  decodes = refl;
  holds = p;
}

line-HasRow : HasLine store (λ s. Unit {0}) line
unfolding get make_object_id decode_tpcc_data decode_tpcc_object
line-HasRow = record {
  item_row = record {
    object = (2, write item_kind (record { id = 61; data_row = ware }));
    stored = refl;
    row = ware;
    decodes = refl;
    holds = tt;
  };
  stock_row = record {
    object = (2, write stock_kind (record { id = 41; data_row = pile }));
    stored = refl;
    row = pile;
    decodes = refl;
    holds = tt;
  };
}

order-HasRows : HasRows store order.txn
unfolding make_object_id
order-HasRows = (
  shop_row (λ w. Unit {0}) tt,
  quarter_row _ (omega arith),
  buyer_row (λ c. Unit {0}) tt,
  (line-HasRow, (line-HasRow, tt)),
)

order-HasVersions : HasVersions expected order.inputs
unfolding get
order-HasVersions = ((2, refl), ((2, refl), ((2, refl), ((2, refl), tt))))

check_passes : pre_execute_check store order.inputs expected ≡ true
unfolding pre_execute_check has_expected_version get
check_passes = refl

execute_lem_example :
    (r : Executed) × (updated : Map ℕ Move) × (cache : Map ℕ Move) × (execute store order expected
      ≡ some r)
    × (execute_tpcc_logic store order.txn (next (max_shared_version 2 expected)) []
        ≡ some (updated, cache))
    × ((id : ℕ)
        → Leaves lists_laws store updated r.store order.inputs
            (next (max_shared_version 2 expected))
            id)
execute_lem_example =
    execute_lem lists_laws store order expected order-HasRows (λ id o e. ((o, refl), refl))
      order-HasVersions check_passes

shop-HasBooks : HasBooks store 11 21 31 shop quarter buyer
shop-HasBooks = record {
  warehouse = shop_row _ (refl, omega arith);
  district = quarter_row _ (refl, omega arith);
  customer = buyer_row _ (refl, omega arith);
}

execute_payment-IsPaid_example :
    (updated : Map ℕ Move) × (cache : Map ℕ Move) × (execute_payment store [] 3 1 1 1 1 1 25
      ≡ some (updated, cache))
    × (w : Warehouse) × (d : District) × (c : Customer) × HasBooks updated 11 21 31 w d c
    × IsPaid 25 shop w quarter d buyer c
unfolding make_object_id
execute_payment-IsPaid_example =
    execute_payment-IsPaid lists_laws store 3 1 1 1 1 1 25 shop quarter buyer shop-HasBooks
      (λ e. absurd (omega (arith, e))) (λ e. absurd (omega (arith, e)))
      (λ e. absurd (omega (arith, e))) (omega arith) (omega arith)

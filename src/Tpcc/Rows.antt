-- ===== src/Tpcc/Rows.antt =====
-- src/executor/tpcc/executor.rs: how new orders and payments change the rows.
use remora.Prelude.{ℕ, if◌then◌else◌, ◌==◌, nat_eq}
use remora.Tpcc.Integers.{add32, sub32, add64, sub64, ge_i32}
use remora.Tpcc.Library.{Warehouse, District, Customer, Stock}
use remora.Tpcc.Transactions.{OrderItem}

-- The body of the loop over the items of an order, at the stock of one.
unfoldable pub take_stock : ℕ → OrderItem → Stock → Stock
unfolding add32 sub32 ge_i32
take_stock w_id order_item stock_entry = record stock_entry {
  s_quantity =
      if ge_i32 stock_entry.s_quantity (add32 order_item.quantity 10)
      then sub32 stock_entry.s_quantity order_item.quantity
      else add32 stock_entry.s_quantity (sub32 91 order_item.quantity);
  s_ytd = add32 stock_entry.s_ytd order_item.quantity;
  s_order_cnt = add32 stock_entry.s_order_cnt 1;
  s_remote_cnt =
      if order_item.supply_w_id == w_id
      then stock_entry.s_remote_cnt
      else add32 stock_entry.s_remote_cnt 1;
}

unfoldable pub take_order_id : District → District
unfolding add32
take_order_id district = record district { d_next_o_id = add32 district.d_next_o_id 1 }

unfoldable pub pay_warehouse : ℕ → Warehouse → Warehouse
unfolding add64
pay_warehouse h_amount warehouse = record warehouse { w_ytd = add64 warehouse.w_ytd h_amount }

unfoldable pub pay_district : ℕ → District → District
unfolding add64
pay_district h_amount district = record district { d_ytd = add64 district.d_ytd h_amount }

unfoldable pub pay_customer : ℕ → Customer → Customer
unfolding add64 sub64 add32
pay_customer h_amount customer = record customer {
  c_balance = sub64 customer.c_balance h_amount;
  c_ytd_payment = add64 customer.c_ytd_payment h_amount;
  c_payment_cnt = add32 customer.c_payment_cnt 1;
}

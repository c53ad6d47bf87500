-- ===== src/Tpcc/Execute/Payments.antt =====
-- What a payment does to the books.
use remora.Prelude.{ℕ, ◌<◌, ◌≡◌, ◌^◌, arith}
use remora.Tpcc.Integers.{add64, sub64}
use remora.Tpcc.Library.{Warehouse, District, Customer}
use remora.Tpcc.Rows.{pay_warehouse, pay_district, pay_customer}

-- The balances are numbers of 64 bits.
abbrev pub IsBooked : Warehouse → District → Customer → Type 0
IsBooked w d c =
    (w.w_ytd < 2 ^ 64) × (d.d_ytd < 2 ^ 64) × (c.c_balance < 2 ^ 64) × (c.c_ytd_payment < 2 ^ 64)

pub payment_balances :
    (h_amount : ℕ) (w : Warehouse) (d : District) (c : Customer)
    → h_amount < 2 ^ 64
    → IsBooked w d c
    → IsBooked (pay_warehouse h_amount w) (pay_district h_amount d) (pay_customer h_amount c)
      × (sub64 (pay_warehouse h_amount w).w_ytd (pay_district h_amount d).d_ytd
          ≡ sub64 w.w_ytd d.d_ytd)
      × (add64 (pay_customer h_amount c).c_balance (pay_customer h_amount c).c_ytd_payment
          ≡ add64 c.c_balance c.c_ytd_payment)
      × (sub64 (pay_warehouse h_amount w).w_ytd w.w_ytd ≡ h_amount)
unfolding pay_warehouse pay_district pay_customer add64 sub64
payment_balances h_amount w d c hh (hw, hd, hb, hy) = omega arith

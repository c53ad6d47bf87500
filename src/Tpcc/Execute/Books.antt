-- ===== src/Tpcc/Execute/Books.antt =====
-- A payment on a store, and the books before and after it.
use remora.Prelude.{
  subst, ◌∙◌, ap, ℕ, ◌<◌, ◌≡◌, ◌≢◌, refl, some, get, insert, nat_eq, arith, [], ◌∷◌, ◌^◌, ==_iff,
}
use remora.Tpcc.Integers.{add64, sub64}
use remora.Tpcc.Library.{
  TpccLibrary, TpccLibraryLaws, warehouse_kind, district_kind, customer_kind, TpccObjectKind, Row,
  Warehouse, District, Customer,
}
use remora.Tpcc.Data.{
  encode_tpcc_object, object_id_for_warehouse, object_id_for_district, object_id_for_customer,
}
use remora.Tpcc.Rows.{pay_warehouse, pay_district, pay_customer}
use remora.Tpcc.Execute.{Objects, read_tpcc_data, execute_payment}
use remora.Tpcc.Execute.Reads.{Coherent, IsShort, Holds, read-returns, encode-returns}
use remora.Tpcc.Execute.Payments.{IsBooked, payment_balances}

get_three :
    {V : Type 0} (a b c : ℕ) (x y z : V)
    → a ≢ b
    → a ≢ c
    → b ≢ c
    → (get (insert (insert ((a, x) ∷ []) b y) c z) a ≡ some x)
      × (get (insert (insert ((a, x) ∷ []) b y) c z) b ≡ some y)
      × (get (insert (insert ((a, x) ∷ []) b y) c z) c ≡ some z)
unfolding get insert
get_three a b c x y z ab ac bc = ground (arith, ==_iff a b, ==_iff a c, ==_iff b c)

module _ ⦃L : TpccLibrary⦄ where
  -- The rows of a payment, with names that are not too long, under three ids.
  pub record HasBooks (store : Objects) (wi di ci : ℕ) (w : Warehouse) (d : District) (c : Customer)
      : Type 0 where
    pub warehouse : Holds store wi warehouse_kind (λ r. (r ≡ w) × IsShort warehouse_kind r)
    pub district : Holds store di district_kind (λ r. (r ≡ d) × IsShort district_kind r)
    pub customer : Holds store ci customer_kind (λ r. (r ≡ c) × IsShort customer_kind r)

  -- The rows after a payment: the year-to-date amounts of the warehouse and the district grow by the
  -- amount, and the customer's balance and year-to-date payment add up as before.
  pub record IsPaid (h_amount : ℕ) (w w' : Warehouse) (d d' : District) (c c' : Customer)
      : Type 0 where
    pub taken : sub64 w'.w_ytd w.w_ytd ≡ h_amount
    pub level : sub64 w'.w_ytd d'.d_ytd ≡ sub64 w.w_ytd d.d_ytd
    pub even : add64 c'.c_balance c'.c_ytd_payment ≡ add64 c.c_balance c.c_ytd_payment

module _ ⦃L : TpccLibrary⦄ where
  -- A known row is read as it is.
  read_known :
      (store cache : Objects) (id : ℕ) (k : TpccObjectKind) (x : Row k)
      → Coherent store cache
      → Holds store id k (λ r. (r ≡ x) × IsShort k r)
      → (cache' : Objects) × (read_tpcc_data store cache id k ≡ some (x, cache'))
        × Coherent store cache'
        × IsShort k x
  read_known store cache id k x c h =
      let (row, cache', read, c', (same, short)) = read-returns store cache id k _ c h in
      (cache', read ∙ ap (λ r. some (r, cache')) same, c', subst (IsShort k) same short)

module _ ⦃L : TpccLibrary⦄ (laws : TpccLibraryLaws L) where
  -- Three short rows are written under three ids.
  write_books :
      (v wi di ci : ℕ) (w : Warehouse) (d : District) (c : Customer)
      → IsShort warehouse_kind w
      → IsShort district_kind d
      → IsShort customer_kind c
      → wi ≢ di
      → wi ≢ ci
      → di ≢ ci
      → (wo : L.Object) × (do_ : L.Object) × (co : L.Object) × (encode_tpcc_object wi v
            warehouse_kind w
          ≡ some wo)
        × (encode_tpcc_object di v district_kind d ≡ some do_)
        × (encode_tpcc_object ci v customer_kind c ≡ some co)
        × HasBooks (insert (insert ((wi, wo) ∷ []) di do_) ci co) wi di ci w d c
  write_books v wi di ci w d c sw sd sc wd wc dc =
      let (wo, made_w, _, dec_w) = encode-returns laws wi v warehouse_kind w sw in
      let (do_, made_d, _, dec_d) = encode-returns laws di v district_kind d sd in
      let (co, made_c, _, dec_c) = encode-returns laws ci v customer_kind c sc in
      let (at_w, at_d, at_c) = get_three wi di ci wo do_ co wd wc dc in
      (
        wo,
        do_,
        co,
        made_w,
        made_d,
        made_c,
        record {
          warehouse = record {
            object = wo;
            stored = at_w;
            row = w;
            decodes = dec_w;
            holds = (refl, sw);
          };
          district = record {
            object = do_;
            stored = at_d;
            row = d;
            decodes = dec_d;
            holds = (refl, sd);
          };
          customer = record {
            object = co;
            stored = at_c;
            row = c;
            decodes = dec_c;
            holds = (refl, sc);
          };
        },
      )

  -- On a store with the rows of a payment, with names of at most 1000 bytes, under three different ids,
  -- with balances and an amount of 64 bits, the payment returns, and what it writes under these ids are
  -- rows of the books after it.
  pub execute_payment-IsPaid :
      (store : Objects) (v w_id d_id c_w_id c_d_id c_id h_amount : ℕ) (w : Warehouse) (d : District)
      (c : Customer)
      → HasBooks store
          (object_id_for_warehouse w_id)
          (object_id_for_district w_id d_id)
          (object_id_for_customer c_w_id c_d_id c_id)
          w
          d
          c
      → object_id_for_warehouse w_id ≢ object_id_for_district w_id d_id
      → object_id_for_warehouse w_id ≢ object_id_for_customer c_w_id c_d_id c_id
      → object_id_for_district w_id d_id ≢ object_id_for_customer c_w_id c_d_id c_id
      → h_amount < 2 ^ 64
      → IsBooked w d c
      → (updated : Objects) × (cache : Objects) × (execute_payment store [] v w_id d_id c_w_id
            c_d_id c_id h_amount
          ≡ some (updated, cache))
        × (w' : Warehouse) × (d' : District) × (c' : Customer) × HasBooks updated
            (object_id_for_warehouse w_id)
            (object_id_for_district w_id d_id)
            (object_id_for_customer c_w_id c_d_id c_id)
            w'
            d'
            c'
        × IsPaid h_amount w w' d d' c c'
  unfolding execute_payment pay_warehouse pay_district pay_customer get
  execute_payment-IsPaid store v w_id d_id c_w_id c_d_id c_id h_amount w d c h wd wc dc small
        booked =
      let wi = object_id_for_warehouse w_id in
      let di = object_id_for_district w_id d_id in
      let ci = object_id_for_customer c_w_id c_d_id c_id in
      let (cache1, read_w, c1, sw) =
        read_known store [] wi warehouse_kind w (λ id o e. absurd (ground arith)) h.warehouse in
      let (cache2, read_d, c2, sd) = read_known store cache1 di district_kind d c1 h.district in
      let (cache3, read_c, c3, sc) = read_known store cache2 ci customer_kind c c2 h.customer in
      let w' = pay_warehouse h_amount w in
      let d' = pay_district h_amount d in
      let c' = pay_customer h_amount c in
      let (wo, do_, co, made_w, made_d, made_c, books) =
        write_books v wi di ci w' d' c' sw sd sc wd wc dc in
      let (_, level, even, taken) = payment_balances h_amount w d c small booked in
      (
        insert (insert ((wi, wo) ∷ []) di do_) ci co,
        cache3,
        rw (read_w, read_d, read_c, made_w, made_d, made_c) refl,
        w',
        d',
        c',
        books,
        record { taken = taken; level = level; even = even },
      )

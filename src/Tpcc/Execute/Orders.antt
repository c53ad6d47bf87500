-- ===== src/Tpcc/Execute/Orders.antt =====
-- The loop over the items of an order.
use remora.Prelude.{
  get-insert, none, ◌≢◌, ==_iff, All-map, ℕ, ◌≤◌, ◌≡◌, refl, inl, inr, some, get, insert, contains,
  nat_eq, arith, Option-cases, Map, All, List, [], ◌∷◌, All-insert, All-get, true,
}
use remora.Tpcc.Integers.{add32, sub32, ge_i32}
use remora.Tpcc.Library.{TpccLibrary, TpccLibraryLaws, Stock, stock_kind, item_kind}
use remora.Tpcc.Data.{object_id_for_item, object_id_for_stock}
use remora.Tpcc.Transactions.{OrderItem, stock_ids}
use remora.Tpcc.Rows.{take_stock}
use remora.Tpcc.Execute.{Objects, order_items, stock_entry, encode_stocks}
use remora.Tpcc.Execute.Reads.{Holds, Coherent, read-returns, encode-returns}

-- The rows that an order line reads: the item, and the stock, which has the property.
pub record HasLine {ℓ} ⦃L : TpccLibrary⦄ (store : Objects) (P : Stock → Type ℓ) (item : OrderItem)
    : Type ℓ where
  pub item_row : Holds store (object_id_for_item item.i_id) item_kind (λ i. Unit {0})
  pub stock_row : Holds store (object_id_for_stock item.supply_w_id item.i_id) stock_kind P

module _ ⦃L : TpccLibrary⦄ where
  stock_entry-returns {ℓ} :
      (store cache : Objects) (stocks : Map ℕ Stock) (id : ℕ) (P : Stock → Type ℓ)
      → Coherent store cache
      → All (λ e. P e.1) stocks
      → Holds store id stock_kind P
      → (stock : Stock) × (cache' : Objects) × (stock_entry store cache stocks id
          ≡ some (stock, cache'))
        × Coherent store cache'
        × P stock
  unfolding stock_entry
  stock_entry-returns store cache stocks id P c all h = elim (Option-cases (get stocks id)) [
    | inl missing ↦
        let (stock, cache', found, c', p) = read-returns store cache id stock_kind P c h in
        (stock, cache', rw (missing, stock_entry) found, c', p)
    | inr (stock, known) ↦ (
      stock,
      cache,
      rw (known, stock_entry) refl,
      c,
      All-get (λ e. P e.1) stocks id stock all known,
    )
  ]

  -- The stock of an order line is among the updates.
  abbrev pub IsUpdated : Map ℕ Stock → OrderItem → Type 0
  IsUpdated stocks item = get stocks (object_id_for_stock item.supply_w_id item.i_id) ≢ none

  -- A property of stocks that the order lines keep, and their ids.
  pub order_items-returns {ℓ} :
      (store : Objects) (w_id : ℕ) (P : Stock → Type ℓ) (ids : List ℕ) (cache : Objects)
      (stocks : Map ℕ Stock) (items : List OrderItem)
      → All (λ item. (stock : Stock) → P stock → P (take_stock w_id item stock)) items
      → All (λ item. contains ids (object_id_for_stock item.supply_w_id item.i_id) ≡ true) items
      → Coherent store cache
      → All (λ e. P e.1 × (contains ids e.0 ≡ true)) stocks
      → All (HasLine store P) items
      → (stocks' : Map ℕ Stock) × (cache' : Objects) × (order_items store w_id cache stocks items
          ≡ some (stocks', cache'))
        × Coherent store cache'
        × All (λ e. P e.1 × (contains ids e.0 ≡ true)) stocks'
        × All (IsUpdated stocks') items
        × ((id : ℕ) → get stocks id ≢ none → get stocks' id ≢ none)
  unfolding order_items
  order_items-returns store w_id P ids cache stocks [] keep known c all h =
      (stocks, cache, refl, c, all, tt, λ id n. n)
  order_items-returns store w_id P ids cache stocks (item ∷ items) keep known c all h =
      let stock_id = object_id_for_stock item.supply_w_id item.i_id in
      let (row, cache1, read, c1, _) =
        read-returns store cache (object_id_for_item item.i_id) item_kind (λ i. Unit {0}) c
          h.0.item_row in
      let (stock, cache2, entry, c2, p) =
        stock_entry-returns store cache1 stocks stock_id P c1 (All-map (λ e q. q.0) stocks all)
          h.0.stock_row in
      let (stocks', cache', rest, c', all', updated, kept) =
        order_items-returns store w_id P ids cache2
          (insert stocks stock_id (take_stock w_id item stock)) items keep.1 known.1 c2
          (All-insert (λ e. P e.1 × (contains ids e.0 ≡ true)) stocks stock_id
            (take_stock w_id item stock) all (keep.0 stock p, known.0))
          h.1 in
      let new : Stock = take_stock w_id item stock in
      let at = get-insert stocks stock_id in
      (
        stocks',
        cache',
        rw (read, entry) rest,
        c',
        all',
        (
          kept stock_id (λ e. ground (arith, e, at stock_id new, ==_iff stock_id stock_id)),
          updated,
        ),
        λ id n. kept id (λ e. ground (arith, e, n, at id new)),
      )

  pub encode_stocks-returns {ℓ} :
      TpccLibraryLaws L
      → (v : ℕ) (P : ℕ → Type ℓ) (stocks : Map ℕ Stock) (updated : Objects)
      → All (λ e. P e.0) stocks
      → All (λ e. (L.version e.1 ≡ v) × P e.0) updated
      → (updated' : Objects) × (encode_stocks v stocks updated ≡ some updated')
        × All (λ e. (L.version e.1 ≡ v) × P e.0) updated'
  unfolding encode_stocks
  encode_stocks-returns laws v P [] updated h all = (updated, refl, all)
  encode_stocks-returns laws v P ((id, stock) ∷ stocks) updated h all =
      let (o, made, at, _) = encode-returns laws id v stock_kind stock (omega arith) in
      let (updated', rest, all') =
        encode_stocks-returns laws v P stocks (insert updated id o) h.1
          (All-insert (λ e. (L.version e.1 ≡ v) × P e.0) updated id o all (at, h.0)) in
      (updated', rw made rest, all')

-- The quantity of a stock is from 10 to 100.
abbrev pub InStock : Stock → Type 0
InStock s = (10 ≤ s.s_quantity) × (s.s_quantity ≤ 100)

-- The quantity of an order line is from 1 to 10.
abbrev pub IsLine : OrderItem → Type 0
IsLine item = (1 ≤ item.quantity) × (item.quantity ≤ 10)

take_stock-InStock :
    (w_id : ℕ) (item : OrderItem) (stock : Stock)
    → IsLine item
    → InStock stock
    → InStock (take_stock w_id item stock)
unfolding take_stock add32 sub32 ge_i32
take_stock-InStock w_id item stock line h = ground arith

module _ ⦃L : TpccLibrary⦄ where
  pub lines_in :
      (ids : List ℕ) (items : List OrderItem)
      → ((id : ℕ) → contains (stock_ids items) id ≡ true → contains ids id ≡ true)
      → All (λ item. contains ids (object_id_for_stock item.supply_w_id item.i_id) ≡ true) items
  unfolding contains
  lines_in ids [] h = tt
  lines_in ids (item ∷ items) h =
      let id = object_id_for_stock item.supply_w_id item.i_id in
      (h id (ground (arith, ==_iff id id)), lines_in ids items (λ i m. h i (ground arith)))

  pub lines_in_order :
      (items : List OrderItem)
      → All
          (λ item.
            contains (stock_ids items) (object_id_for_stock item.supply_w_id item.i_id) ≡ true)
          items
  lines_in_order items = lines_in (stock_ids items) items (λ id m. m)

  -- On a store with the rows of an order whose lines are of 1 to 10 pieces, and with quantities from 10 to
  -- 100 in its stocks, the loop over the lines returns updates of the stocks of just these lines, whose
  -- quantities are from 10 to 100 again.
  pub order_items-InStock :
      (store : Objects) (w_id : ℕ) (items : List OrderItem)
      → All IsLine items
      → All (HasLine store InStock) items
      → (stocks : Map ℕ Stock) × (cache : Objects) × (order_items store w_id [] [] items
          ≡ some (stocks, cache))
        × All (λ e. InStock e.1 × (contains (stock_ids items) e.0 ≡ true)) stocks
        × All (IsUpdated stocks) items
  unfolding get
  order_items-InStock store w_id items lines h =
      let (stocks, cache, returns, _, all, updated, _) =
        order_items-returns store w_id InStock (stock_ids items) [] [] items
          (All-map (λ item line stock p. take_stock-InStock w_id item stock line p) items lines)
          (lines_in_order items) (λ id o e. absurd (ground arith)) tt h in
      (stocks, cache, returns, all, updated)

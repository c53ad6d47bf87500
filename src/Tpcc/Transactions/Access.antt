-- ===== src/Tpcc/Transactions/Access.antt =====
-- The access set of a transaction: its read set, each id once.
use remora.Prelude.{
  contains-same, contains-append, count, ℕ, ◌≡◌, List, [], ◌∷◌, ◌++◌, true, contains, nat_eq, arith,
  if◌then◌else◌, ==_iff, Bool-cases, inl, inr,
}
use remora.Tpcc.Library.{TpccLibrary}
use remora.Tpcc.Transactions.{
  new_order, payment, TpccTransaction, read_set, write_set, access_set, retain_new,
}

retain_new-count :
    (seen ids : List ℕ) (id : ℕ)
    → count (retain_new seen ids) id
      ≡ (if contains seen id then 0 else if contains ids id then 1 else 0)
unfolding retain_new contains
retain_new-count seen [] id = ground arith
retain_new-count seen (x ∷ ids) id = elim (Bool-cases (contains seen x)) [
  | inl old ↦ ground (
    arith,
    ==_iff x id,
    contains-same seen x id,
    retain_new-count seen ids id,
    retain_new-count (x ∷ seen) ids id,
  )
  | inr new ↦ ground (
    arith,
    ==_iff x id,
    contains-same seen x id,
    retain_new-count seen ids id,
    retain_new-count (x ∷ seen) ids id,
  )
]

module _ ⦃L : TpccLibrary⦄ where
  write_in_read :
      (txn : TpccTransaction) (id : ℕ)
      → contains (write_set txn) id ≡ true
      → contains (read_set txn) id ≡ true
  unfolding read_set write_set contains
  write_in_read (new_order w_id d_id c_id items) id m = ground arith
  write_in_read (payment w_id d_id c_w_id c_d_id c_id h_amount) id m = m

  -- The access set of a transaction has each id of its read set and of its write set once, and no other;
  -- what is written is read.
  pub access_set-count :
      (txn : TpccTransaction) (id : ℕ)
      → (count (access_set txn) id ≡ (if contains (read_set txn) id then 1 else 0))
        × (contains (write_set txn) id ≡ true → contains (read_set txn) id ≡ true)
  unfolding access_set contains
  access_set-count txn id = (
    ground (
      arith,
      write_in_read txn id,
      retain_new-count [] (read_set txn ++ write_set txn) id,
      contains-append (read_set txn) (write_set txn) id,
    ),
    write_in_read txn id,
  )

-- ===== src/LoadBalancer/Split.antt =====
-- The two sides of a committed batch.
use mathlib.Core.List.{perm_middle, Perm, Sublist, nil-sublist}
use mathlib.Core.List.Perm
use mathlib.Core.List.Sublist
use remora.Prelude.{
  ℕ, Option, ◌≡◌, ◌≢◌, refl, List, [], ◌∷◌, ◌++◌, All, true, false, Bool-cases, inl, inr,
}
use remora.Api.{TransactionWithTimestamp}
use remora.LoadBalancer.{is_empty, is_owned, separate}

empty_of : (l : List (ℕ × Option ℕ)) → is_empty l ≡ true → l ≡ []
empty_of [] e = refl
empty_of (x ∷ l) e = cc

nonempty_of : (l : List (ℕ × Option ℕ)) → is_empty l ≡ false → l ≢ []
nonempty_of [] e = λ nil. cc
nonempty_of (x ∷ l) e = λ nil. cc

-- Both sides together are a permutation of the batch, and each has its transactions in the order of the
-- batch; one has only transactions without shared objects, the other only transactions with some.
pub separate_lem :
    (ts : List TransactionWithTimestamp)
    → Perm ((separate ts).0 ++ (separate ts).1) ts
      × Sublist (separate ts).0 ts
      × Sublist (separate ts).1 ts
      × All (λ t. t.shared_objects ≡ []) (separate ts).0
      × All (λ t. t.shared_objects ≢ []) (separate ts).1
unfolding separate
separate_lem [] = (Perm.nil, nil-sublist [], nil-sublist [], tt, tt)
separate_lem (t ∷ ts) =
    let (perm, left, right, owned, shared) = separate_lem ts in
    let (os, ss) = separate ts in
    elim (Bool-cases (is_owned t)) [
      | inl e ↦ rw e (
        Perm.cons t perm,
        Sublist.cons-cons t left,
        Sublist.cons t right,
        (empty_of t.shared_objects e, owned),
        shared,
      )
      | inr e ↦ rw e (
        Perm.trans (perm_middle os ss) (Perm.cons t perm),
        Sublist.cons t left,
        Sublist.cons-cons t right,
        owned,
        (nonempty_of t.shared_objects e, shared),
      )
    ]

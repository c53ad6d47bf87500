-- ===== src/Forwarder/MostStates/Best.antt =====
-- `get_proxy_for_shared_objects_most_states`: its second loop, and its choice.
use remora.Prelude.{
  subst, false, sym, ltb→lt, ℕ, zero, suc, ◌+◌, ◌%◌, ◌≡◌, ◌≢◌, ◌<◌, ◌≤◌, refl, List, [], ◌∷◌, ◌++◌,
  some, ltb, ◌==◌, nat_eq, pair_eq, arith, Map, length, get_elem?, All, All-append, All-map,
  Bool-cases, inl, inr,
}
use remora.Forwarder.MostStates.{
  compare_count, find_best, select, zeros, count_states, most_states_of,
  get_proxy_for_shared_objects_most_states,
}
use remora.Forwarder.MostStates.Counts.{Values, hosted, counts-Values}

module _ (f : ℕ → ℕ) where
  -- After the indices below `i`: the largest value so far, and where it is taken.
  record IsBest (i m : ℕ) (best : List ℕ) : Type 0 where
    bound : (p : ℕ) → p < i → f p ≤ m
    taken : All (λ p. (f p ≡ m) × (p < i)) best
    some_best : 0 < i → best ≢ []
    start : i ≡ 0 → m ≡ 0

  bound-suc :
      (i m m' : ℕ)
      → ((p : ℕ) → p < i → f p ≤ m)
      → m ≤ m'
      → f i ≤ m'
      → (p : ℕ) → p < i + 1
      → f p ≤ m'
  bound-suc i m m' bound le last p lt = elim (Bool-cases (ltb p i)) [
    | inl old ↦ omega (arith, bound p (ltb→lt p i old))
    | inr new ↦ let same : p ≡ i = ground arith in rw same last
  ]

  taken-suc :
      (i m : ℕ) (best : List ℕ)
      → All (λ p. (f p ≡ m) × (p < i)) best
      → All (λ p. (f p ≡ m) × (p < i + 1)) best
  taken-suc i m best = All-map (λ p h. (h.0, omega arith)) best

  append-ne-nil : (best : List ℕ) (i : ℕ) → best ++ i ∷ [] ≢ []
  append-ne-nil [] i e = cc
  append-ne-nil (b ∷ best) i e = cc

  -- A count below the largest one is not the first.
  not_first :
      (i c m : ℕ) (best : List ℕ) → IsBest i m best → ltb m c ≡ false → (c == m) ≡ false → best ≢ []
  not_first zero c m best h below less = let z : m ≡ 0 = h.start refl in ground arith
  not_first (suc i) c m best h below less = h.some_best (omega arith)

  compare_count-IsBest :
      (i c m : ℕ) (best : List ℕ)
      → c ≡ f i
      → IsBest i m best
      → IsBest (i + 1) (compare_count i c m best).0 (compare_count i c m best).1
  compare_count-IsBest i c m best e h = elim (Bool-cases (ltb m c)) [
    | inl above ↦ rw above (record {
      bound = bound-suc i m c h.bound (ground arith) (omega arith);
      taken = ((sym e, omega arith), tt);
      some_best = λ lt nil. cc;
      start = λ z. absurd (omega arith);
    })
    | inr below ↦ elim (Bool-cases (c == m)) [
      | inl tie ↦
          rw (below, tie)
            (record {
              bound = bound-suc i m m h.bound (omega arith) (ground arith);
              taken =
                  All-append _ best (i ∷ []) (taken-suc i m best h.taken)
                    ((ground arith, omega arith), tt);
              some_best = λ lt. append-ne-nil best i;
              start = λ z. absurd (omega arith);
            })
      | inr less ↦
          rw (below, less)
            (record {
              bound = bound-suc i m m h.bound (omega arith) (ground arith);
              taken = taken-suc i m best h.taken;
              some_best = λ lt. not_first i c m best h below less;
              start = λ z. absurd (omega arith);
            })
    ]
  ]

  find_best-IsBest :
      (i m : ℕ) (best cs : List ℕ)
      → Values f i cs
      → IsBest i m best
      → IsBest (i + length cs) (find_best i m best cs).0 (find_best i m best cs).1
  unfolding find_best
  find_best-IsBest i m best [] v h = let e : i ≡ i + 0 = omega arith in rw (← e) h
  find_best-IsBest i m best (c ∷ cs) v h =
      let (m', best') = compare_count i c m best in
      let e : i + 1 + length cs ≡ i + suc (length cs) = omega arith in
      rw (← e) (find_best-IsBest (i + 1) m' best' cs v.1 (compare_count-IsBest i c m best v.0 h))

-- A choice from a nonempty list is one of its members.
select_lem :
    (P : ℕ → Type 0) (txn_cnt : ℕ) (best : List ℕ)
    → best ≢ []
    → All P best
    → (p : ℕ) × (select txn_cnt best ≡ some p) × P p
unfolding select
select_lem P txn_cnt [] ne h = absurd (ne refl)
select_lem P txn_cnt (b ∷ []) ne h = (b, refl, h.0)
select_lem P txn_cnt (a ∷ b ∷ best) ne h =
    let i : ℕ = txn_cnt % length (a ∷ b ∷ best) in
    let (p, e, holds) = at (a ∷ b ∷ best) i (grind arith) h in (p, ground (arith, e), holds)
  where
    at :
        (xs : List ℕ) (i : ℕ) → i < length xs → All P xs → (p : ℕ) × (get_elem? xs i ≡ some p) × P p
    at [] i lt a = absurd (omega arith)
    at (x ∷ xs) zero lt a = (x, refl, a.0)
    at (x ∷ xs) (suc i) lt a = at xs i (omega arith) a.1

module _ (n : ℕ) (states : Map (ℕ × ℕ) ℕ) (required : List (ℕ × ℕ)) (txn_cnt : ℕ) where
  -- A connected proxy, such that no connected proxy hosts more of the required versions.
  pub record HostsMost (p : ℕ) : Type 0 where
    pub connected : p < n
    pub most : (q : ℕ) → q < n → hosted states required q ≤ hosted states required p

  abbrev counted : List ℕ
  counted = count_states states n (zeros n) required

  IsBest-counted :
      IsBest (hosted states required) n (find_best 0 0 [] counted).0 (find_best 0 0 [] counted).1
  IsBest-counted =
      let (values, len) = counts-Values states n required in
      let e : 0 + length counted ≡ n = omega (arith, len) in
      subst
        (λ k.
          IsBest (hosted states required) k (find_best 0 0 [] counted).0
            (find_best 0 0 [] counted).1)
        e
        (find_best-IsBest (hosted states required) 0 0 [] counted values (record {
          bound = λ p lt. absurd (omega arith);
          taken = tt;
          some_best = λ lt. absurd (omega arith);
          start = λ z. refl;
        }))

  chosen : 0 < n → (p : ℕ) × (select txn_cnt (find_best 0 0 [] counted).1 ≡ some p) × HostsMost p
  chosen pos =
      let b : IsBest _ _ _ _ = IsBest-counted in
      let (p, e, (v, lt)) =
        select_lem _ txn_cnt (find_best 0 0 [] counted).1 (b.some_best pos) b.taken in
      (p, e, record { connected = lt; most = λ q l. ground (arith, b.bound q l, v) })

most_states_of_lem :
    (n : ℕ) (states : Map (ℕ × ℕ) ℕ) (required : List (ℕ × ℕ)) (txn_cnt : ℕ)
    → 0 < n
    → (p : ℕ) × (most_states_of n states required txn_cnt ≡ some (some p))
      × HostsMost n states required txn_cnt p
unfolding most_states_of hosted
most_states_of_lem n states [] txn_cnt pos =
    (0, refl, record { connected = pos; most = λ q lt. omega arith })
most_states_of_lem n states (k ∷ required) txn_cnt pos =
    let (p, e, h) = chosen n states (k ∷ required) txn_cnt pos in (p, rw e refl, h)

-- With a proxy connected, the choice by locality returns one of them, and none hosts more of the
-- required versions, whatever the transaction's counter.
pub most_states_lem :
    (n : ℕ) (states : Map (ℕ × ℕ) ℕ) (required : List (ℕ × ℕ)) (txn_cnt : ℕ)
    → 0 < n
    → (p : ℕ) × (get_proxy_for_shared_objects_most_states n states required txn_cnt ≡ some (some p))
      × HostsMost n states required txn_cnt p
unfolding get_proxy_for_shared_objects_most_states
most_states_lem n states required txn_cnt pos =
    let (p, e, h) = most_states_of_lem n states required txn_cnt pos in (p, ground (arith, e), h)

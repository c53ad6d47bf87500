-- ===== src/Schedule/Batch/Routes.antt =====
-- How the plan of a batch changes: a subgraph's transactions are routed together.
use remora.Prelude.{
  contains-append, ap, get_elem?-returns, ◌||◌, if◌then◌else◌, ℕ, ◌<◌, ◌≡◌, ◌≢◌, refl, List, [],
  ◌∷◌, true, false, some, arith, length, All, get_elem?, Map, get, insert, get-insert, contains,
  nat_eq, ==_iff, concat, ltb,
}
use remora.Api.{TransactionWithTimestamp, digest}
use remora.Schedule.Graph.{DiGraph}
use remora.Schedule.Policy.{route, collect_digests, insert_by_len, sort_by_len, large}

pub get-route :
    (plan : Map ℕ ℕ) (ds : List ℕ) (p d : ℕ)
    → get (route plan ds p) d ≡ (if contains ds d then some p else get plan d)
unfolding route contains
get-route plan [] p d = refl
get-route plan (x ∷ ds) p d =
    ground (arith, get-route (insert plan x p) ds p d, get-insert plan x d p)

contains-insert_by_len :
    (c : List ℕ) (cs : List (List ℕ)) (w : ℕ)
    → contains (concat (insert_by_len c cs)) w ≡ (contains c w || contains (concat cs) w)
unfolding insert_by_len contains
contains-insert_by_len c [] w = contains-append c [] w
contains-insert_by_len c (d ∷ ds) w = ground (
  arith,
  contains-insert_by_len c ds w,
  contains-append c (concat (d ∷ ds)) w,
  contains-append d (concat ds) w,
  contains-append d (concat (insert_by_len c ds)) w,
)

pub contains-sort_by_len :
    (cs : List (List ℕ)) (w : ℕ) → contains (concat (sort_by_len cs)) w ≡ contains (concat cs) w
unfolding sort_by_len
contains-sort_by_len [] w = refl
contains-sort_by_len (c ∷ cs) w = ground (
  arith,
  contains-insert_by_len c (sort_by_len cs) w,
  contains-sort_by_len cs w,
  contains-append c (concat cs) w,
)

pub All-insert_by_len {ℓ} :
    (P : List ℕ → Type ℓ) (c : List ℕ) (cs : List (List ℕ))
    → P c
    → All P cs
    → All P (insert_by_len c cs)
unfolding insert_by_len
All-insert_by_len P c [] hc hs = (hc, tt)
All-insert_by_len P c (d ∷ ds) hc hs =
    elim (ltb (length c) (length d))
      as (λ b. All P (if b then d ∷ insert_by_len c ds else c ∷ d ∷ ds)) [
        | true ↦ (hs.0, All-insert_by_len P c ds hc hs.1)
        | false ↦ (hc, hs)
      ]

pub All-sort_by_len {ℓ} :
    (P : List ℕ → Type ℓ) (cs : List (List ℕ)) → All P cs → All P (sort_by_len cs)
unfolding sort_by_len
All-sort_by_len P [] h = tt
All-sort_by_len P (c ∷ cs) h = All-insert_by_len P c (sort_by_len cs) h.0 (All-sort_by_len P cs h.1)

pub All-large {ℓ} : (P : List ℕ → Type ℓ) (cs : List (List ℕ)) → All P cs → All P (large cs)
unfolding large
All-large P [] h = tt
All-large P (c ∷ cs) h =
    elim (ltb (length c) 2) as (λ b. All P (if b then large cs else c ∷ large cs)) [
      | true ↦ All-large P cs h.1
      | false ↦ (h.0, All-large P cs h.1)
    ]

-- Two different nodes make a subgraph large.
two_nodes :
    (c : List ℕ) (i j : ℕ)
    → i ≢ j
    → contains c i ≡ true
    → contains c j ≡ true
    → ltb (length c) 2 ≡ false
unfolding contains
two_nodes [] i j h mi mj = absurd (ground arith)
two_nodes (x ∷ []) i j h mi mj = ground (arith, ==_iff x i, ==_iff x j)
two_nodes (x ∷ y ∷ c) i j h mi mj = ground arith

pub contains-large :
    (cs : List (List ℕ)) (i j : ℕ)
    → i ≢ j
    → All (λ c. contains c i ≡ contains c j) cs
    → contains (concat cs) i ≡ true
    → contains (concat (large cs)) i ≡ true
unfolding large
contains-large [] i j h same m = m
contains-large (c ∷ cs) i j h same m = ground (
  arith,
  same.0,
  two_nodes c i j h,
  contains-large cs i j h same.1,
  contains-append c (concat cs) i,
  contains-append c (concat (large cs)) i,
)

-- The transaction at a node, and no two with the same digest.
pub record IsBatch ⦃D : DiGraph⦄ (g : D.Graph) (txs : List TransactionWithTimestamp) : Type 0 where
  pub weights :
      (i : ℕ) (tx : TransactionWithTimestamp)
      → get_elem? txs i ≡ some tx
      → D.weight g i ≡ some (digest tx)
  pub distinct :
      (i j : ℕ) (t u : TransactionWithTimestamp)
      → get_elem? txs i ≡ some t
      → get_elem? txs j ≡ some u
      → digest t ≡ digest u
      → i ≡ j

same_digest :
    (txs : List TransactionWithTimestamp) (i j : ℕ) (t u : TransactionWithTimestamp)
    → get_elem? txs i ≡ some t
    → get_elem? txs j ≡ some u
    → i ≡ j
    → digest t ≡ digest u
same_digest txs i j t u ei ej same =
    let equal : t ≡ u = ground (arith, ap (get_elem? txs) same, ei, ej) in ap digest equal

module _ ⦃D : DiGraph⦄ (g : D.Graph) (txs : List TransactionWithTimestamp)
    (batch : IsBatch g txs) where
  -- The digests of a subgraph are those of its nodes, and of no others.
  pub collect_digests-returns :
      (nodes : List ℕ)
      → All (λ i. i < length txs) nodes
      → (ds : List ℕ) × (collect_digests g nodes ≡ some ds)
        × ((i : ℕ) (t : TransactionWithTimestamp)
            → get_elem? txs i ≡ some t
            → contains ds (digest t) ≡ contains nodes i)
  unfolding collect_digests contains
  collect_digests-returns [] h = ([], refl, λ i t e. refl)
  collect_digests-returns (idx ∷ nodes) h =
      let (u, eu) = get_elem?-returns txs idx h.0 in
      let (ds, rest, members) = collect_digests-returns nodes h.1 in
      let w = batch.weights idx u eu in
      (
        if contains ds (digest u) then ds else digest u ∷ ds,
        rw (w, collect_digests, rest) refl,
        λ i t e. ground (
          arith,
          members i t e,
          members idx u eu,
          batch.distinct idx i u t eu e,
          ==_iff idx i,
          ==_iff (digest u) (digest t),
          same_digest txs idx i u t eu e,
        ),
      )

-- ===== src/Schedule/Choice.antt =====
-- The choice of a proxy for a subgraph.
use remora.Prelude.{
  get_elem?-returns, ◌∙◌, if◌then◌else◌, ℕ, zero, suc, ◌+◌, ◌<◌, ◌≤◌, ◌≡◌, refl, List, [], ◌∷◌,
  true, false, some, arith, length, All, get_elem?, Map, get, insert, get-insert, nat_eq,
  length-map, Option-cases, inl, inr,
}
use remora.Schedule.External.{External, ExternalLaws}
use remora.Schedule.Scores.{
  add_at, zeros, normalized_locality, normalized_load, combine, candidates, best_candidates, choose,
}
use remora.Schedule.Policy.{score_object, locality_scores, note_objects}
use remora.Schedule.Index.{HasIndex, object_id_24bit_index-bound}

pub length-zeros : (n : ℕ) → length (zeros n) ≡ n
unfolding zeros
length-zeros zero = refl
length-zeros (suc n) = omega (arith, length-zeros n)

pub add_at-returns :
    (xs : List ℕ) (i n : ℕ)
    → i < length xs
    → (ys : List ℕ) × (add_at xs i n ≡ some ys) × (length ys ≡ length xs)
unfolding add_at
add_at-returns [] i n h = absurd (omega arith)
add_at-returns (x ∷ xs) zero n h = ((x + n) ∷ xs, refl, refl)
add_at-returns (x ∷ xs) (suc i) n h =
    let (ys, e, l) = add_at-returns xs i n (omega arith) in (x ∷ ys, ground arith, omega (arith, l))

-- Every proxy that the map records is below a bound.
abbrev pub Below : ℕ → Map ℕ ℕ → Type 0
Below n m = (k p : ℕ) → get m k ≡ some p → p < n

module _ ⦃E : External⦄ where
  candidates-lt :
      (m : E.Float) (p bound : ℕ) (scores : List E.Float)
      → p + length scores ≤ bound
      → All (λ q. q < bound) (candidates m p scores)
  unfolding candidates
  candidates-lt m p bound [] h = tt
  candidates-lt m p bound (score ∷ scores) h =
      let rest = candidates-lt m (suc p) bound scores (omega arith) in
      elim (E.lt_f (E.abs (E.sub score m)) E.epsilon)
        as (λ b.
          All (λ q. q < bound)
            (if b then p ∷ candidates m (suc p) scores else candidates m (suc p) scores)) [
              | true ↦ (omega arith, rest)
              | false ↦ rest
            ]

  length-combine : (xs ys : List E.Float) → length (combine xs ys) ≤ length xs
  unfolding combine
  length-combine [] ys = omega arith
  length-combine (x ∷ xs) [] = omega arith
  length-combine (x ∷ xs) (y ∷ ys) = omega (arith, length-combine xs ys)

  length-normalized_locality : (xs : List ℕ) → length (normalized_locality xs) ≡ length xs
  unfolding normalized_locality
  length-normalized_locality xs = length-map xs _

  pub best_candidates-lt :
      (localities loads : List ℕ) (n : ℕ)
      → length localities ≡ n
      → All (λ q. q < n) (best_candidates localities loads)
  unfolding best_candidates normalized_locality
  best_candidates-lt localities loads n h = candidates-lt _ 0 n _ (
      omega (
        arith,
        h,
        length-combine (normalized_locality localities) (normalized_load loads),
        length-normalized_locality localities,
      ))

  All-get_elem? :
      (n : ℕ) (xs : List ℕ) (k x : ℕ) → All (λ q. q < n) xs → get_elem? xs k ≡ some x → x < n
  All-get_elem? n [] k x h e = absurd (ground arith)
  All-get_elem? n (y ∷ xs) zero x h e = ground (arith, h.0)
  All-get_elem? n (y ∷ xs) (suc k) x h e = All-get_elem? n xs k x h.1 e

  pub choose-returns :
      ExternalLaws E
      → (seed : E.Seed) (n : ℕ) (ps : List ℕ) → 0 < n
      → All (λ q. q < n) ps
      → (best : ℕ) × (seed' : E.Seed) × (choose seed ps ≡ some (best, seed')) × (best < n)
  unfolding choose
  choose-returns laws seed n [] h below = (0, seed, refl, h)
  choose-returns laws seed n (p ∷ ps) h below =
      let k = (E.usize seed (length (p ∷ ps))).0 in
      let (best, e) =
        get_elem?-returns (p ∷ ps) k (laws.usize_lt seed (length (p ∷ ps)) (omega arith)) in
      (
        best,
        (E.usize seed (length (p ∷ ps))).1,
        rw (e, choose) refl,
        All-get_elem? n (p ∷ ps) k best below e,
      )

  score_object-returns :
      ExternalLaws E
      → (last : Map ℕ ℕ) (scores : List ℕ) (object_id : ℕ) → Below (length scores) last
      → HasIndex object_id
      → (scores' : List ℕ) × (score_object last scores object_id ≡ some scores')
        × (length scores' ≡ length scores)
  unfolding score_object
  score_object-returns laws last scores object_id below h =
      elim (object_id_24bit_index-bound laws object_id) [
        | inr (zeroed, _) ↦ absurd (zeroed h)
        | inl (_, i, e, bound) ↦ elim (Option-cases (get last i)) [
          | inl new ↦ (scores, ground arith, refl)
          | inr (p, known) ↦
              let (scores', added, l) = add_at-returns scores p 1 (below i p known) in
              (scores', ground arith, l)
        ]
      ]

  pub locality_scores-returns :
      ExternalLaws E
      → (last : Map ℕ ℕ) (n : ℕ) (scores objects : List ℕ) → length scores ≡ n
      → Below n last
      → All HasIndex objects
      → (scores' : List ℕ) × (locality_scores last scores objects ≡ some scores')
        × (length scores' ≡ n)
  unfolding locality_scores
  locality_scores-returns laws last n scores [] l below h = (scores, refl, l)
  locality_scores-returns laws last n scores (o ∷ objects) l below h =
      let (scores', first, l') =
        score_object-returns laws last scores o (λ k p e. omega (arith, below k p e, l)) h.0 in
      let (scores'', rest, l'') =
        locality_scores-returns laws last n scores' objects (l' ∙ l) below h.1 in
      (scores'', rw (first, locality_scores) rest, l'')

  pub note_objects-returns :
      ExternalLaws E
      → (last : Map ℕ ℕ) (n p : ℕ) (objects : List ℕ) → p < n
      → Below n last
      → All HasIndex objects
      → (last' : Map ℕ ℕ) × (note_objects last p objects ≡ some last') × Below n last'
  unfolding note_objects
  note_objects-returns laws last n p [] h below valid = (last, refl, below)
  note_objects-returns laws last n p (o ∷ objects) h below valid =
      elim (object_id_24bit_index-bound laws o) [
        | inr (zeroed, _) ↦ absurd (zeroed valid.0)
        | inl (_, i, e, bound) ↦
            let (last', rest, below') =
              note_objects-returns laws (insert last i p) n p objects h
                (λ k q g. ground (arith, get-insert last i k p, below k q)) valid.1 in
            (last', ground arith, below')
      ]

-- ===== src/Schedule/Scores.antt =====
-- src/primary/shared_obj_txn_forwarder.rs, the choice of a proxy in `assign_large_subgraph_proxy`.
use remora.Prelude.{
  ℕ, zero, suc, List, [], ◌∷◌, Option, none, some, if◌then◌else◌, ltb, map, length, get_elem?,
  nat_eq, ◌+◌,
}
use remora.Schedule.External.{External}

-- `scores[i] += 1` or `+= n` on a vector: `none` is the panic on an index out of range.
unfoldable pub add_at : List ℕ → ℕ → ℕ → Option (List ℕ)
add_at [] i n = none
add_at (x ∷ xs) zero n = some ((x + n) ∷ xs)
add_at (x ∷ xs) (suc i) n = elim (add_at xs i n) [ none ↦ none | some ys ↦ some (x ∷ ys) ]

-- `vec![0usize; n]`
unfoldable pub zeros : ℕ → List ℕ
zeros zero = []
zeros (suc n) = 0 ∷ zeros n

-- `*scores.iter().max().unwrap_or(&1).max(&1)`: the largest score, and 1 if that is none or 0.
unfoldable pub max_or_one : List ℕ → ℕ
max_or_one [] = 1
max_or_one (x ∷ xs) = let rest = max_or_one xs in if ltb rest x then x else rest

module _ ⦃E : External⦄ where
  -- score as f64 / max_locality
  unfoldable pub normalized_locality : List ℕ → List E.Float
  unfolding max_or_one
  normalized_locality scores =
      map (λ score. E.div (E.of_usize score) (E.of_usize (max_or_one scores))) scores

  -- 1.0 - (load as f64 / max_load)
  unfoldable pub normalized_load : List ℕ → List E.Float
  unfolding max_or_one
  normalized_load scores =
      map (λ load. E.sub E.one_f (E.div (E.of_usize load) (E.of_usize (max_or_one scores)))) scores

  -- 0.5 * normalized_locality[i] + 0.5 * normalized_load[i], the two having a score for each proxy
  unfoldable pub combine : List E.Float → List E.Float → List E.Float
  combine [] loads = []
  combine (l ∷ localities) [] = []
  combine (l ∷ localities) (d ∷ loads) =
      E.add (E.mul E.half l) (E.mul E.half d) ∷ combine localities loads

  -- fold(0.0f64, |acc, &score| acc.max(score))
  unfoldable pub fold_max : E.Float → List E.Float → E.Float
  fold_max acc [] = acc
  fold_max acc (score ∷ scores) = fold_max (E.max_f acc score) scores

  -- The proxies from `p` on whose score is within epsilon of the maximum.
  unfoldable pub candidates : E.Float → ℕ → List E.Float → List ℕ
  candidates max_combined_score p [] = []
  candidates max_combined_score p (score ∷ scores) =
      let rest = candidates max_combined_score (suc p) scores in
      if E.lt_f (E.abs (E.sub score max_combined_score)) E.epsilon then p ∷ rest else rest

  unfoldable pub best_candidates : List ℕ → List ℕ → List ℕ
  unfolding normalized_locality normalized_load combine fold_max candidates
  best_candidates locality_scores load_scores =
      let combined_scores =
        combine (normalized_locality locality_scores) (normalized_load load_scores) in
      candidates (fold_max E.zero_f combined_scores) 0 combined_scores

  -- One of the candidates at random, and the seed after it; `none` is an index out of range.
  unfoldable pub choose : E.Seed → List ℕ → Option (ℕ × E.Seed)
  choose seed [] = some (0, seed)
  choose seed (p ∷ ps) =
      let (k, seed') = E.usize seed (length (p ∷ ps)) in
      elim (get_elem? (p ∷ ps) k) [ none ↦ none | some best ↦ some (best, seed') ]

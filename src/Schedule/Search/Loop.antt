-- ===== src/Schedule/Search/Loop.antt =====
-- The `while` loop of a search, its rounds and its invariants.
use remora.Prelude.{
  count, count-append, contains-count, List-cases, sym, subst, ◌==◌, Bool-cases, ◌||◌,
  if◌then◌else◌, ==_iff, ℕ, zero, suc, ◌+◌, ◌<◌, ◌≤◌, ◌≡◌, ap, List, [], ◌∷◌, ◌++◌, true, false,
  contains, nat_eq, arith, length, some, inl, inr,
}
use remora.Schedule.Graph.{DiGraph, IsProper, Walk, here, step, Neighbor}
use remora.Schedule.Search.{Search, visit, search, started}
use remora.Schedule.Search.Visited.{
  mark, push_new-component, visited-push_new, stack-push_new, work, work-push_new,
}

module _ ⦃D : DiGraph⦄ (g : D.Graph) where
  pub search_rule {ℓ} :
      (P : Search → Type ℓ)
      → ((s : Search) (u : ℕ) (rest : List ℕ) → s.stack ≡ u ∷ rest → P s → P (visit g s u rest))
      → (rounds : ℕ) (s t : Search) → P s
      → search g rounds s ≡ some t
      → P t × (t.stack ≡ [])
  unfolding search
  search_rule P keep zero s t p h = ground arith
  search_rule P keep (suc rounds) s t p h = elim (List-cases s.stack) [
    | inl empty ↦ ground arith
    | inr (u, rest, e) ↦
        search_rule P keep rounds (visit g s u rest) t (keep s u rest e p) (rw (e, search) at h)
  ]

  work-visit :
      (s : Search) (u : ℕ) (rest : List ℕ)
      → IsProper g
      → s.stack ≡ u ∷ rest
      → suc (work (D.node_count g) (visit g s u rest)) ≡ work (D.node_count g) s
  unfolding visit
  work-visit s u rest proper e = omega (
    arith,
    ap length e,
    work-push_new (D.node_count g)
        (record s { stack = rest; component_nodes = s.component_nodes ++ u ∷ [] })
        (D.neighbors_undirected g u) (proper.bounded u),
  )

  pub search_ends :
      IsProper g
      → (rounds : ℕ) (s : Search) → work (D.node_count g) s ≤ rounds
      → (t : Search) × (search g rounds s ≡ some t)
  unfolding search
  search_ends proper zero s h = (s, ground arith)
  search_ends proper (suc rounds) s h = elim (List-cases s.stack) [
    | inl empty ↦ (s, simp (empty, search))
    | inr (u, rest, e) ↦
        let (t, ends) =
          search_ends proper rounds (visit g s u rest)
            (omega (arith, work-visit s u rest proper e)) in
        (t, ground arith)
  ]

  -- The nodes that this search visits are those of its component and its stack, each once; the
  -- neighbours of the component are visited; and the root leads to all of them.
  pub record Explores (before : List ℕ) (root : ℕ) (s : Search) : Type 0 where
    pub once :
        (w : ℕ) → mark before w + count s.component_nodes w + count s.stack w ≡ mark s.visited w
    pub has_root : contains s.visited root ≡ true
    pub complete :
        (u v : ℕ)
        → contains s.component_nodes u ≡ true
        → Neighbor g u v
        → contains s.visited v ≡ true
    pub connected : (w : ℕ) → 0 < count s.component_nodes w + count s.stack w → Walk g root w

  pub Explores-started :
      (before : List ℕ) (root : ℕ)
      → contains before root ≡ false
      → Explores before root (started before root)
  unfolding contains
  Explores-started before root h = record {
    once = λ w. ground (arith, ==_iff root w);
    has_root = ground (arith, ==_iff root root);
    complete = λ u v m n. absurd (ground arith);
    connected = λ w m. rw ((==_iff root w).0 (ground arith)) here;
  }

  component-visit :
      (s : Search) (u : ℕ) (rest : List ℕ) (w : ℕ)
      → count (visit g s u rest).component_nodes w
        ≡ count s.component_nodes w + (if u == w then 1 else 0)
  unfolding visit
  component-visit s u rest w = omega (
    arith,
    count-append s.component_nodes (u ∷ []) w,
    ap (λ nodes. count nodes w)
        (push_new-component
          (record s { stack = rest; component_nodes = s.component_nodes ++ u ∷ [] })
          (D.neighbors_undirected g u)),
  )

  visited-visit :
      (s : Search) (u : ℕ) (rest : List ℕ) (w : ℕ)
      → contains (visit g s u rest).visited w
        ≡ (contains s.visited w || contains (D.neighbors_undirected g u) w)
  unfolding visit
  visited-visit s u rest w =
      visited-push_new (record s { stack = rest; component_nodes = s.component_nodes ++ u ∷ [] })
        (D.neighbors_undirected g u) w

  stack-visit :
      (s : Search) (u : ℕ) (rest : List ℕ) (w : ℕ)
      → s.stack ≡ u ∷ rest
      → count (visit g s u rest).stack w + mark s.visited w + (if u == w then 1 else 0)
        ≡ count s.stack w + mark (visit g s u rest).visited w
  unfolding visit
  stack-visit s u rest w e = omega (
    arith,
    ap (λ nodes. count nodes w) e,
    stack-push_new (record s { stack = rest; component_nodes = s.component_nodes ++ u ∷ [] })
        (D.neighbors_undirected g u) w,
  )

  pub Explores-visit :
      (before : List ℕ) (root : ℕ) (s : Search) (u : ℕ) (rest : List ℕ)
      → s.stack ≡ u ∷ rest
      → Explores before root s
      → Explores before root (visit g s u rest)
  Explores-visit before root s u rest e h =
      let to_u = h.connected u (ground (arith, ap (λ nodes. count nodes u) e, ==_iff u u)) in
      record {
        once = λ w. omega (arith, h.once w, component-visit s u rest w, stack-visit s u rest w e);
        has_root = ground (arith, h.has_root, visited-visit s u rest root);
        complete = λ x v m n. elim (Bool-cases (u == x)) [
          | inl same ↦
              rw visited-visit
                (ground (arith, subst (λ y. Neighbor g y v) (sym ((==_iff u x).0 same)) n))
          | inr differs ↦ ground (
            arith,
            visited-visit s u rest v,
            component-visit s u rest x,
            contains-count s.component_nodes x,
            contains-count (visit g s u rest).component_nodes x,
            h.complete x v,
          )
        ];
        connected = λ w m. elim (Bool-cases (contains (D.neighbors_undirected g u) w)) [
          | inl near ↦ step to_u near
          | inr far ↦ h.connected w (
              ground (
                arith,
                visited-visit s u rest w,
                component-visit s u rest w,
                stack-visit s u rest w e,
                ap (λ nodes. count nodes w) e,
              ))
        ];
      }

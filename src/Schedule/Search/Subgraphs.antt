-- ===== src/Schedule/Search/Subgraphs.antt =====
-- `find_all_subgraphs` and the weakly connected components.
use remora.Prelude.{
  count, count-append, contains-count, ltb, ◌&&◌, leb, sym, ==_iff, subst, Option-cases, ap, ℕ,
  zero, suc, ◌+◌, ◌<◌, ◌≤◌, ◌≡◌, refl, List, [], ◌∷◌, true, false, contains, nat_eq, arith, some,
  All, concat, Bool-cases, inl, inr,
}
use remora.Schedule.Graph.{DiGraph, IsProper, Walk, here, step, Neighbor}
use remora.Schedule.Search.{Search, search, started, search_from, find_all_subgraphs, range}
use remora.Schedule.Search.Visited.{mark, unvisited-insert, unvisited-le}
use remora.Schedule.Search.Loop.{
  search_rule, search_ends, Explores, Explores-started, Explores-visit,
}

module _ ⦃D : DiGraph⦄ (g : D.Graph) where
  -- A set of nodes that neighbours do not lead out of.
  abbrev pub Closed : List ℕ → Type 0
  Closed nodes = (u v : ℕ) → contains nodes u ≡ true → Neighbor g u v → contains nodes v ≡ true

  -- The nodes are those that a root reaches.
  pub record IsComponent (nodes : List ℕ) : Type 0 where
    pub root : ℕ
    pub closed : Closed nodes
    pub connected : (w : ℕ) → contains nodes w ≡ true → Walk g root w
    pub bounded : (w : ℕ) → contains nodes w ≡ true → w < D.node_count g

  -- One search, from a node that is not visited, when the visited nodes are closed.
  record Finds (visited : List ℕ) (node_idx : ℕ) (s : Search) : Type 0 where
    counts : (w : ℕ) → mark visited w + count s.component_nodes w ≡ mark s.visited w
    has_root : contains s.visited node_idx ≡ true
    closed : Closed s.visited
    component : IsComponent s.component_nodes

  Walk-lt : IsProper g → {u v : ℕ} → u < D.node_count g → Walk g u v → v < D.node_count g
  Walk-lt proper below here = below
  Walk-lt proper below (step {v} {w} p n) = proper.bounded v w n

  search-Finds :
      IsProper g
      → (rounds : ℕ) (visited : List ℕ) (node_idx : ℕ) (s : Search) → Closed visited
      → node_idx < D.node_count g
      → contains visited node_idx ≡ false
      → search g rounds (started visited node_idx) ≡ some s
      → Finds visited node_idx s
  search-Finds proper rounds visited node_idx s before below new h =
      let (seen, empty) =
        search_rule g (Explores g visited node_idx) (Explores-visit g visited node_idx) rounds
          (started visited node_idx) s (Explores-started g visited node_idx new) h in
      let counts : (w : ℕ) → mark visited w + count s.component_nodes w ≡ mark s.visited w =
        λ w. omega (arith, seen.once w, ap (λ nodes. count nodes w) empty) in
      record {
        counts = counts;
        has_root = seen.has_root;
        closed = λ u v m n. ground (
          arith,
          counts u,
          counts v,
          contains-count s.component_nodes u,
          seen.complete u v,
          before u v,
        );
        component = record {
          root = node_idx;
          closed = λ u v m n. ground (
            arith,
            counts u,
            counts v,
            contains-count s.component_nodes u,
            contains-count s.component_nodes v,
            seen.complete u v m n,
            before v u,
            proper.symmetric u v n,
          );
          connected = λ w m. seen.connected w (ground (arith, contains-count s.component_nodes w));
          bounded = λ w m.
              Walk-lt proper below
                (seen.connected w (ground (arith, contains-count s.component_nodes w)));
        };
      }

  search_from-found :
      (rounds : ℕ) (visited : List ℕ) (node_idx : ℕ) (nodes : List ℕ) (subgraphs : List (List ℕ))
      → contains visited node_idx ≡ false
      → search_from g rounds visited (node_idx ∷ nodes) ≡ some subgraphs
      → (s : Search) × (search g rounds (started visited node_idx) ≡ some s)
        × ((later : List (List ℕ)) × (search_from g rounds s.visited nodes ≡ some later)
            × (subgraphs ≡ s.component_nodes ∷ later))
  unfolding search_from
  search_from-found rounds visited node_idx nodes subgraphs new h =
      elim (Option-cases (search g rounds (started visited node_idx))) [
        | inl out ↦ absurd (ground arith)
        | inr (s, found) ↦ elim (Option-cases (search_from g rounds s.visited nodes)) [
          | inl out ↦ absurd (ground arith)
          | inr (later, ends) ↦ (s, found, (later, ends, ground arith))
        ]
      ]

  -- What `search_from` returns when `visited` was visited before: no node twice, each of the list
  -- once, in components.
  pub record Partitions (visited nodes : List ℕ) (subgraphs : List (List ℕ)) : Type 0 where
    pub at_most : (w : ℕ) → mark visited w + count (concat subgraphs) w ≤ 1
    pub covers : (w : ℕ) → contains nodes w ≡ true → 0 < mark visited w + count (concat subgraphs) w
    pub components : All IsComponent subgraphs

  search_from-Partitions :
      IsProper g
      → (rounds : ℕ) (visited nodes : List ℕ) (subgraphs : List (List ℕ)) → Closed visited
      → All (λ v. v < D.node_count g) nodes
      → search_from g rounds visited nodes ≡ some subgraphs
      → Partitions visited nodes subgraphs
  unfolding search_from contains
  search_from-Partitions proper rounds visited [] subgraphs before inside h = record {
    at_most = λ w. ground arith;
    covers = λ w m. absurd (ground arith);
    components = let empty : [] ≡ subgraphs = ground arith in subst (All IsComponent) empty tt;
  }
  search_from-Partitions proper rounds visited (node_idx ∷ nodes) subgraphs before inside h =
      elim (Bool-cases (contains visited node_idx)) [
        | inl old ↦
            let rest =
              search_from-Partitions proper rounds visited nodes subgraphs before inside.1
                (ground arith) in
            record {
              at_most = rest.at_most;
              covers = λ w m. ground (arith, rest.covers w, ==_iff node_idx w);
              components = rest.components;
            }
        | inr new ↦
            let (s, found, (later, ends, whole)) =
              search_from-found rounds visited node_idx nodes subgraphs new h in
            let first = search-Finds proper rounds visited node_idx s before inside.0 new found in
            let rest =
              search_from-Partitions proper rounds s.visited nodes later first.closed inside.1
                ends in
            subst (Partitions visited (node_idx ∷ nodes)) (sym whole) (record {
              at_most = λ w. omega (
                arith,
                first.counts w,
                rest.at_most w,
                count-append s.component_nodes (concat later) w,
              );
              covers = λ w m. ground (
                arith,
                first.counts w,
                rest.covers w,
                count-append s.component_nodes (concat later) w,
                first.has_root,
                ==_iff node_idx w,
              );
              components = (first.component, rest.components);
            })
      ]

  -- Every search has rounds for all the nodes.
  search_from-ends :
      IsProper g
      → (visited nodes : List ℕ) → All (λ v. v < D.node_count g) nodes
      → (subgraphs : List (List ℕ)) × (search_from g (D.node_count g) visited nodes
          ≡ some subgraphs)
  unfolding search_from
  search_from-ends proper visited [] below = ([], refl)
  search_from-ends proper visited (node_idx ∷ nodes) below =
      elim (Bool-cases (contains visited node_idx)) [
        | inl old ↦
            let (subgraphs, ends) = search_from-ends proper visited nodes below.1 in
            (subgraphs, ground arith)
        | inr new ↦
            let (s, found) = search_ends g proper (D.node_count g) (started visited node_idx) (
              ground (
                arith,
                unvisited-insert (D.node_count g) node_idx visited new,
                unvisited-le (D.node_count g) visited,
                below.0,
              )) in
            let (subgraphs, ends) = search_from-ends proper s.visited nodes below.1 in
            (s.component_nodes ∷ subgraphs, ground arith)
      ]

contains-range : (start n w : ℕ) → contains (range start n) w ≡ (leb start w && ltb w (start + n))
unfolding contains
contains-range start zero w = ground arith
contains-range start (suc n) w = ground (arith, contains-range (suc start) n w, ==_iff start w)

range-lt : (start n bound : ℕ) → start + n ≤ bound → All (λ v. v < bound) (range start n)
range-lt start zero bound h = tt
range-lt start (suc n) bound h = (omega arith, range-lt (suc start) n bound (omega arith))

module _ ⦃D : DiGraph⦄ (g : D.Graph) (proper : IsProper g) where
  -- On a graph whose neighbours are nodes, and symmetric, `find_all_subgraphs` returns: no search runs
  -- out of rounds.
  pub find_all_subgraphs-ends :
      (subgraphs : List (List ℕ)) × (find_all_subgraphs g ≡ some subgraphs)
  unfolding find_all_subgraphs
  find_all_subgraphs-ends =
      search_from-ends g proper [] (range 0 (D.node_count g))
        (range-lt 0 (D.node_count g) (D.node_count g) (omega arith))

  pub find_all_subgraphs-Partitions :
      (subgraphs : List (List ℕ))
      → find_all_subgraphs g ≡ some subgraphs
      → Partitions g [] (range 0 (D.node_count g)) subgraphs
  unfolding find_all_subgraphs contains
  find_all_subgraphs-Partitions subgraphs h =
      search_from-Partitions g proper (D.node_count g) [] (range 0 (D.node_count g)) subgraphs
        (λ u v m n. absurd (ground arith))
        (range-lt 0 (D.node_count g) (D.node_count g) (omega arith)) h

  -- Every node stands once in one of the subgraphs.
  pub find_all_subgraphs-once :
      (subgraphs : List (List ℕ)) (w : ℕ)
      → find_all_subgraphs g ≡ some subgraphs
      → w < D.node_count g
      → count (concat subgraphs) w ≡ 1
  unfolding contains
  find_all_subgraphs-once subgraphs w h below =
      let parts = find_all_subgraphs-Partitions subgraphs h in
      omega (
        arith,
        parts.at_most w,
        parts.covers w (ground (arith, contains-range 0 (D.node_count g) w)),
      )

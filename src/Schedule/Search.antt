-- ===== src/Schedule/Search.antt =====
-- src/primary/shared_obj_txn_forwarder.rs, `find_all_subgraphs`: a depth-first search from every node
-- that no earlier search has visited.
pub mod Visited
pub mod Loop
pub mod Subgraphs
use remora.Prelude.{
  ℕ, zero, suc, ◌+◌, ◌<◌, ◌≡◌, Option, none, some, List, [], ◌∷◌, ◌++◌, Bool, true, false,
  if◌then◌else◌, contains, nat_eq,
}
use remora.Schedule.Graph.{DiGraph}

-- The head of `stack` is its top; `visited` is the set.
pub record Search : Type 0 where
  pub visited : List ℕ
  pub stack : List ℕ
  pub component_nodes : List ℕ

-- The `for` loop over the neighbours of the node that left the stack.
unfoldable pub push_new : Search → List ℕ → Search
push_new s [] = s
push_new s (v ∷ vs) =
    push_new
      (if contains s.visited v
        then s
        else record s { visited = v ∷ s.visited; stack = v ∷ s.stack })
      vs

-- A search that begins at a node.
abbrev pub started : List ℕ → ℕ → Search
started visited node_idx = record {
  visited = node_idx ∷ visited;
  stack = node_idx ∷ [];
  component_nodes = [];
}

-- The `count` indices from `start` on: `node_indices`, at 0.
abbrev pub range : ℕ → ℕ → List ℕ
range start zero = []
range start (suc count) = start ∷ range (suc start) count

module _ ⦃D : DiGraph⦄ (graph : D.Graph) where
  -- The body of the `while` loop, after `current_node` left the stack.
  unfoldable pub visit : Search → ℕ → List ℕ → Search
  visit s current_node rest =
      push_new (record s { stack = rest; component_nodes = s.component_nodes ++ current_node ∷ [] })
        (D.neighbors_undirected graph current_node)

  -- The `while` loop; `none` when the rounds run out.
  unfoldable pub search : ℕ → Search → Option Search
  search zero s = elim s.stack [ [] ↦ some s | _ ∷ _ ↦ none ]
  search (suc rounds) s = elim s.stack [
    | [] ↦ some s
    | current_node ∷ rest ↦ search rounds (visit s current_node rest)
  ]

  -- The `for` loop over the nodes.
  unfoldable pub search_from : ℕ → List ℕ → List ℕ → Option (List (List ℕ))
  search_from rounds visited [] = some []
  search_from rounds visited (node_idx ∷ nodes) = elim (contains visited node_idx) [
    | true ↦ search_from rounds visited nodes
    | false ↦ elim (search rounds (started visited node_idx)) [
      | none ↦ none
      | some s ↦ elim (search_from rounds s.visited nodes) [
        | none ↦ none
        | some components ↦ some (s.component_nodes ∷ components)
      ]
    ]
  ]

  -- No search visits more nodes than there are.
  unfoldable pub find_all_subgraphs : Option (List (List ℕ))
  find_all_subgraphs = search_from (D.node_count graph) [] (range 0 (D.node_count graph))

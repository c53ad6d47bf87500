-- ===== src/Schedule/Graph.antt =====
-- src/primary/shared_obj_txn_forwarder.rs, `build_dependency_graph`, on the graphs of petgraph.
pub mod Linked
pub mod Connected
pub mod Edges
use remora.Prelude.{
  ℕ, suc, ◌<◌, ◌≡◌, ◌↔◌, ◌⊎◌, Option, none, some, List, [], ◌∷◌, true, Map, get, insert, contains,
  nat_eq, false, ◌||◌, ◌&&◌, ◌==◌,
}
use remora.Api.{TransactionWithTimestamp, digest}

-- petgraph's `DiGraph<TransactionDigest, ()>`: nodes are indices, in the order in which they were
-- added. The laws are the documented behaviour of an index-based graph.
pub record DiGraph : Type 1 where
  pub Graph : Type 0
  pub new : Graph
  pub node_count : Graph → ℕ
  pub weight : Graph → ℕ → Option ℕ
  pub neighbors_undirected : Graph → ℕ → List ℕ
  pub add_node : Graph → ℕ → Graph
  pub add_edge : Graph → ℕ → ℕ → Graph

abbrev pub Neighbor : ⦃D : DiGraph⦄ → D.Graph → ℕ → ℕ → Type 0
Neighbor ⦃D⦄ g u v = contains (D.neighbors_undirected g u) v ≡ true

-- The nodes that a path of neighbours leads to.
pub data Walk ⦃D : DiGraph⦄ (g : D.Graph) (u : ℕ) : ℕ → Type 0 where
  here : Walk g u u
  step : {v w : ℕ} → Walk g u v → Neighbor g v w → Walk g u w

-- Neighbours are nodes, and each is a neighbour of the other.
pub record IsProper ⦃D : DiGraph⦄ (g : D.Graph) : Type 0 where
  pub bounded : (u v : ℕ) → Neighbor g u v → v < D.node_count g
  pub symmetric : (u v : ℕ) → Neighbor g u v → Neighbor g v u

pub record DiGraphLaws (D : DiGraph) : Type 0 where
  pub node_count-new : D.node_count D.new ≡ 0
  pub node_count-add_node :
      (g : D.Graph) (w : ℕ) → D.node_count (D.add_node g w) ≡ suc (D.node_count g)
  pub node_count-add_edge :
      (g : D.Graph) (a b : ℕ) → D.node_count (D.add_edge g a b) ≡ D.node_count g
  pub weight-new_node : (g : D.Graph) (w : ℕ) → D.weight (D.add_node g w) (D.node_count g) ≡ some w
  pub weight-old_node :
      (g : D.Graph) (w i : ℕ) → i < D.node_count g → D.weight (D.add_node g w) i ≡ D.weight g i
  pub weight-add_edge : (g : D.Graph) (a b i : ℕ) → D.weight (D.add_edge g a b) i ≡ D.weight g i
  pub neighbors-new : (u v : ℕ) → contains (D.neighbors_undirected D.new u) v ≡ false
  pub neighbors-add_node :
      (g : D.Graph) (w u v : ℕ)
      → contains (D.neighbors_undirected (D.add_node g w) u) v
        ≡ contains (D.neighbors_undirected g u) v
  pub neighbors-add_edge :
      (g : D.Graph) (a b u v : ℕ)
      → a < D.node_count g
      → b < D.node_count g
      → contains (D.neighbors_undirected (D.add_edge g a b) u) v
        ≡ (contains (D.neighbors_undirected g u) v || (u == a) && (v == b) || (u == b) && (v == a))

-- The graph so far, and for each object the node that accessed it last.
pub record Builder (Graph : Type 0) : Type 0 where
  pub graph : Graph
  pub digest_to_node : Map ℕ ℕ
  pub object_to_last_accessor : Map ℕ ℕ

module _ ⦃D : DiGraph⦄ where
  -- The round of the inner loop at one object of the transaction.
  unfoldable pub access : ℕ → Builder D.Graph → ℕ → Builder D.Graph
  access node b object_id = record {
    graph = elim (get b.object_to_last_accessor object_id) [
      | none ↦ b.graph
      | some prior_node ↦ D.add_edge b.graph prior_node node
    ];
    digest_to_node = b.digest_to_node;
    object_to_last_accessor = insert b.object_to_last_accessor object_id node;
  }

  unfoldable pub access_all : ℕ → Builder D.Graph → List (ℕ × Option ℕ) → Builder D.Graph
  access_all node b [] = b
  access_all node b ((object_id, version) ∷ objects) =
      access_all node (access node b object_id) objects

  -- The round of the outer loop.
  unfoldable pub add_transaction : Builder D.Graph → TransactionWithTimestamp → Builder D.Graph
  add_transaction b tx =
      let node = D.node_count b.graph in
      access_all node
        (record b {
          graph = D.add_node b.graph (digest tx);
          digest_to_node = insert b.digest_to_node (digest tx) node;
        })
        tx.shared_objects

  unfoldable pub add_transactions :
      Builder D.Graph → List TransactionWithTimestamp → Builder D.Graph
  add_transactions b [] = b
  add_transactions b (tx ∷ txs) = add_transactions (add_transaction b tx) txs

  unfoldable pub build_dependency_graph : List TransactionWithTimestamp → D.Graph × Map ℕ ℕ
  build_dependency_graph transactions =
      let b =
        add_transactions
          (record { graph = D.new; digest_to_node = []; object_to_last_accessor = [] })
          transactions in
      (b.graph, b.digest_to_node)

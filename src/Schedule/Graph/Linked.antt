-- ===== src/Schedule/Graph/Linked.antt =====
-- One access of an object in the building of the dependency graph.
use remora.Prelude.{
  ap, Bool-cases, ==_iff, inr, inl, Option-cases, ◌||◌, ◌&&◌, ◌==◌, length, ℕ, ◌<◌, ◌≡◌, List, true,
  none, some, get, contains, get-insert, nat_eq, arith, get_elem?,
}
use remora.Api.{TransactionWithTimestamp, digest}
use remora.Versions.Laws.{touches}
use remora.Schedule.Graph.{
  DiGraph, DiGraphLaws, Neighbor, Walk, here, step, IsProper, Builder, access,
}

module _ ⦃D : DiGraph⦄ where
  pub Walk_mono :
      {g h : D.Graph}
      → ((u v : ℕ) → Neighbor g u v → Neighbor h u v)
      → {u v : ℕ} → Walk g u v
      → Walk h u v
  Walk_mono f here = here
  Walk_mono f (step {v} {w} p n) = step (Walk_mono f p) (f v w n)

  -- The graph is proper, and the last accessors are nodes.
  pub record IsBuilt (b : Builder D.Graph) : Type 0 where
    pub proper : IsProper b.graph
    pub accessors : (o a : ℕ) → get b.object_to_last_accessor o ≡ some a → a < D.node_count b.graph

  -- The node leads to the last accessor of the object.
  pub record Linked (b : Builder D.Graph) (i o : ℕ) : Type 0 where
    pub last : ℕ
    pub is_last : get b.object_to_last_accessor o ≡ some last
    pub path : Walk b.graph i last

  -- Every processed transaction is a node that is linked at each object that it touches.
  pub record Covers (done : List TransactionWithTimestamp) (b : Builder D.Graph) : Type 0 where
    pub built : IsBuilt b
    pub size : D.node_count b.graph ≡ length done
    pub digests :
        (i : ℕ) (tx : TransactionWithTimestamp)
        → get_elem? done i ≡ some tx
        → D.weight b.graph i ≡ some (digest tx)
    pub linked :
        (i o : ℕ) (tx : TransactionWithTimestamp)
        → get_elem? done i ≡ some tx
        → touches tx o ≡ true
        → Linked b i o

module _ ⦃D : DiGraph⦄ (laws : DiGraphLaws D) where
  pub node_count-access :
      (node : ℕ) (b : Builder D.Graph) (id : ℕ)
      → D.node_count (access node b id).graph ≡ D.node_count b.graph
  unfolding access
  node_count-access node b id = elim (Option-cases (get b.object_to_last_accessor id)) [
    | inl first ↦ ground arith
    | inr (prior, e) ↦ ground (arith, laws.node_count-add_edge b.graph prior node)
  ]

  pub weight-access :
      (node : ℕ) (b : Builder D.Graph) (id i : ℕ)
      → D.weight (access node b id).graph i ≡ D.weight b.graph i
  unfolding access
  weight-access node b id i = elim (Option-cases (get b.object_to_last_accessor id)) [
    | inl first ↦ ground arith
    | inr (prior, e) ↦ ground (arith, laws.weight-add_edge b.graph prior node i)
  ]

  -- An access adds the edge from the prior accessor, if any.
  pub neighbors-access :
      (node : ℕ) (b : Builder D.Graph) (id u v : ℕ)
      → IsBuilt b
      → node < D.node_count b.graph
      → contains (D.neighbors_undirected (access node b id).graph u) v
        ≡ elim (get b.object_to_last_accessor id) [
          | none ↦ contains (D.neighbors_undirected b.graph u) v
          | some a ↦
              contains (D.neighbors_undirected b.graph u) v
              || (u == a) && (v == node)
              || (u == node) && (v == a)
        ]
  unfolding access
  neighbors-access node b id u v built h = elim (Option-cases (get b.object_to_last_accessor id)) [
    | inl first ↦ ground arith
    | inr (prior, e) ↦
        ground
          (arith, laws.neighbors-add_edge b.graph prior node u v (built.accessors id prior e) h)
  ]

  access-lt :
      (node : ℕ) (b : Builder D.Graph) (id u v : ℕ)
      → node < D.node_count b.graph
      → IsBuilt b
      → Neighbor (access node b id).graph u v
      → v < D.node_count b.graph
  access-lt node b id u v h built n =
      let edges = neighbors-access node b id u v built h in
      elim (Option-cases (get b.object_to_last_accessor id)) [
        | inl first ↦ ground (arith, edges, built.proper.bounded u v)
        | inr (prior, e) ↦ ground (
          arith,
          edges,
          built.accessors id prior e,
          built.proper.bounded u v,
          ==_iff v prior,
          ==_iff v node,
        )
      ]

  pub access-IsBuilt :
      (node : ℕ) (b : Builder D.Graph) (id : ℕ)
      → node < D.node_count b.graph
      → IsBuilt b
      → IsBuilt (access node b id)
  unfolding access
  access-IsBuilt node b id h built = record {
    proper = record {
      bounded =
          λ u v n. omega (arith, node_count-access node b id, access-lt node b id u v h built n);
      symmetric = λ u v n. ground (
        arith,
        neighbors-access node b id u v built h,
        neighbors-access node b id v u built h,
        built.proper.symmetric u v,
      );
    };
    accessors = λ o a e. ground (
      arith,
      node_count-access node b id,
      get-insert b.object_to_last_accessor id o node,
      built.accessors o a,
    );
  }

  access_mono :
      (node : ℕ) (b : Builder D.Graph) (id u v : ℕ)
      → node < D.node_count b.graph
      → IsBuilt b
      → Neighbor b.graph u v
      → Neighbor (access node b id).graph u v
  access_mono node b id u v h built n = ground (arith, neighbors-access node b id u v built h)

  -- An access keeps the links, the last accessor of the object being now the node.
  pub access-Linked :
      (node : ℕ) (b : Builder D.Graph) (id i o : ℕ)
      → node < D.node_count b.graph
      → IsBuilt b
      → Linked b i o
      → Linked (access node b id) i o
  unfolding access
  access-Linked node b id i o h built link =
      let path = Walk_mono (λ u v. access_mono node b id u v h built) link.path in
      elim (Bool-cases (id == o)) [
        | inl same ↦ record {
          last = node;
          is_last = ground (arith, get-insert b.object_to_last_accessor id o node);
          path = step path (
              ground (
                arith,
                neighbors-access node b id link.last node built h,
                ap (get b.object_to_last_accessor) ((==_iff id o).0 same),
                link.is_last,
                ==_iff link.last link.last,
                ==_iff node node,
              ));
        }
        | inr differs ↦ record {
          last = link.last;
          is_last = ground (arith, link.is_last, get-insert b.object_to_last_accessor id o node);
          path = path;
        }
      ]

  pub access-links : (node : ℕ) (b : Builder D.Graph) (id : ℕ) → Linked (access node b id) node id
  unfolding access
  access-links node b id = record {
    last = node;
    is_last = ground (arith, get-insert b.object_to_last_accessor id id node, ==_iff id id);
    path = here;
  }

-- ===== src/Schedule/Graph/Connected.antt =====
-- Where the dependency graph of a batch has a node for a transaction, and a path between two.
use mathlib.Core.List.{append-nil, append_assoc}
use remora.Prelude.{
  ap, sym, get_elem?-snoc, length-append, Bool-cases, ◌∙◌, ◌==◌, inl, inr, subst, ==_iff, refl, ℕ,
  ◌<◌, ◌≡◌, List, [], ◌∷◌, ◌++◌, true, some, get, insert, contains, nat_eq, arith, map, Option,
}
use remora.Api.{TransactionWithTimestamp, digest}
use remora.Versions.Laws.{touches}
use remora.Schedule.Graph.{
  DiGraph, DiGraphLaws, Builder, access, access_all, add_transaction, add_transactions,
}
use remora.Schedule.Graph.Linked.{
  IsBuilt, Linked, Covers, Walk_mono, node_count-access, weight-access, access-IsBuilt,
  access-Linked, access-links,
}

module _ ⦃D : DiGraph⦄ where
  -- The builder after `add_node`.
  abbrev pub empty : Builder D.Graph
  empty = record { graph = D.new; digest_to_node = []; object_to_last_accessor = [] }

  abbrev pub with_node : Builder D.Graph → TransactionWithTimestamp → Builder D.Graph
  with_node b tx = record b {
    graph = D.add_node b.graph (digest tx);
    digest_to_node = insert b.digest_to_node (digest tx) (D.node_count b.graph);
  }

module _ ⦃D : DiGraph⦄ (laws : DiGraphLaws D) where
  access_all-keeps :
      (node : ℕ) (b : Builder D.Graph) (objects : List (ℕ × Option ℕ))
      → node < D.node_count b.graph
      → IsBuilt b
      → IsBuilt (access_all node b objects)
        × (D.node_count (access_all node b objects).graph ≡ D.node_count b.graph)
        × ((i : ℕ) → D.weight (access_all node b objects).graph i ≡ D.weight b.graph i)
        × ((i o : ℕ) → Linked b i o → Linked (access_all node b objects) i o)
  unfolding access_all
  access_all-keeps node b [] h built = (built, refl, λ i. refl, λ i o link. link)
  access_all-keeps node b ((id, v) ∷ objects) h built =
      let (built', count', weights', links') =
        access_all-keeps node (access node b id) objects
          (ground (arith, node_count-access laws node b id))
          (access-IsBuilt laws node b id h built) in
      (
        built',
        omega (arith, count', node_count-access laws node b id),
        λ i. weights' i ∙ weight-access laws node b id i,
        λ i o link. links' i o (access-Linked laws node b id i o h built link),
      )

  access_all-links :
      (node : ℕ) (b : Builder D.Graph) (objects : List (ℕ × Option ℕ)) (o : ℕ)
      → node < D.node_count b.graph
      → IsBuilt b
      → contains (map (λ e. e.0) objects) o ≡ true
      → Linked (access_all node b objects) node o
  unfolding access_all contains
  access_all-links node b [] o h built m = absurd (ground arith)
  access_all-links node b ((id, v) ∷ objects) o h built m =
      let bound : node < D.node_count (access node b id).graph =
        ground (arith, node_count-access laws node b id) in
      let built' = access-IsBuilt laws node b id h built in
      elim (Bool-cases (id == o)) [
        | inl same ↦
            let (_, _, _, links') = access_all-keeps node (access node b id) objects bound built' in
            links' node o (
              subst (Linked (access node b id) node) ((==_iff id o).0 same)
                (access-links laws node b id))
        | inr differs ↦
            access_all-links node (access node b id) objects o bound built' (ground arith)
      ]

  pub with_node-IsBuilt :
      (b : Builder D.Graph) (tx : TransactionWithTimestamp) → IsBuilt b → IsBuilt (with_node b tx)
  with_node-IsBuilt b tx built = record {
    proper = record {
      bounded = λ u v n. ground (
        arith,
        laws.neighbors-add_node b.graph (digest tx) u v,
        laws.node_count-add_node b.graph (digest tx),
        built.proper.bounded u v,
      );
      symmetric = λ u v n. ground (
        arith,
        laws.neighbors-add_node b.graph (digest tx) u v,
        laws.neighbors-add_node b.graph (digest tx) v u,
        built.proper.symmetric u v,
      );
    };
    accessors =
        λ o a e. ground (arith, laws.node_count-add_node b.graph (digest tx), built.accessors o a);
  }

  with_node-Linked :
      (b : Builder D.Graph) (tx : TransactionWithTimestamp) (i o : ℕ)
      → Linked b i o
      → Linked (with_node b tx) i o
  with_node-Linked b tx i o link = record {
    last = link.last;
    is_last = link.is_last;
    path = Walk_mono (λ u v n. laws.neighbors-add_node b.graph (digest tx) u v ∙ n) link.path;
  }

  -- A transaction becomes the next node, and is linked at the objects that it touches.
  pub add_transaction-Covers :
      (done : List TransactionWithTimestamp) (b : Builder D.Graph) (tx : TransactionWithTimestamp)
      → Covers done b
      → Covers (done ++ tx ∷ []) (add_transaction b tx)
  unfolding add_transaction
  add_transaction-Covers done b tx c =
      let node = D.node_count b.graph in
      let start = with_node b tx in
      let bound : node < D.node_count start.graph =
        omega (arith, laws.node_count-add_node b.graph (digest tx)) in
      let built = with_node-IsBuilt b tx c.built in
      let (built', count', weights', links') =
        access_all-keeps node start tx.shared_objects bound built in
      record {
        built = built';
        size = omega (
          arith,
          count',
          laws.node_count-add_node b.graph (digest tx),
          c.size,
          length-append done (tx ∷ []),
        );
        digests = λ i t e. weights' i ∙ elim (get_elem?-snoc done tx t i e) [
          | inl (old, e') ↦
              laws.weight-old_node b.graph (digest tx) i (omega (arith, c.size)) ∙ c.digests i t e'
          | inr (last, same) ↦
              subst (λ k. D.weight start.graph k ≡ some (digest t)) (c.size ∙ sym last)
                (laws.weight-new_node b.graph (digest tx) ∙ ap (λ u. some (digest u)) same)
        ];
        linked = λ i o t e m. elim (get_elem?-snoc done tx t i e) [
          | inl (old, e') ↦ links' i o (with_node-Linked b tx i o (c.linked i o t e' m))
          | inr (last, same) ↦
              subst (λ k. Linked (access_all node start tx.shared_objects) k o) (c.size ∙ sym last)
                (access_all-links node start tx.shared_objects o bound built
                  (subst (λ u. touches u o ≡ true) (sym same) m))
        ];
      }

  add_transactions-Covers :
      (done : List TransactionWithTimestamp) (b : Builder D.Graph)
      (txs : List TransactionWithTimestamp)
      → Covers done b
      → Covers (done ++ txs) (add_transactions b txs)
  unfolding add_transactions
  add_transactions-Covers done b [] c = subst (λ l. Covers l b) (sym (append-nil done)) c
  add_transactions-Covers done b (tx ∷ txs) c =
      subst (λ l. Covers l (add_transactions (add_transaction b tx) txs))
        (append_assoc done (tx ∷ []) txs)
        (add_transactions-Covers (done ++ tx ∷ []) (add_transaction b tx) txs
          (add_transaction-Covers done b tx c))

  pub build-Covers : (txs : List TransactionWithTimestamp) → Covers txs (add_transactions empty txs)
  unfolding get
  build-Covers txs = add_transactions-Covers [] empty txs (record {
    built = record {
      proper = record {
        bounded = λ u v n. absurd (ground (arith, laws.neighbors-new u v));
        symmetric = λ u v n. absurd (ground (arith, laws.neighbors-new u v));
      };
      accessors = λ o a e. absurd (ground arith);
    };
    size = laws.node_count-new;
    digests = λ i t e. absurd (ground arith);
    linked = λ i o t e m. absurd (ground arith);
  })

-- ===== src/Schedule/Graph/Edges.antt =====
-- The neighbours in the dependency graph of a batch.
use mathlib.Core.List.{append-nil, append_assoc}
use remora.Prelude.{
  get_elem?-last, ◌∙◌, sym, Bool-cases, inr, inl, Option-cases, get_elem?-append, ℕ, ◌<◌, ◌≡◌, List,
  [], ◌∷◌, ◌++◌, true, some, get, contains, nat_eq, arith, ◌==◌, ◌&&◌, ==_iff, subst, get-insert,
  map, get_elem?, Option,
}
use remora.Api.{TransactionWithTimestamp, digest}
use remora.Versions.Laws.{touches}
use remora.Schedule.Graph.{
  DiGraph, DiGraphLaws, Neighbor, Builder, access, access_all, add_transaction, add_transactions,
}
use remora.Schedule.Graph.Linked.{
  IsBuilt, Covers, neighbors-access, access-IsBuilt, node_count-access,
}
use remora.Schedule.Graph.Connected.{
  with_node, with_node-IsBuilt, empty, build-Covers, add_transaction-Covers,
}

-- The transaction at a position touches the object.
abbrev pub Touched : List TransactionWithTimestamp → ℕ → ℕ → Type 0
Touched txs i o =
    (tx : TransactionWithTimestamp) × (get_elem? txs i ≡ some tx) × (touches tx o ≡ true)

-- Two transactions touch the same object.
abbrev pub Shares : List TransactionWithTimestamp → ℕ → ℕ → Type 0
Shares txs i j = (o : ℕ) × Touched txs i o × Touched txs j o

Touched-snoc :
    (txs : List TransactionWithTimestamp) (tx : TransactionWithTimestamp) (i o : ℕ)
    → Touched txs i o
    → Touched (txs ++ tx ∷ []) i o
Touched-snoc txs tx i o (t, e, m) = (t, get_elem?-append txs (tx ∷ []) i t e, m)

module _ ⦃D : DiGraph⦄ (txs : List TransactionWithTimestamp) where
  pub record IsSound (b : Builder D.Graph) : Type 0 where
    pub edges : (u v : ℕ) → Neighbor b.graph u v → Shares txs u v
    pub accessed : (o a : ℕ) → get b.object_to_last_accessor o ≡ some a → Touched txs a o

module _ ⦃D : DiGraph⦄ (laws : DiGraphLaws D) where
  access-IsSound :
      (txs : List TransactionWithTimestamp) (node : ℕ) (b : Builder D.Graph) (id : ℕ)
      → node < D.node_count b.graph
      → IsBuilt b
      → Touched txs node id
      → IsSound txs b
      → IsSound txs (access node b id)
  unfolding access
  access-IsSound txs node b id h built t s =
      let edge = neighbors-access laws node b id in
      record {
        edges = λ u v n. elim (Option-cases (get b.object_to_last_accessor id)) [
          | inl first ↦ s.edges u v (ground (arith, edge u v built h))
          | inr (a, e) ↦ elim (Bool-cases (contains (D.neighbors_undirected b.graph u) v)) [
            | inl old ↦ s.edges u v old
            | inr new ↦ elim (Bool-cases ((u == a) && (v == node))) [
              | inl forth ↦
                  let at_a : a ≡ u = ground (arith, ==_iff u a) in
                  let at_node : node ≡ v = ground (arith, ==_iff v node) in
                  (
                    id,
                    subst (λ k. Touched txs k id) at_a (s.accessed id a e),
                    subst (λ k. Touched txs k id) at_node t,
                  )
              | inr other ↦
                  let at_node : node ≡ u = ground (arith, edge u v built h, ==_iff u node) in
                  let at_a : a ≡ v = ground (arith, edge u v built h, ==_iff v a) in
                  (
                    id,
                    subst (λ k. Touched txs k id) at_node t,
                    subst (λ k. Touched txs k id) at_a (s.accessed id a e),
                  )
            ]
          ]
        ];
        accessed = λ o a e. elim (Bool-cases (id == o)) [
          | inl same ↦
              let is_last : node ≡ a =
                ground (arith, get-insert b.object_to_last_accessor id o node) in
              subst (λ k. Touched txs k o) is_last
                (subst (Touched txs node) ((==_iff id o).0 same) t)
          | inr differs ↦
              s.accessed o a (ground (arith, get-insert b.object_to_last_accessor id o node))
        ];
      }

  access_all-IsSound :
      (txs : List TransactionWithTimestamp) (node : ℕ) (b : Builder D.Graph)
      (objects : List (ℕ × Option ℕ))
      → node < D.node_count b.graph
      → IsBuilt b
      → ((o : ℕ) → contains (map (λ e. e.0) objects) o ≡ true → Touched txs node o)
      → IsSound txs b
      → IsSound txs (access_all node b objects)
  unfolding access_all contains
  access_all-IsSound txs node b [] h built t s = s
  access_all-IsSound txs node b ((id, v) ∷ objects) h built t s =
      access_all-IsSound txs node (access node b id) objects
        (ground (arith, node_count-access laws node b id)) (access-IsBuilt laws node b id h built)
        (λ o m. t o (ground arith))
        (access-IsSound txs node b id h built (t id (ground (arith, ==_iff id id))) s)

  with_node-IsSound :
      (done : List TransactionWithTimestamp) (b : Builder D.Graph) (tx : TransactionWithTimestamp)
      → IsSound done b
      → IsSound (done ++ tx ∷ []) (with_node b tx)
  with_node-IsSound done b tx s = record {
    edges = λ u v n.
        let (o, tu, tv) = s.edges u v (sym (laws.neighbors-add_node b.graph (digest tx) u v) ∙ n) in
        (o, Touched-snoc done tx u o tu, Touched-snoc done tx v o tv);
    accessed = λ o a e. Touched-snoc done tx a o (s.accessed o a e);
  }

  add_transactions-IsSound :
      (done : List TransactionWithTimestamp) (b : Builder D.Graph)
      (txs : List TransactionWithTimestamp)
      → Covers done b
      → IsSound done b
      → IsSound (done ++ txs) (add_transactions b txs)
  unfolding add_transactions add_transaction
  add_transactions-IsSound done b [] c s = subst (λ l. IsSound l b) (sym (append-nil done)) s
  add_transactions-IsSound done b (tx ∷ txs) c s =
      let at_end : get_elem? (done ++ tx ∷ []) (D.node_count b.graph) ≡ some tx =
        rw c.size (get_elem?-last done tx) in
      let here =
        access_all-IsSound (done ++ tx ∷ []) (D.node_count b.graph) (with_node b tx)
          tx.shared_objects (omega (arith, laws.node_count-add_node b.graph (digest tx)))
          (with_node-IsBuilt laws b tx c.built) (λ o m. (tx, at_end, m))
          (with_node-IsSound done b tx s) in
      subst (λ l. IsSound l (add_transactions (add_transaction b tx) txs))
        (append_assoc done (tx ∷ []) txs)
        (add_transactions-IsSound (done ++ tx ∷ []) (add_transaction b tx) txs
          (add_transaction-Covers laws done b tx c) here)

  pub build-IsSound :
      (txs : List TransactionWithTimestamp) → IsSound txs (add_transactions empty txs)
  unfolding get add_transactions
  build-IsSound txs = add_transactions-IsSound [] empty txs (build-Covers laws []) (record {
    edges = λ u v n. absurd (ground (arith, laws.neighbors-new u v));
    accessed = λ o a e. absurd (ground arith);
  })

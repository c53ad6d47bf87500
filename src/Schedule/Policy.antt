-- ===== src/Schedule/Policy.antt =====
-- src/primary/shared_obj_txn_forwarder.rs, `PreConsensusSchedTask`: the assignment of large subgraphs.
-- A panic is `none`.
use Prim.Native.Nat.{bit_or}
use remora.Prelude.{
  ℕ, zero, suc, List, [], ◌∷◌, ◌++◌, true, false, Option, none, some, if◌then◌else◌, ltb, length,
  Map, get, insert, contains, nat_eq, ◌+◌, ◌*◌, ◌^◌,
}
use remora.Api.{TransactionWithTimestamp, digest}
use remora.Versions.{shared_object_ids}
use remora.Schedule.Graph.{DiGraph}
use remora.Schedule.External.{External}
use remora.Schedule.Scores.{add_at}

-- `proxy_connections` are the keys of that map, and `object_last_proxy` has the indices of the vector
-- that are not `None`. `seed` is that of the random numbers.
pub record PreConsensusSchedTask (Seed : Type 0) : Type 0 where
  pub proxy_connections : List ℕ
  pub pre_consensus_routing_plan : Map ℕ ℕ
  pub proxy_loads : Map ℕ ℕ
  pub object_last_proxy : Map ℕ ℕ
  pub seed : Seed

-- `object_last_proxy.len()`
abbrev pub num_objects : ℕ
num_objects = 2 ^ 24

abbrev pub num_proxies : {Seed : Type 0} → PreConsensusSchedTask Seed → ℕ
num_proxies s = length s.proxy_connections

-- self.pre_consensus_routing_plan.insert(*digest, best_proxy)
unfoldable pub route : Map ℕ ℕ → List ℕ → ℕ → Map ℕ ℕ
route plan [] best_proxy = plan
route plan (d ∷ ds) best_proxy = route (insert plan d best_proxy) ds best_proxy

-- The objects of the transactions in the map.
unfoldable pub collect_objects : Map ℕ TransactionWithTimestamp → List ℕ → List ℕ
collect_objects tx_map [] = []
collect_objects tx_map (d ∷ ds) = elim (get tx_map d) [
  | none ↦ collect_objects tx_map ds
  | some tx ↦ shared_object_ids tx ++ collect_objects tx_map ds
]

unfoldable pub total_weight : Map ℕ TransactionWithTimestamp → List ℕ → ℕ
total_weight tx_map [] = 0
total_weight tx_map (d ∷ ds) =
    elim (get tx_map d) [ none ↦ 0 | some tx ↦ tx.expected_stateful_duration ]
    + total_weight tx_map ds

unfoldable pub to_tx_map :
    List TransactionWithTimestamp → Map ℕ TransactionWithTimestamp → Map ℕ TransactionWithTimestamp
to_tx_map [] m = m
to_tx_map (tx ∷ txs) m = to_tx_map txs (insert m (digest tx) tx)

-- self.proxy_loads.get(&proxy_id).map_or(0, |load| *load)
unfoldable pub current_load : Map ℕ ℕ → ℕ → ℕ
current_load loads proxy_id = elim (get loads proxy_id) [ none ↦ 0 | some load ↦ load ]

-- sort_by_key with Reverse(len), which is stable
unfoldable pub insert_by_len : List ℕ → List (List ℕ) → List (List ℕ)
insert_by_len c [] = c ∷ []
insert_by_len c (d ∷ ds) =
    let rest = insert_by_len c ds in if ltb (length c) (length d) then d ∷ rest else c ∷ d ∷ ds

unfoldable pub sort_by_len : List (List ℕ) → List (List ℕ)
sort_by_len [] = []
sort_by_len (c ∷ cs) = insert_by_len c (sort_by_len cs)

-- The second part of the partition, the subgraphs of at least two nodes.
unfoldable pub large : List (List ℕ) → List (List ℕ)
large [] = []
large (c ∷ cs) = let rest = large cs in if ltb (length c) 2 then rest else c ∷ rest

-- The set of the digests of a subgraph, by `graph[idx]`.
unfoldable pub collect_digests : ⦃D : DiGraph⦄ → D.Graph → List ℕ → Option (List ℕ)
collect_digests graph [] = some []
collect_digests ⦃D⦄ graph (idx ∷ nodes) = elim (D.weight graph idx) [
  | none ↦ none
  | some d ↦ elim (collect_digests graph nodes) [
    | none ↦ none
    | some ds ↦ some (if contains ds d then ds else d ∷ ds)
  ]
]

module _ ⦃E : External⦄ where
  -- `index - 1` underflows at 0; unchecked, the index that it wraps to is out of range.
  unfoldable pub object_id_24bit_index : ℕ → Option ℕ
  object_id_24bit_index object_id =
      let index =
        bit_or (bit_or (E.byte object_id 0) (E.byte object_id 1 * 2 ^ 8))
          (E.byte object_id 2 * 2 ^ 16) in
      elim index [ zero ↦ none | suc i ↦ some i ]

  -- One round of the locality loop: self.object_last_proxy[idx], and the count of its proxy.
  unfoldable pub score_object : Map ℕ ℕ → List ℕ → ℕ → Option (List ℕ)
  score_object last scores object_id = elim (object_id_24bit_index object_id) [
    | none ↦ none
    | some idx ↦ elim (ltb idx num_objects) [
      | false ↦ none
      | true ↦ elim (get last idx) [ none ↦ some scores | some proxy_id ↦ add_at scores proxy_id 1 ]
    ]
  ]

  unfoldable pub locality_scores : Map ℕ ℕ → List ℕ → List ℕ → Option (List ℕ)
  locality_scores last scores [] = some scores
  locality_scores last scores (object_id ∷ objects) = elim (score_object last scores object_id) [
    | none ↦ none
    | some scores' ↦ locality_scores last scores' objects
  ]

  -- One round of the loop that notes the proxy of each object.
  unfoldable pub note_objects : Map ℕ ℕ → ℕ → List ℕ → Option (Map ℕ ℕ)
  note_objects last proxy_id [] = some last
  note_objects last proxy_id (object_id ∷ objects) = elim (object_id_24bit_index object_id) [
    | none ↦ none
    | some idx ↦ elim (ltb idx num_objects) [
      | false ↦ none
      | true ↦ note_objects (insert last idx proxy_id) proxy_id objects
    ]
  ]

-- ===== src/Versions.antt =====
-- src/primary/shared_obj_txn_forwarder.rs, `VersionAssignmentTask`: each transaction with shared
-- objects gets the current version of each of them, and moves them all to one new version.
pub mod Laws
pub mod Chain
pub mod Batches
use remora.Prelude.{
  ℕ, ◌≤◌, List, [], ◌∷◌, ◌++◌, Option, none, some, map, ltb, if◌then◌else◌, Map, get, insert,
  nat_eq,
}
use remora.SequenceNumber.{SequenceNumbers, next}
use remora.Api.{TransactionWithTimestamp}
use remora.Api.SharedObjects.{collect}

abbrev pub initial_version : ℕ
initial_version = 2

-- The keys of `transaction.shared_objects()`.
abbrev pub shared_object_ids : TransactionWithTimestamp → List ℕ
shared_object_ids t = map (λ e. e.0) t.shared_objects

-- shared_object_versions.get(obj_id).copied().unwrap_or(initial_version)
unfoldable pub current_version : Map ℕ ℕ → ℕ → ℕ
current_version versions id = elim (get versions id) [ none ↦ initial_version | some v ↦ v ]

-- The first loop: the current versions, and the largest of them and `max_version`.
unfoldable pub collect_versions : Map ℕ ℕ → ℕ → List ℕ → List (ℕ × ℕ) × ℕ
collect_versions versions max_version [] = ([], max_version)
collect_versions versions max_version (id ∷ ids) =
    let current = current_version versions id in
    let (result, m) =
      collect_versions versions (if ltb max_version current then current else max_version) ids in
    ((id, current) ∷ result, m)

-- The second loop.
unfoldable pub update_versions : Map ℕ ℕ → ℕ → List ℕ → Map ℕ ℕ
update_versions versions new_version [] = versions
update_versions versions new_version (id ∷ ids) =
    update_versions (insert versions id new_version) new_version ids

pub record Assignment : Type 0 where
  pub required : List (ℕ × ℕ)
  pub versions : Map ℕ ℕ
  pub transaction : TransactionWithTimestamp

module _ ⦃S : SequenceNumbers⦄ where
  unfoldable pub assign_ids : Map ℕ ℕ → TransactionWithTimestamp → List ℕ → Assignment
  unfolding collect_versions update_versions current_version
  assign_ids versions transaction [] = record {
    required = [];
    versions = versions;
    transaction = transaction;
  }
  assign_ids versions transaction (id ∷ ids) =
      let (result, max_version) = collect_versions versions initial_version (id ∷ ids) in
      record {
        required = result;
        versions = update_versions versions (next max_version) (id ∷ ids);
        transaction = record transaction {
          shared_objects = collect (map (λ e. (e.0, some e.1)) result);
        };
      }

  unfoldable pub assign_shared_object_versions : Map ℕ ℕ → TransactionWithTimestamp → Assignment
  unfolding assign_ids
  assign_shared_object_versions versions transaction =
      assign_ids versions transaction (shared_object_ids transaction)

  -- The inner loop: what is sent for each transaction of a batch, and the versions after it.
  unfoldable pub assign_batch :
      Map ℕ ℕ
      → List TransactionWithTimestamp
      → List (TransactionWithTimestamp × List (ℕ × ℕ)) × Map ℕ ℕ
  assign_batch versions [] = ([], versions)
  assign_batch versions (t ∷ ts) =
      let a = assign_shared_object_versions versions t in
      let (sent, versions') = assign_batch a.versions ts in
      ((a.transaction, a.required) ∷ sent, versions')

  -- The outer loop, over the batches that the channel delivers.
  unfoldable pub process_version_assignments :
      Map ℕ ℕ
      → List (List TransactionWithTimestamp)
      → List (TransactionWithTimestamp × List (ℕ × ℕ)) × Map ℕ ℕ
  unfolding assign_batch
  process_version_assignments versions [] = ([], versions)
  process_version_assignments versions (batch ∷ batches) =
      let (sent, versions') = assign_batch versions batch in
      let (later, versions'') = process_version_assignments versions' batches in
      (sent ++ later, versions'')

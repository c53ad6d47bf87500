-- ===== src/WorkerPool.antt =====
-- src/executor/worker_pool.rs, and the loops of src/primary/shared_obj_txn_forwarder.rs that feed the
-- pools: tasks go round the workers. `none` is a panic. (The threads, and the cores that they are
-- pinned to, are not modelled: a worker takes the tasks of its channel one by one.)
pub mod Dealt
use remora.Prelude.{ℕ, zero, suc, ◌+◌, ◌%◌, List, [], ◌∷◌, ◌++◌, Option, none, some, length}
use remora.Api.{TransactionWithTimestamp, StatelessVerificationRequest}
use remora.Forwarder.Task.{ForwardingTask}

-- `worker_txs` is what the channel of each worker was given, oldest first.
pub record GenericWorkerPool (T : Type 0) : Type 0 where
  pub worker_txs : List (List T)
  pub next_worker : ℕ

module _ {T : Type 0} where
  unfoldable pub channels : ℕ → List (List T)
  channels zero = []
  channels (suc num_workers) = [] ∷ channels num_workers

  unfoldable pub new_pool : ℕ → GenericWorkerPool T
  unfolding channels
  new_pool num_workers = record { worker_txs = channels num_workers; next_worker = 0 }

  abbrev cons_channel : List T → Option (List (List T)) → Option (List (List T))
  cons_channel q none = none
  cons_channel q (some qs) = some (q ∷ qs)

  -- self.worker_txs[worker_index].send(task)
  unfoldable pub send_at : List (List T) → ℕ → T → Option (List (List T))
  send_at [] i task = none
  send_at (q ∷ qs) zero task = some ((q ++ task ∷ []) ∷ qs)
  send_at (q ∷ qs) (suc i) task = cons_channel q (send_at qs i task)

  -- Without a worker the remainder is a division by zero.
  unfoldable pub send_task : GenericWorkerPool T → T → Option (GenericWorkerPool T)
  send_task pool task = elim (send_at pool.worker_txs pool.next_worker task) [
    | none ↦ none
    | some worker_txs ↦ some (record {
      worker_txs = worker_txs;
      next_worker = (pool.next_worker + 1) % length pool.worker_txs;
    })
  ]

  abbrev pub worker_count : GenericWorkerPool T → ℕ
  worker_count pool = length pool.worker_txs

  -- The loop of `process_shared_txns` and that of `forward_stateless_txn`.
  unfoldable pub send_all : GenericWorkerPool T → List T → Option (GenericWorkerPool T)
  send_all pool [] = some pool
  send_all pool (task ∷ tasks) = elim (send_task pool task) [
    | none ↦ none
    | some pool' ↦ send_all pool' tasks
  ]

-- The tasks that `process_shared_txns` makes, numbered by its counter.
unfoldable pub forwarding_tasks :
    ℕ → List (TransactionWithTimestamp × List (ℕ × ℕ)) → List ForwardingTask
forwarding_tasks counter [] = []
forwarding_tasks counter ((t, required) ∷ rest) =
    record { transaction = t; required_versions = required; counter = counter }
    ∷ forwarding_tasks (counter + 1) rest

unfoldable pub process_shared_txns :
    GenericWorkerPool ForwardingTask
    → List (TransactionWithTimestamp × List (ℕ × ℕ))
    → Option (GenericWorkerPool ForwardingTask)
process_shared_txns pool received = send_all pool (forwarding_tasks 0 received)

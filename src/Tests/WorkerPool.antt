-- ===== src/Tests/WorkerPool.antt =====
-- Five tasks on two workers.
use remora.Prelude.{ℕ, ◌≡◌, refl, [], ◌∷◌, some, arith}
use remora.WorkerPool.{GenericWorkerPool, new_pool, send_all}
use remora.WorkerPool.Dealt.{dealt, of_worker, new_pool-deals}

five : dealt {T = ℕ} 2 0 1 (10 ∷ 11 ∷ 12 ∷ 13 ∷ 14 ∷ []) ≡ 11 ∷ 13 ∷ []
unfolding dealt
five = refl

new_pool-deals_example :
    (d : GenericWorkerPool ℕ) × (send_all (new_pool 2) (10 ∷ 11 ∷ 12 ∷ 13 ∷ 14 ∷ []) ≡ some d)
    × ((w : ℕ) → of_worker d.worker_txs w ≡ dealt 2 0 w (10 ∷ 11 ∷ 12 ∷ 13 ∷ 14 ∷ []))
new_pool-deals_example = new_pool-deals 2 (10 ∷ 11 ∷ 12 ∷ 13 ∷ 14 ∷ []) (omega arith)

-- ===== src/WorkerPool/Dealt.antt =====
-- Which worker gets which task.
use native.Mathlib.Nat.{mod-add-mod}
use mathlib.Core.List.{append_assoc, append-nil}
use remora.Prelude.{
  ℕ, zero, suc, ◌+◌, ◌%◌, ◌<◌, ◌≡◌, refl, sym, ap, ◌∙◌, List, [], ◌∷◌, ◌++◌, Option, none, some,
  length, get_elem?, arith, if◌then◌else◌, ◌==◌, nat_eq, Bool-cases, inl, inr,
}
use remora.WorkerPool.{GenericWorkerPool, new_pool, channels, send_at, send_task, send_all}

length-channels : (T : Type 0) (n : ℕ) → length (channels {T = T} n) ≡ n
unfolding channels
length-channels T zero = refl
length-channels T (suc n) = ap suc (length-channels T n)

module _ {T : Type 0} where
  -- The tasks whose position, counted from `start`, is `w` modulo the number of workers.
  unfoldable pub dealt : (n start w : ℕ) → List T → List T
  dealt n start w [] = []
  dealt n start w (task ∷ tasks) =
      let rest = dealt n (start + 1) w tasks in if start % n == w then task ∷ rest else rest

  abbrev pub channel : Option (List T) → List T
  channel none = []
  channel (some q) = q

  -- The channel of a worker.
  abbrev pub of_worker : List (List T) → ℕ → List T
  of_worker qs w = channel (get_elem? qs w)

  here_lem :
      (q : List T) (qs : List (List T)) (task : T) (w : ℕ)
      → of_worker ((q ++ task ∷ []) ∷ qs) w
        ≡ (if zero == w then of_worker (q ∷ qs) w ++ task ∷ [] else of_worker (q ∷ qs) w)
  here_lem q qs task zero = refl
  here_lem q qs task (suc w) = ground arith

  there_lem :
      (q : List T) (qs rs : List (List T)) (i : ℕ) (task : T) (w : ℕ)
      → ((w : ℕ)
          → of_worker rs w ≡ (if i == w then of_worker qs w ++ task ∷ [] else of_worker qs w))
      → of_worker (q ∷ rs) w
        ≡ (if suc i == w then of_worker (q ∷ qs) w ++ task ∷ [] else of_worker (q ∷ qs) w)
  there_lem q qs rs i task zero h = ground arith
  there_lem q qs rs i task (suc w) h = ground (arith, h w)

  send_at_lem :
      (qs : List (List T)) (i : ℕ) (task : T)
      → i < length qs
      → (rs : List (List T)) × (send_at qs i task ≡ some rs)
        × (length rs ≡ length qs)
        × ((w : ℕ)
            → of_worker rs w ≡ (if i == w then of_worker qs w ++ task ∷ [] else of_worker qs w))
  unfolding send_at
  send_at_lem [] i task h = absurd (omega arith)
  send_at_lem (q ∷ qs) zero task h = ((q ++ task ∷ []) ∷ qs, refl, refl, here_lem q qs task)
  send_at_lem (q ∷ qs) (suc i) task h =
      let (rs, run, len, at') = send_at_lem qs i task (omega arith) in
      (q ∷ rs, rw run refl, ap suc len, λ w. there_lem q qs rs i task w at')

  -- A task more in a channel, or not.
  dealt-cons :
      (qs rs : List (List T)) (n start w : ℕ) (task : T) (tasks : List T)
      → of_worker rs w ≡ (if start % n == w then of_worker qs w ++ task ∷ [] else of_worker qs w)
      → of_worker rs w ++ dealt n (start + 1) w tasks
        ≡ of_worker qs w ++ dealt n start w (task ∷ tasks)
  unfolding dealt
  dealt-cons qs rs n start w task tasks h = elim (Bool-cases (start % n == w)) [
    | inl e ↦
        rw (e, h) (rw e (append_assoc (of_worker qs w) (task ∷ []) (dealt n (start + 1) w tasks)))
    | inr e ↦ rw (e, h) (rw e refl)
  ]

  send_all-cons :
      (pool : GenericWorkerPool T) (task : T) (tasks : List T) (rs : List (List T))
      → send_at pool.worker_txs pool.next_worker task ≡ some rs
      → send_all pool (task ∷ tasks)
        ≡ send_all
            (record {
              worker_txs = rs;
              next_worker = (pool.next_worker + 1) % length pool.worker_txs;
            })
            tasks
  unfolding send_all send_task
  send_all-cons pool task tasks rs run = cc run

  send_all_lem :
      (pool : GenericWorkerPool T) (n start : ℕ) (tasks : List T)
      → length pool.worker_txs ≡ n
      → 0 < n
      → pool.next_worker ≡ start % n
      → (d : GenericWorkerPool T) × (send_all pool tasks ≡ some d)
        × ((w : ℕ)
            → of_worker d.worker_txs w ≡ of_worker pool.worker_txs w ++ dealt n start w tasks)
  unfolding send_all dealt
  send_all_lem pool n start [] len pos turn = (pool, refl, λ w. sym (append-nil _))
  send_all_lem pool n start (task ∷ tasks) len pos turn =
      let (rs, run, same, at') =
        send_at_lem pool.worker_txs pool.next_worker task (grind (arith, turn, len)) in
      let next_turn : (pool.next_worker + 1) % length pool.worker_txs ≡ (start + 1) % n =
        ap (λ k. (pool.next_worker + 1) % k) len
        ∙ ap (λ k. (k + 1) % n) turn
        ∙ mod-add-mod start n 1 in
      let (d, runs, at'') =
        send_all_lem
          (record {
            worker_txs = rs;
            next_worker = (pool.next_worker + 1) % length pool.worker_txs;
          })
          n (start + 1) tasks (same ∙ len) pos next_turn in
      (
        d,
        send_all-cons pool task tasks rs run ∙ runs,
        λ w.
            at'' w
            ∙ dealt-cons pool.worker_txs rs n start w task tasks (
                at' w
                ∙ ap
                    (λ k.
                      if k == w
                      then of_worker pool.worker_txs w ++ task ∷ []
                      else of_worker pool.worker_txs w)
                    turn),
      )

  channels-empty : (n w : ℕ) → of_worker (channels {T = T} n) w ≡ []
  unfolding channels
  channels-empty zero w = refl
  channels-empty (suc n) zero = refl
  channels-empty (suc n) (suc w) = channels-empty n w

  -- A new pool with at least one worker takes any tasks without a panic, and the channel of each
  -- worker then has exactly the tasks whose position modulo the number of workers is the worker's
  -- number, in their order.
  pub new_pool-deals :
      (n : ℕ) (tasks : List T)
      → 0 < n
      → (d : GenericWorkerPool T) × (send_all (new_pool n) tasks ≡ some d)
        × ((w : ℕ) → of_worker d.worker_txs w ≡ dealt n 0 w tasks)
  unfolding new_pool
  new_pool-deals n tasks pos =
      let (d, run, at') =
        send_all_lem (new_pool n) n 0 tasks (length-channels T n) pos (grind arith) in
      (d, run, λ w. at' w ∙ ap (λ q. q ++ dealt n 0 w tasks) (channels-empty n w))

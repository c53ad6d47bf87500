-- ===== src/Versions/Batches.antt =====
-- What `process_version_assignments` sends on over all its batches.
use remora.Prelude.{
  ◌∙◌, true, ◌≤◌, zero, suc, suc, ap, arith, get, get_elem?, ℕ, ◌<◌, ◌≡◌, refl, sym, List, [], ◌∷◌,
  ◌++◌, Option, some, Map, nat_eq, concat,
}
use remora.SequenceNumber.{SequenceNumbers}
use remora.Api.{TransactionWithTimestamp, digest}
use remora.Versions.Laws.{touches}
use remora.Versions.Chain.{required-get, after, current-le-after, current-lt-new, after-version}
use remora.Versions.{
  shared_object_ids, current_version, assign_ids, assign_shared_object_versions, assign_batch,
  process_version_assignments,
}

module _ ⦃S : SequenceNumbers⦄ where
  assign_batch-append :
      (m : Map ℕ ℕ) (ts us : List TransactionWithTimestamp)
      → assign_batch m (ts ++ us) ≡ (
        (assign_batch m ts).0 ++ (assign_batch (assign_batch m ts).1 us).0,
        (assign_batch (assign_batch m ts).1 us).1,
      )
  unfolding assign_batch
  assign_batch-append m [] us = refl
  assign_batch-append m (t ∷ ts) us =
      rw (assign_batch-append (assign_shared_object_versions m t).versions ts us) refl

  -- The batches in which transactions come do not matter: what is sent, and the versions in the end,
  -- are those of the one batch of all the transactions in their order.
  pub process-concat :
      (m : Map ℕ ℕ) (batches : List (List TransactionWithTimestamp))
      → process_version_assignments m batches ≡ assign_batch m (concat batches)
  unfolding process_version_assignments
  process-concat m [] = refl
  process-concat m (ts ∷ batches) =
      rw (process-concat (assign_batch m ts).1 batches)
        (sym (assign_batch-append m ts (concat batches)))

-- What is sent for a transaction later on requires no object below its current version.
module _ ⦃S : SequenceNumbers⦄ where
  assign_batch-above :
      (m : Map ℕ ℕ) (ts : List TransactionWithTimestamp) (j : ℕ)
      (f : TransactionWithTimestamp × List (ℕ × ℕ)) (id w : ℕ)
      → get_elem? (assign_batch m ts).0 j ≡ some f
      → get f.1 id ≡ some w
      → current_version m id ≤ w
  unfolding assign_batch
  assign_batch-above m [] j f id w at h = absurd (ground arith)
  assign_batch-above m (t ∷ ts) zero f id w at h =
      let same : (assign_shared_object_versions m t).required ≡ f.1 = ground arith in
      ground (arith, required-get m t id, ap (λ r. get r id) same, h)
  assign_batch-above m (t ∷ ts) (suc j) f id w at h =
      omega (arith, assign_batch-above (after m t) ts j f id w at h, current-le-after m t id)

  assign_batch-increases :
      (m : Map ℕ ℕ) (ts : List TransactionWithTimestamp) (i j : ℕ)
      (e f : TransactionWithTimestamp × List (ℕ × ℕ)) (id v w : ℕ)
      → i < j
      → get_elem? (assign_batch m ts).0 i ≡ some e
      → get_elem? (assign_batch m ts).0 j ≡ some f
      → get e.1 id ≡ some v
      → get f.1 id ≡ some w
      → v < w
  unfolding assign_batch
  assign_batch-increases m [] i j e f id v w lt ei fj ev fw = absurd (ground arith)
  assign_batch-increases m (t ∷ ts) i zero e f id v w lt ei fj ev fw = absurd (omega arith)
  assign_batch-increases m (t ∷ ts) zero (suc j) e f id v w lt ei fj ev fw =
      let same : (assign_shared_object_versions m t).required ≡ e.1 = ground arith in
      ground (
        arith,
        required-get m t id,
        ap (λ r. get r id) same,
        ev,
        after-version m t id,
        current-lt-new m t id,
        assign_batch-above (after m t) ts j f id w fj fw,
      )
  assign_batch-increases m (t ∷ ts) (suc i) (suc j) e f id v w lt ei fj ev fw =
      assign_batch-increases (after m t) ts i j e f id v w (omega arith) ei fj ev fw

  -- What is sent for a transaction that touches an object: it, with a version of the object.
  abbrev pub SentFor :
      List (TransactionWithTimestamp × List (ℕ × ℕ)) → ℕ → TransactionWithTimestamp → ℕ → ℕ → Type 0
  SentFor sent i t id v =
      (e : TransactionWithTimestamp × List (ℕ × ℕ)) × (get_elem? sent i ≡ some e)
      × (digest e.0 ≡ digest t)
      × (get e.1 id ≡ some v)

  assign_ids-digest :
      (m : Map ℕ ℕ) (t : TransactionWithTimestamp) (ids : List ℕ)
      → digest (assign_ids m t ids).transaction ≡ digest t
  unfolding assign_ids
  assign_ids-digest m t [] = refl
  assign_ids-digest m t (i ∷ ids) = refl

  assign_batch-SentFor :
      (m : Map ℕ ℕ) (ts : List TransactionWithTimestamp) (i : ℕ) (t : TransactionWithTimestamp)
      (id : ℕ)
      → get_elem? ts i ≡ some t
      → touches t id ≡ true
      → (v : ℕ) × SentFor (assign_batch m ts).0 i t id v
  unfolding assign_batch assign_shared_object_versions
  assign_batch-SentFor m [] i t id at h = absurd (ground arith)
  assign_batch-SentFor m (u ∷ ts) zero t id at h =
      let same : u ≡ t = ground arith in
      let a = assign_shared_object_versions m u in
      (
        current_version m id,
        (
          (a.transaction, a.required),
          refl,
          assign_ids-digest m u (shared_object_ids u) ∙ ap digest same,
          ground (arith, required-get m u id, ap (λ x. touches x id) same, h),
        ),
      )
  assign_batch-SentFor m (u ∷ ts) (suc i) t id at h =
      assign_batch-SentFor (after m u) ts i t id at h

  -- Over all the batches that the loop receives: for two transactions that share an object, one after the
  -- other, both are sent on, each in its place, and the later one requires the object at a strictly
  -- larger version.
  pub process-increases :
      (m : Map ℕ ℕ) (batches : List (List TransactionWithTimestamp)) (i j : ℕ)
      (t u : TransactionWithTimestamp) (id : ℕ)
      → i < j
      → get_elem? (concat batches) i ≡ some t
      → get_elem? (concat batches) j ≡ some u
      → touches t id ≡ true
      → touches u id ≡ true
      → (v w : ℕ) × SentFor (process_version_assignments m batches).0 i t id v
        × SentFor (process_version_assignments m batches).0 j u id w
        × (v < w)
  process-increases m batches i j t u id lt ti uj ht hu =
      let ts = concat batches in
      let (v, (e, ei, de, ev)) = assign_batch-SentFor m ts i t id ti ht in
      let (w, (f, fj, df, fw)) = assign_batch-SentFor m ts j u id uj hu in
      rw (process-concat m batches) (
        v,
        w,
        (e, ei, de, ev),
        (f, fj, df, fw),
        assign_batch-increases m ts i j e f id v w lt ei fj ev fw,
      )

-- The entry of an object in a transaction once its version is assigned.
abbrev pub with_version : ℕ × ℕ → ℕ × Option ℕ
with_version e = (e.0, some e.1)

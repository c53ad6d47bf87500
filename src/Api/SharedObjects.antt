-- ===== src/Api/SharedObjects.antt =====
-- `BTreeMap<ObjectID, Option<SequenceNumber>>` of src/executor/api.rs: a list of entries in the order
-- of their keys, which `collect` builds.
use mathlib.Core.List.{append-nil, append_assoc}
use remora.Prelude.{
  All-append, refl, sym, ap, ◌∙◌, ◌++◌, ◌≡◌, ℕ, ◌<◌, List, [], ◌∷◌, arith, ltb, if◌then◌else◌, ◌==◌,
  nat_eq, All,
}

module _ {ℓ} {V : Type ℓ} where
  -- map.insert(k, v)
  unfoldable pub sorted_insert : ℕ → V → List (ℕ × V) → List (ℕ × V)
  sorted_insert k v [] = (k, v) ∷ []
  sorted_insert k v ((j, w) ∷ m) =
      let rest = sorted_insert k v m in
      if k == j then (k, v) ∷ m else if ltb k j then (k, v) ∷ (j, w) ∷ m else (j, w) ∷ rest

  unfoldable pub collect_into : List (ℕ × V) → List (ℕ × V) → List (ℕ × V)
  collect_into m [] = m
  collect_into m ((k, v) ∷ entries) = collect_into (sorted_insert k v m) entries

  -- entries.into_iter().collect()
  unfoldable pub collect : List (ℕ × V) → List (ℕ × V)
  unfolding collect_into sorted_insert
  collect entries = collect_into [] entries

  -- Each key is below all that follow it.
  abbrev pub Ascending : List (ℕ × V) → Type 0
  Ascending [] = Unit {0}
  Ascending ((k, v) ∷ m) = All (λ (e : ℕ × V). k < e.0) m × Ascending m

  All-above : (k j : ℕ) (m : List (ℕ × V)) → k < j → All (λ e. j < e.0) m → All (λ e. k < e.0) m
  All-above k j [] h a = tt
  All-above k j (e ∷ m) h a = (omega arith, All-above k j m h a.1)

  sorted_insert-above :
      (b k : ℕ) (v : V) (m : List (ℕ × V))
      → b < k
      → All (λ e. b < e.0) m
      → All (λ e. b < e.0) (sorted_insert k v m)
  unfolding sorted_insert
  sorted_insert-above b k v [] h a = (h, tt)
  sorted_insert-above b k v ((j, w) ∷ m) h a = ground (arith, sorted_insert-above b k v m h a.1)

  sorted_insert-Ascending :
      (k : ℕ) (v : V) (m : List (ℕ × V)) → Ascending m → Ascending (sorted_insert k v m)
  unfolding sorted_insert
  sorted_insert-Ascending k v [] a = (tt, tt)
  sorted_insert-Ascending k v ((j, w) ∷ m) a =
      ground
        (arith, sorted_insert-Ascending k v m a.1, sorted_insert-above j k v m, All-above k j m)

  collect_into-Ascending :
      (m entries : List (ℕ × V)) → Ascending m → Ascending (collect_into m entries)
  unfolding collect_into
  collect_into-Ascending m [] a = a
  collect_into-Ascending m ((k, v) ∷ entries) a =
      collect_into-Ascending (sorted_insert k v m) entries (sorted_insert-Ascending k v m a)

  pub collect-Ascending : (entries : List (ℕ × V)) → Ascending (collect entries)
  unfolding collect
  collect-Ascending entries = collect_into-Ascending [] entries tt

  -- A key above all others goes to the end.
  sorted_insert-last :
      (m : List (ℕ × V)) (k : ℕ) (v : V)
      → All (λ e. e.0 < k) m
      → sorted_insert k v m ≡ m ++ (k, v) ∷ []
  unfolding sorted_insert
  sorted_insert-last [] k v h = refl
  sorted_insert-last ((j, w) ∷ m) k v h = ground (arith, sorted_insert-last m k v h.1)

  All-last :
      (m entries : List (ℕ × V)) (k : ℕ) (v : V)
      → All (λ x. All (λ e. e.0 < x.0) m) entries
      → All (λ e. k < e.0) entries
      → All (λ x. All (λ e. e.0 < x.0) (m ++ (k, v) ∷ [])) entries
  All-last m [] k v h a = tt
  All-last m (x ∷ entries) k v h a =
      (All-append (λ e. e.0 < x.0) m ((k, v) ∷ []) h.0 (a.0, tt), All-last m entries k v h.1 a.1)

  collect_into-ordered :
      (m entries : List (ℕ × V))
      → All (λ x. All (λ e. e.0 < x.0) m) entries
      → Ascending entries
      → collect_into m entries ≡ m ++ entries
  unfolding collect_into
  collect_into-ordered m [] h a = sym (append-nil m)
  collect_into-ordered m ((k, v) ∷ entries) h a =
      ap (λ r. collect_into r entries) (sorted_insert-last m k v h.0)
      ∙ collect_into-ordered (m ++ (k, v) ∷ []) entries (All-last m entries k v h.1 a.0) a.1
      ∙ append_assoc m ((k, v) ∷ []) entries

  All-none :
      (entries : List (ℕ × V)) → All (λ (x : ℕ × V). All {A = ℕ × V} (λ e. e.0 < x.0) []) entries
  All-none [] = tt
  All-none (x ∷ entries) = (tt, All-none entries)

  -- Entries that are in order already stay as they are.
  pub collect-ordered : (entries : List (ℕ × V)) → Ascending entries → collect entries ≡ entries
  unfolding collect
  collect-ordered entries a = collect_into-ordered [] entries (All-none entries) a
